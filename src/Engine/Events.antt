-- ===== src/Engine/Events.antt =====
-- execution/engine/src/Engine.cpp: the events that a token awaits, each up to the processing of the commands.
pub mod Entry
use bpmnos_engine.Prelude.{
  ℕ, Bool, true, false, Option, none, some, List, [], ◌∷◌, if◌then◌else◌, Result, ok, throw, ◌>>=◌,
  failed_assert,
}
use bpmnos_engine.Utility.AutoSet.{remove}
use bpmnos_engine.Engine.World.{
  World, Token, Status, Node, advance_to_entered, advance_to_completed, advance_to_failed,
  put_token, enqueue_for_token,
}
use bpmnos_engine.Engine.Tokens.{set_timestamp}
use bpmnos_engine.Engine.Performer.{reset_request, in_sequential_adhoc, occupy_sequential_performer}

abbrev pub set_status : Token → Status → Token
set_status token s = record token { status = s }

-- `token->decisionRequest.reset()`, and the timestamp becomes the current time.
unfoldable pub decide : ℕ → World → World
unfolding reset_request
decide t w =
    let v = reset_request t w in
    put_token v t (set_status (v.token t) (set_timestamp (v.token t).status v.current_time))

-- The status of the entry, if the decision states one.
abbrev pub with_status : ℕ → Option Status → World → World
with_status t none w = w
with_status t (some s) w = put_token w t (set_status (w.token t) s)

module _ (node_of : ℕ → Node) where
  -- An activity of a sequential ad-hoc subprocess occupies its performer.
  unfoldable pub occupy_if_sequential : ℕ → World → Result World
  unfolding occupy_sequential_performer
  occupy_if_sequential t w =
      if in_sequential_adhoc node_of w t then occupy_sequential_performer node_of t w else ok w

  -- `Engine::process(const EntryEvent*)`
  unfoldable pub process_entry : ℕ → Option Status → World → Result World
  unfolding decide occupy_if_sequential
  process_entry t entry_status w =
      if w.alive t
      then (occupy_if_sequential t (decide t w) >>= λ v.
          ok (enqueue_for_token (with_status t entry_status v) (advance_to_entered t) t))
      else throw failed_assert

-- `Engine::process(const CompletionEvent*)`
unfoldable pub process_completion : ℕ → Status → World → Result World
unfolding remove
process_completion t status w =
    if w.alive t
    then (let v =
          put_token
            (record w {
              tokens_awaiting_completion_event =
                  remove w.alive 0 t w.tokens_awaiting_completion_event;
            })
            t (set_status (w.token t) status) in
        ok (enqueue_for_token v (advance_to_completed t) t))
    else throw failed_assert

-- `Engine::process(const ErrorEvent*)`
unfoldable pub process_error : ℕ → World → Result World
process_error t w =
    if w.alive t then ok (enqueue_for_token w (advance_to_failed t) t) else throw failed_assert
