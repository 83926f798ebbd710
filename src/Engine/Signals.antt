-- ===== src/Engine/Signals.antt =====
-- execution/engine/src/Engine.cpp: `broadcastSignal`. Which process a signal triggers is the model's.
pub mod Broadcast
use bpmnos_engine.Prelude.{
  ℕ, Bool, true, false, Option, none, some, List, [], ◌∷◌, ◌++◌, if◌then◌else◌, Result, ok, throw,
  ◌>>=◌, failed_assert,
}
use bpmnos_engine.Prelude.Int.{ℤ}
use bpmnos_engine.Utility.Expired.{Tuple, expired}
use bpmnos_engine.Utility.AutoList.{traverse}
use bpmnos_engine.Engine.World.{
  World, Content, advance_to_completed, trigger_instance, signal_notice, put_token, notify,
  enqueue_for_token, enqueue_always,
}
use bpmnos_engine.Engine.Tokens.{put_number}
use bpmnos_engine.Engine.Performer.{lock}
use bpmnos_engine.Engine.Messages.{set_content}

-- The content is held until the operators of the catching node read it, and the token is advanced.
abbrev pub receive_signal : Content → Option ℕ → World → Result World
receive_signal content none w = throw failed_assert
receive_signal content (some t) w = ok (
    enqueue_for_token (put_token w t (set_content (w.token t) (some content)))
      (advance_to_completed t) t)

unfoldable pub receive_signals : Content → List Tuple → World → Result World
receive_signals content [] w = ok w
receive_signals content (e ∷ es) w =
    receive_signal content (lock w e) w >>= receive_signals content es

-- The instantiation of the process the signal triggers is enqueued.
abbrev pub trigger_process : Content → Option ℕ → World → World
trigger_process content none w = w
trigger_process content (some process) w = enqueue_always w (trigger_instance process content)

-- `Engine::broadcastSignal`, the loop being over the tuples that have not expired.
unfoldable pub broadcast_signal : (ℤ → Option ℕ) → Content → World → Result World
unfolding receive_signals traverse
broadcast_signal processes_triggered_by_signal content w =
    let v = notify w (signal_notice content) in
    receive_signals content (traverse v.alive (v.tokens_awaiting_signal content.name)) v >>= λ u.
    ok (
      trigger_process content (processes_triggered_by_signal content.name)
        (record u { tokens_awaiting_signal = put_number u.tokens_awaiting_signal content.name [] }))
