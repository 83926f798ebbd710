-- ===== src/Engine/Advance/Failed.antt =====
-- execution/engine/src/Token.cpp: `advanceToFailed` and `terminate`. A scope whose tokens are withdrawn waits in FAILING for
-- the compensations within it.
use bpmnos_engine.Prelude.{
  ℕ, Bool, true, false, not, ◌&&◌, ◌||◌, none, List, [], ◌∷◌, if◌then◌else◌, Result, ok, throw,
  ◌>>=◌, failed_assert,
}
use bpmnos_engine.Values.Number.{has_value}
use bpmnos_engine.Engine.World.{
  TokenState, completed_state, failing_state, failed_state, StateMachine, Node, flow_node,
  activity_node, Call, World, put_token, enqueue_for_token,
}
use bpmnos_engine.Engine.Tokens.{update}
use bpmnos_engine.Engine.Messages.{if_some}
use bpmnos_engine.Engine.Compensation.{compensate, is_failing}
use bpmnos_engine.Engine.Destruction.{destroy_machine}
use bpmnos_engine.Engine.Withdrawal.{
  for_each, stop_conduct, clear_obsolete_tokens, withdraw_compensation_tokens,
}
use bpmnos_engine.Engine.Shutdown.{set_non_interrupting, reset_interrupting, clear_pending}
use bpmnos_engine.Engine.Advance.Entered.{is_empty}
use bpmnos_engine.Engine.Advance.Ended.{set_owned}

abbrev pub is_completed : TokenState → Bool
is_completed completed_state = true
is_completed _ = false

module _ (node_of : ℕ → Node) where
  -- `owned.reset()`
  unfoldable pub reset_owned : ℕ → ℕ → World → Result World
  unfolding destroy_machine
  reset_owned t m w = destroy_machine node_of m (put_token w t (set_owned (w.token t) none))

  -- The token has failed, and its state machine handles the failure.
  unfoldable pub fail_now : ℕ → World → Result World
  unfolding update
  fail_now t w = update node_of t failed_state w >>= λ v.
      ok (enqueue_for_token v (Call.handle_failure (v.token t).owner t) t)

  unfoldable pub begin_termination : ℕ → World → Result World
  unfolding update
  begin_termination t w =
      (if is_failing (w.token t).state then ok w else update node_of t failing_state w) >>= λ v.
      ok (enqueue_for_token v (Call.terminate t) t)

  abbrev pub has_scope_tokens : StateMachine → Bool
  has_scope_tokens machine =
      not (is_empty machine.tokens) || has_value machine.interrupting_event_sub_process

  -- A scope without tokens, whose event subprocesses and compensations have been withdrawn.
  abbrev pub is_withdrawn_scope : StateMachine → Bool
  is_withdrawn_scope machine =
      is_empty machine.pending_event_sub_processes
      && is_empty machine.non_interrupting_event_sub_processes
      && is_empty machine.compensation_tokens

  unfoldable pub fail_scope : ℕ → ℕ → ℕ → World → Result World
  unfolding reset_owned begin_termination fail_now
  fail_scope t m scope w =
      if (node_of scope).represents activity_node && (node_of scope).is_for_compensation
      then reset_owned t m w >>= fail_now t
      else if has_scope_tokens (w.machine m) || is_completed (w.token t).state
      then begin_termination t w
      else if is_withdrawn_scope (w.machine m)
      then fail_now t w
      else throw failed_assert

  -- `Token::advanceToFailed`
  unfoldable pub advance_to_failed : ℕ → World → Result World
  unfolding stop_conduct fail_scope
  advance_to_failed t w = stop_conduct node_of t w >>= λ v.
      if_some (v.token t).owned (fail_now t v) (λ m.
        if_some (v.machine m).scope (reset_owned t m v >>= fail_now t)
          (λ scope. fail_scope t m scope v))

  module _ (depth : ℕ) where
    unfoldable pub clear_both : ℕ → World → Result World
    unfolding clear_obsolete_tokens withdraw_compensation_tokens
    clear_both e w =
        clear_obsolete_tokens node_of depth e w >>= withdraw_compensation_tokens node_of depth e

    -- Everything within the scope of a state machine but the compensations ends.
    unfoldable pub terminate_scope : ℕ → World → Result World
    unfolding clear_pending for_each clear_both reset_interrupting destroy_machine
        clear_obsolete_tokens
    terminate_scope m w = do
      a ← clear_pending node_of depth m w
      let running = (a.machine m).non_interrupting_event_sub_processes
      b ← for_each clear_both running a
      c ← for_each (destroy_machine node_of) running (set_non_interrupting b m [])
      d ←
          if_some (c.machine m).interrupting_event_sub_process (ok c)
            (λ e. clear_both e c >>= reset_interrupting node_of m)
      clear_obsolete_tokens node_of depth m d

    -- The failure is handled when no compensation is left.
    unfoldable pub end_termination : ℕ → ℕ → List ℕ → World → Result World
    unfolding compensate reset_owned
    end_termination t m (c ∷ cs) w = compensate node_of m (c ∷ cs) t w
    end_termination t m [] w =
        (if (node_of (w.token t).node).represents flow_node then reset_owned t m w else ok w)
        >>= λ v. ok (
            enqueue_for_token (enqueue_for_token v (Call.update_failed t) t)
              (Call.handle_failure (v.token t).owner t) t)

    -- `Token::terminate`
    unfoldable pub terminate : ℕ → World → Result World
    unfolding terminate_scope end_termination
    terminate t w =
        if_some (w.token t).owned (throw failed_assert) (λ m.
          terminate_scope m w >>= λ v. end_termination t m (v.machine m).compensation_tokens v)
