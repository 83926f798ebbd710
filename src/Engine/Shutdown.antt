-- ===== src/Engine/Shutdown.antt =====
-- execution/engine/src/StateMachine.cpp: how the scope of a state machine shuts down once its tokens are done, and what is
-- deleted with it; `deleteInstance` of Engine.cpp.
pub mod Followed
use bpmnos_engine.Prelude.{
  ℕ, suc, ◌+◌, Bool, true, false, not, ◌&&◌, Option, none, some, List, [], ◌∷◌, ◌++◌, if◌then◌else◌,
  ltb, length, Result, ok, throw, ◌>>=◌, failed_assert, out_of_range,
}
use bpmnos_engine.Utility.Erase.{erase_ptr}
use bpmnos_engine.Values.Number.{has_value}
use bpmnos_engine.Engine.World.{
  TokenState, done_state, Status, Token, StateMachine, Node, event_sub_process_node,
  compensate_start_event_node, sub_process_node, Call, World, put, put_token, enqueue_for_machine,
  enqueue_for_token,
}
use bpmnos_engine.Engine.Statuses.{merge_status}
use bpmnos_engine.Engine.Messages.{if_some, withdraw_messages}
use bpmnos_engine.Engine.Gateways.{set_tokens, copy_of, statuses_of}
use bpmnos_engine.Engine.Compensation.{advance_token_waiting_for_compensation}
use bpmnos_engine.Engine.Destruction.{
  remove_token, destroy_tokens, destroy_machine, unregister_recipient,
}
use bpmnos_engine.Engine.Withdrawal.{for_each, clear_obsolete_tokens, withdraw_compensation_tokens}
use bpmnos_engine.Engine.Expressions.{Expressions, add_to_objective}
use bpmnos_engine.Engine.Events.{set_status}
use bpmnos_engine.Engine.Scopes.{set_pending_event_sub_processes}
use bpmnos_engine.Engine.Advance.Entered.{is_empty, deref}

abbrev pub is_done : TokenState → Bool
is_done done_state = true
is_done _ = false

unfoldable pub all_done : List ℕ → World → Bool
all_done [] w = true
all_done (t ∷ ts) w = is_done (w.token t).state && all_done ts w

abbrev pub set_non_interrupting : World → ℕ → List ℕ → World
set_non_interrupting w m es = record w {
  machine = put w.machine m (record (w.machine m) { non_interrupting_event_sub_processes = es });
}

abbrev pub set_compensation_event_sub_processes : World → ℕ → List ℕ → World
set_compensation_event_sub_processes w m es = record w {
  machine = put w.machine m (record (w.machine m) { compensation_event_sub_processes = es });
}

abbrev pub set_interrupting : World → ℕ → Option ℕ → World
set_interrupting w m e = record w {
  machine = put w.machine m (record (w.machine m) { interrupting_event_sub_process = e });
}

module _ (node_of : ℕ → Node) where
  -- A pointer to an event subprocess is reset.
  unfoldable pub reset_interrupting : ℕ → World → Result World
  unfolding destroy_machine
  reset_interrupting m w =
      if_some (w.machine m).interrupting_event_sub_process (ok w)
        (λ e. destroy_machine node_of e (set_interrupting w m none))

  -- Whether the scope is compensated by an event subprocess.
  abbrev pub by_event_sub_process : Option ℕ → Bool
  by_event_sub_process none = false
  by_event_sub_process (some c) = (node_of c).represents event_sub_process_node

  -- A copy of the parent token owns the state machine of a subprocess that may be compensated.
  abbrev pub keep_compensable : ℕ → ℕ → ℕ → World → World
  keep_compensable m parent_token parent w =
      let copy = w.next in
      let v = record w {
        token =
            put w.token copy
              (record (copy_of (w.token parent_token) (w.token parent_token).status) {
                owned = some m;
              });
        alive = put w.alive copy true;
        next = suc copy;
        machine = put w.machine m (record (w.machine m) { parent_token = some copy });
      } in
      record v {
        machine = put v.machine parent (record (v.machine parent) {
          compensable_sub_processes = (v.machine parent).compensable_sub_processes ++ copy ∷ [];
        });
      }

  module _ (x : Expressions) (depth : ℕ) where
    -- `StateMachine::completeCompensationEventSubProcess`
    unfoldable pub complete_compensation_event_sub_process : ℕ → World → Result World
    unfolding withdraw_compensation_tokens advance_token_waiting_for_compensation
    complete_compensation_event_sub_process m w = deref (w.machine m).parent_token >>= λ parent.
        deref (w.token parent).owned >>= λ compensated.
        withdraw_compensation_tokens node_of depth compensated w >>= λ v.
        if_some (v.token_awaiting_compensation_event_sub_process m) (throw out_of_range) (λ waiting.
          advance_token_waiting_for_compensation node_of (v.token waiting).owner waiting v >>= λ u.
          ok (
            enqueue_for_machine
              (record u {
                token_awaiting_compensation_event_sub_process =
                    put u.token_awaiting_compensation_event_sub_process m none;
              })
              (Call.delete_compensation_event_sub_process (u.token parent).owner m) m))

    -- The part of `shutdown` that clears the scope and completes its parent token.
    unfoldable pub clear_scope : ℕ → ℕ → Status → World → Result World
    unfolding destroy_tokens unregister_recipient
    clear_scope m scope status w =
        let v = if_some (w.machine m).parent_token w (λ p.
          if x.has_sequential_performer scope
          then w
          else put_token w p (set_status (w.token p) status)) in
        destroy_tokens node_of (v.machine m).tokens (set_tokens v m [])
        >>= unregister_recipient node_of m scope

    abbrev pub is_compensable : Node → Bool
    is_compensable node =
        node.represents sub_process_node && by_event_sub_process node.compensated_by

    unfoldable pub finish_scope : ℕ → ℕ → Status → World → Result World
    unfolding clear_scope reset_interrupting
    finish_scope m scope status w = do
      cleared ← clear_scope m scope status w
      parent_token ← if_some (cleared.machine m).parent_token (throw failed_assert) (λ p. ok p)
      let parent = (cleared.token parent_token).owner
      reset ←
          if (node_of scope).represents event_sub_process_node
            && (node_of (node_of scope).start_event).is_interrupting
          then reset_interrupting parent cleared
          else ok cleared
      context ← deref (reset.token parent_token).owned
      token ← deref (reset.machine context).parent_token
      let completing = enqueue_for_token reset (Call.advance_to_completed token) token
      ok (
          if is_compensable (node_of scope)
          then keep_compensable m parent_token parent completing
          else completing)

    -- The part of `shutdown` for an event subprocess.
    unfoldable pub shutdown_event_sub_process : ℕ → ℕ → Status → World → Result World
    unfolding withdraw_compensation_tokens add_to_objective complete_compensation_event_sub_process
        finish_scope
    shutdown_event_sub_process m scope status w =
        let start = node_of (node_of scope).start_event in
        withdraw_compensation_tokens node_of depth m w >>= λ v.
        let counted = add_to_objective (x.scope_status_value m status v) v in
        if not start.is_interrupting
        then (deref (counted.machine m).parent_token >>= λ parent.
            deref (counted.token parent).owned >>= λ context. ok (
              enqueue_for_machine counted (Call.delete_non_interrupting_event_sub_process context m)
                m))
        else if start.represents compensate_start_event_node
        then complete_compensation_event_sub_process m counted
        else finish_scope m scope status counted

    -- `StateMachine::shutdown`
    unfoldable pub shutdown : ℕ → World → Result World
    unfolding shutdown_event_sub_process finish_scope merge_status
    shutdown m w =
        if is_empty (w.machine m).tokens
        then throw failed_assert
        else (merge_status w.next (statuses_of w (w.machine m).tokens) >>= λ status.
            deref (w.machine m).scope >>= λ scope.
            let v = record w { next = w.next + length status.objects } in
            if (node_of scope).represents event_sub_process_node
            then shutdown_event_sub_process m scope status v
            else finish_scope m scope status v)

  module _ (depth : ℕ) where
    -- The event subprocesses that have not been triggered end.
    unfoldable pub clear_pending : ℕ → World → Result World
    unfolding for_each clear_obsolete_tokens destroy_machine
    clear_pending m w =
        let pending = (w.machine m).pending_event_sub_processes in
        for_each (clear_obsolete_tokens node_of depth) pending w >>= λ v.
        for_each (destroy_machine node_of) pending (set_pending_event_sub_processes v m [])

    -- `StateMachine::attemptShutdown`
    unfoldable pub attempt_shutdown : ℕ → World → Result World
    unfolding all_done clear_pending
    attempt_shutdown m w =
        if has_value (w.machine m).interrupting_event_sub_process
        then ok w
        else if not (all_done (w.machine m).tokens w)
        then ok w
        else (clear_pending m w >>= λ v.
            if is_empty (v.machine m).non_interrupting_event_sub_processes
            then ok (enqueue_for_machine v (Call.shutdown m) m)
            else ok v)

    -- `StateMachine::deleteAdHocSubProcessToken`
    unfoldable pub delete_ad_hoc_sub_process_token : ℕ → ℕ → World → Result World
    unfolding attempt_shutdown remove_token
    delete_ad_hoc_sub_process_token m t w =
        if ltb 1 (length (w.machine m).tokens)
        then remove_token node_of m t w
        else attempt_shutdown m w

    -- `StateMachine::deleteNonInterruptingEventSubProcess`
    unfoldable pub delete_non_interrupting_event_sub_process : ℕ → ℕ → World → Result World
    unfolding erase_ptr attempt_shutdown destroy_machine
    delete_non_interrupting_event_sub_process m e w =
        erase_ptr (w.machine m).non_interrupting_event_sub_processes e >>= λ es.
        destroy_machine node_of e (set_non_interrupting w m es) >>= attempt_shutdown m

  -- `StateMachine::deleteCompensationEventSubProcess`
  unfoldable pub delete_compensation_event_sub_process : ℕ → ℕ → World → Result World
  unfolding erase_ptr destroy_machine
  delete_compensation_event_sub_process m e w =
      erase_ptr (w.machine m).compensation_event_sub_processes e >>= λ es.
      destroy_machine node_of e (set_compensation_event_sub_processes w m es)

  -- `Engine::deleteInstance`; the global state machine is given.
  unfoldable pub delete_instance : ℕ → ℕ → World → Result World
  unfolding withdraw_messages remove_token
  delete_instance global t w =
      deref (w.token t).owned >>= λ m. withdraw_messages m w >>= remove_token node_of global t
