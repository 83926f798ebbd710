-- ===== src/Engine/Advance/Completed.antt =====
-- execution/engine/src/Token.cpp: how a token completes a node.
use bpmnos_engine.Prelude.{
  ℕ, Bool, false, not, ◌&&◌, ◌||◌, Option, none, some, List, [], ◌∷◌, ◌++◌, ◌==◌, if◌then◌else◌,
  Result, ok, throw, ◌>>=◌, runtime_error, failed_assert,
}
use bpmnos_engine.Utility.Erase.{erase_ptr}
use bpmnos_engine.Values.Number.{has_value}
use bpmnos_engine.Engine.World.{
  completed_state, Node, process_node, activity_node, decision_task_node, catch_event_node,
  boundary_event_node, compensate_boundary_event_node, compensate_start_event_node,
  untyped_start_event_node, typed_start_event_node, event_based_gateway_node, Call, World, put,
  put_token, enqueue_for_token,
}
use bpmnos_engine.Engine.Tokens.{set_timestamp, update}
use bpmnos_engine.Engine.Performer.{parent_of}
use bpmnos_engine.Engine.Messages.{if_some, set_content}
use bpmnos_engine.Engine.Destruction.{destroy_machine}
use bpmnos_engine.Engine.Withdrawal.{for_each, clear_obsolete_tokens, withdraw_compensation_tokens}
use bpmnos_engine.Engine.Expressions.{Expressions, add_to_objective, check_time, apply_operators}
use bpmnos_engine.Engine.Scopes.{set_pending_event_sub_processes, create_pending_event_sub_process}
use bpmnos_engine.Engine.Advance.Departing.{leave}
use bpmnos_engine.Engine.Advance.Entered.{deref, starts_scope}

-- `eventSubProcess->tokens.front() == this`, for the first of the pending event subprocesses that has it; a machine
-- without tokens has no first one.
abbrev pub front_is : ℕ → List ℕ → Bool
front_is t [] = false
front_is t (u ∷ us) = u == t

unfoldable pub find_pending : ℕ → List ℕ → World → Option ℕ
find_pending t [] w = none
find_pending t (e ∷ es) w = if front_is t (w.machine e).tokens then some e else find_pending t es w

-- The element is replaced by another.
abbrev pub replace : ℕ → ℕ → List ℕ → List ℕ
replace e new [] = []
replace e new (d ∷ ds) = if d == e then new ∷ ds else d ∷ replace e new ds

abbrev pub fail : ℕ → World → World
fail t w = enqueue_for_token w (Call.advance_to_failed t) t

module _ (node_of : ℕ → Node) (x : Expressions) (depth : ℕ) where
  -- An interrupting event subprocess ends everything else within its scope.
  unfoldable pub interrupt_scope : ℕ → ℕ → World → Result World
  unfolding erase_ptr for_each clear_obsolete_tokens withdraw_compensation_tokens destroy_machine
  interrupt_scope context e w =
      let clear_both = λ (d : ℕ) (v : World).
        clear_obsolete_tokens node_of depth d v >>= withdraw_compensation_tokens node_of depth d in
      erase_ptr (w.machine context).pending_event_sub_processes e >>= λ pending.
      for_each (clear_obsolete_tokens node_of depth) pending (record w {
        machine =
            put w.machine context
              (record (w.machine context) { interrupting_event_sub_process = some e });
      })
      >>= λ a.
          for_each (destroy_machine node_of) pending (set_pending_event_sub_processes a context [])
          >>= λ b.
              let running = (b.machine context).non_interrupting_event_sub_processes in
              for_each clear_both running b >>= λ c.
              for_each (destroy_machine node_of) running (record c {
                machine =
                    put c.machine context
                      (record (c.machine context) { non_interrupting_event_sub_processes = [] });
              })
              >>= clear_obsolete_tokens node_of depth context

  -- A non-interrupting one runs beside the scope, and a new one listens in its place.
  unfoldable pub run_beside : ℕ → ℕ → ℕ → World → Result World
  unfolding create_pending_event_sub_process
  run_beside context e parent w =
      let v = record w {
        machine = put w.machine context (record (w.machine context) {
          non_interrupting_event_sub_processes =
              (w.machine context).non_interrupting_event_sub_processes ++ e ∷ [];
        });
      } in
      deref (w.machine e).scope >>= λ event_sub_process.
      create_pending_event_sub_process node_of x context event_sub_process (w.token parent).status v
      >>= λ u. ok (
          set_pending_event_sub_processes u context
            (replace e w.next (u.machine context).pending_event_sub_processes))

  -- The entry restrictions of the scope of a start event.
  unfoldable pub begin_scope : ℕ → World → Result World
  unfolding leave
  begin_scope t w =
      if x.feasible_entry (node_of (w.token t).node).parent t w
      then leave node_of x.gate t w
      else ok (fail t w)

  unfoldable pub trigger_event_sub_process : ℕ → World → Result World
  unfolding find_pending interrupt_scope run_beside begin_scope
  trigger_event_sub_process t w = deref (parent_of w t) >>= λ parent.
      deref (w.token parent).owned >>= λ context.
      if_some (find_pending t (w.machine context).pending_event_sub_processes w)
        (throw failed_assert)
        (λ e.
          (if (node_of (w.token t).node).is_interrupting
            then interrupt_scope context e w
            else run_beside context e parent w)
          >>= begin_scope t)

  unfoldable pub complete_activity : ℕ → World → Result World
  unfolding add_to_objective
  complete_activity t w =
      let node = node_of (w.token t).node in
      if has_value node.compensated_by && node.is_for_compensation
      then throw runtime_error
      else if not (x.feasible_completion (w.token t).node t w)
      then ok (fail t w)
      else if node.is_for_compensation
      then ok (
          add_to_objective (x.final_value t w)
            (enqueue_for_token w (Call.complete_compensation_activity (w.token t).owner t) t))
      else ok (enqueue_for_token w (Call.advance_from_completed t) t)

  -- The activity is interrupted, or another token waits at the boundary event.
  unfoldable pub complete_boundary_event : ℕ → World → Result World
  unfolding erase_ptr
  complete_boundary_event t w = deref (w.token_associated_to_boundary_event_token t) >>= λ a.
      erase_ptr (w.tokens_awaiting_boundary_event a) t >>= λ waiting.
      let v = record w {
        tokens_awaiting_boundary_event = put w.tokens_awaiting_boundary_event a waiting;
      } in
      ok (
        enqueue_for_token v
          (if (node_of (w.token t).node).is_interrupting
            then Call.interrupt_activity (w.token t).owner a
            else Call.initiate_boundary_event (w.token t).owner a (w.token t).node)
          a)

  -- `incoming.size() == 1 && incoming.front()->source->represents<EventBasedGateway>()`
  abbrev pub follows_event_based_gateway : (ℕ → ℕ) → List ℕ → Bool
  follows_event_based_gateway source (flow ∷ []) =
      (node_of (source flow)).represents event_based_gateway_node
  follows_event_based_gateway source _ = false

  unfoldable pub complete_node : (ℕ → ℕ) → ℕ → World → Result World
  unfolding complete_activity complete_boundary_event begin_scope trigger_event_sub_process leave
      add_to_objective
  complete_node source t w =
      let node = node_of (w.token t).node in
      let feasible = x.feasible_completion (w.token t).node t w in
      if node.represents process_node
      then (if feasible
          then ok (
              enqueue_for_token (add_to_objective (x.final_value t w) w) (Call.advance_to_done t) t)
          else ok (fail t w))
      else if node.represents activity_node
      then complete_activity t w
      else if node.represents compensate_boundary_event_node
      then ok (
          if feasible
          then enqueue_for_token w (Call.compensate_activity (w.token t).owner t) t
          else fail t w)
      else if node.represents catch_event_node
          && not (node.represents untyped_start_event_node)
          && not (node.represents typed_start_event_node)
          && not feasible
      then ok (fail t w)
      else if node.represents boundary_event_node
      then complete_boundary_event t w >>= leave node_of x.gate t
      else if node.represents compensate_start_event_node
      then leave node_of x.gate t w
      else if starts_scope node_of x node
      then begin_scope t w
      else if node.represents typed_start_event_node
      then trigger_event_sub_process t w
      else if node.represents catch_event_node && follows_event_based_gateway source node.incoming
      then leave node_of x.gate t
          (enqueue_for_token w (Call.handle_event_based_gateway_activation (w.token t).owner t) t)
      else leave node_of x.gate t w

  -- The operators of a catching node, which read the content received.
  unfoldable pub read_content : ℕ → World → Result World
  unfolding apply_operators
  read_content t w =
      let node = node_of (w.token t).node in
      if node.represents catch_event_node || node.represents decision_task_node
      then (apply_operators node_of x t w >>= λ v.
          ok (put_token v t (set_content (v.token t) none)))
      else ok w

  -- `Token::advanceToCompleted`
  unfoldable pub advance_to_completed : (ℕ → ℕ) → ℕ → World → Result World
  unfolding check_time read_content update complete_node
  advance_to_completed source t w = do
    checked ← check_time t w
    read ← read_content t (
        put_token checked t (record (checked.token t) {
          status = set_timestamp (checked.token t).status checked.current_time;
        }))
    completed ← update node_of t completed_state read
    complete_node source t completed
