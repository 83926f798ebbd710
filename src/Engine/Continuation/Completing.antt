-- ===== src/Engine/Continuation/Completing.antt =====
-- execution/engine/src/Token.cpp: how a token goes on that completes a node.
use bpmnos_engine.Prelude.{ℕ, ◌≡◌, refl, inl, inr, not, ◌&&◌, [], if◌then◌else◌, Bool-cases}
use bpmnos_engine.Prelude.Int.{ℤ, pos}
use bpmnos_engine.Values.Number.{has_value, number_eq}
use bpmnos_engine.Engine.World.{
  completed_state, Node, process_node, activity_node, catch_event_node, boundary_event_node,
  compensate_boundary_event_node, compensate_start_event_node, untyped_start_event_node,
  typed_start_event_node, Call, World, put_token, enqueue_for_token,
}
use bpmnos_engine.Engine.Tokens.{set_timestamp, update}
use bpmnos_engine.Engine.Performer.{parent_of}
use bpmnos_engine.Engine.Expressions.{Expressions, add_to_objective, check_time}
use bpmnos_engine.Engine.Advance.Entered.{deref, starts_scope}
use bpmnos_engine.Engine.Advance.Completed.{
  find_pending, interrupt_scope, run_beside, begin_scope, trigger_event_sub_process,
  complete_activity, complete_boundary_event, follows_event_based_gateway, complete_node,
  read_content, advance_to_completed,
}
use bpmnos_engine.Engine.Continuation.{
  Continues, commanded, enqueued-Continues, Ends, ended, thrown, Ends-if, Ends->>=, Ends-if_some,
  both,
}
use bpmnos_engine.Engine.Continuation.Leaving.{leave-Continues}

add_to_objective-commands :
    (change : ℤ) (w : World) → (add_to_objective change w).commands ≡ w.commands
unfolding add_to_objective
add_to_objective-commands change w = elim (Bool-cases (number_eq change (pos 0))) [
  | inl e ↦ rw e refl
  | inr e ↦ rw e refl
]

module _ (node_of : ℕ → Node) (x : Expressions) (depth : ℕ) where
  begin_scope-Continues :
      (t : ℕ) (w : World) → Ends (Continues node_of t) (begin_scope node_of x depth t w)
  unfolding begin_scope
  begin_scope-Continues t w =
      Ends-if _ (x.feasible_entry (node_of (w.token t).node).parent t w)
        (λ e. leave-Continues node_of x.gate t w) (λ e. ended _ (enqueued-Continues node_of t _ w))

  trigger_event_sub_process-Continues :
      (t : ℕ) (w : World)
      → Ends (Continues node_of t) (trigger_event_sub_process node_of x depth t w)
  unfolding trigger_event_sub_process
  trigger_event_sub_process-Continues t w = Ends->>= _ (deref (parent_of w t)) (λ parent r.
      Ends->>= _ (deref (w.token parent).owned) (λ context r.
        Ends-if_some _ (find_pending t (w.machine context).pending_event_sub_processes w)
          (λ r. thrown _)
          (λ e r.
            Ends->>= _
              (if (node_of (w.token t).node).is_interrupting
                then interrupt_scope node_of x depth context e w
                else run_beside node_of x depth context e parent w)
              (λ v r. begin_scope-Continues t v))))

  complete_activity-Continues :
      (t : ℕ) (w : World) → Ends (Continues node_of t) (complete_activity node_of x depth t w)
  unfolding complete_activity
  complete_activity-Continues t w =
      let node = node_of (w.token t).node in
      Ends-if _ (has_value node.compensated_by && node.is_for_compensation) (λ e. thrown _)
        (λ e.
          Ends-if _ (not (x.feasible_completion (w.token t).node t w))
            (λ e. ended _ (enqueued-Continues node_of t _ w))
            (λ e.
              Ends-if _ node.is_for_compensation
                (λ e. ended _ (
                  commanded w.commands _ []
                    (add_to_objective-commands (x.final_value t w) (
                      enqueue_for_token w (Call.complete_compensation_activity (w.token t).owner t)
                        t))
                    refl))
                (λ e. ended _ (enqueued-Continues node_of t _ w))))

  complete_node-Continues :
      (source : ℕ → ℕ) (t : ℕ) (w : World)
      → Ends (Continues node_of t) (complete_node node_of x depth source t w)
  unfolding complete_node
  complete_node-Continues source t w =
      let node = node_of (w.token t).node in
      let feasible = x.feasible_completion (w.token t).node t w in
      Ends-if _ (node.represents process_node)
        (λ e.
          Ends-if _ feasible
            (λ e. ended _ (enqueued-Continues node_of t _ (add_to_objective (x.final_value t w) w)))
            (λ e. ended _ (enqueued-Continues node_of t _ w)))
        (λ e.
          Ends-if _ (node.represents activity_node) (λ e. complete_activity-Continues t w)
            (λ e.
              Ends-if _ (node.represents compensate_boundary_event_node)
                (λ e. ended _ (
                  both (Continues node_of t) feasible (enqueued-Continues node_of t _ w)
                    (enqueued-Continues node_of t _ w)))
                (λ e.
                  Ends-if _
                    (node.represents catch_event_node
                      && not (node.represents untyped_start_event_node)
                      && not (node.represents typed_start_event_node)
                      && not feasible)
                    (λ e. ended _ (enqueued-Continues node_of t _ w))
                    (λ e.
                      Ends-if _ (node.represents boundary_event_node)
                        (λ e.
                          Ends->>= _ (complete_boundary_event node_of x depth t w)
                            (λ v r. leave-Continues node_of x.gate t v))
                        (λ e.
                          Ends-if _ (node.represents compensate_start_event_node)
                            (λ e. leave-Continues node_of x.gate t w)
                            (λ e.
                              Ends-if _ (starts_scope node_of x node)
                                (λ e. begin_scope-Continues t w)
                                (λ e.
                                  Ends-if _ (node.represents typed_start_event_node)
                                    (λ e. trigger_event_sub_process-Continues t w)
                                    (λ e.
                                      Ends-if _
                                        (node.represents catch_event_node
                                          && follows_event_based_gateway node_of x depth source
                                              node.incoming)
                                        (λ e. leave-Continues node_of x.gate t (
                                          enqueue_for_token w
                                            (Call.handle_event_based_gateway_activation
                                              (w.token t).owner t)
                                            t))
                                        (λ e. leave-Continues node_of x.gate t w)))))))))

  pub advance_to_completed-Continues :
      (source : ℕ → ℕ) (t : ℕ) (w : World)
      → Ends (Continues node_of t) (advance_to_completed node_of x depth source t w)
  unfolding advance_to_completed
  advance_to_completed-Continues source t w = Ends->>= _ (check_time t w) (λ checked r.
      Ends->>= _
        (read_content node_of x depth t (
          put_token checked t (record (checked.token t) {
            status = set_timestamp (checked.token t).status checked.current_time;
          })))
        (λ read r.
          Ends->>= _ (update node_of t completed_state read)
            (λ completed r. complete_node-Continues source t completed)))
