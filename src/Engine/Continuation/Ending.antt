-- ===== src/Engine/Continuation/Ending.antt =====
-- execution/engine/src/Token.cpp: how a token goes on after an activity has completed, or when it fails.
use bpmnos_engine.Prelude.{ℕ, ◌&&◌, ◌||◌, Option, List, [], ◌∷◌, if◌then◌else◌, ok}
use bpmnos_engine.Engine.World.{
  ready_state, failing_state, failed_state, Node, flow_node, activity_node, Call, World, put_token,
  enqueue_for_token,
}
use bpmnos_engine.Engine.Tokens.{update}
use bpmnos_engine.Engine.Performer.{in_sequential_adhoc, release_sequential_performer}
use bpmnos_engine.Engine.Messages.{if_some}
use bpmnos_engine.Engine.Compensation.{is_failing}
use bpmnos_engine.Engine.Withdrawal.{stop_conduct}
use bpmnos_engine.Engine.Events.{set_status}
use bpmnos_engine.Engine.Expressions.{Expressions, add_to_objective}
use bpmnos_engine.Engine.Advance.Entered.{is_standard, is_multi_instance}
use bpmnos_engine.Engine.Advance.Ended.{
  without, await_compensation, delete_boundary_tokens, clear_owned, end_activity, loop_or_end,
  advance_from_completed,
}
use bpmnos_engine.Engine.Advance.Failed.{
  is_completed, reset_owned, fail_now, begin_termination, has_scope_tokens, is_withdrawn_scope,
  fail_scope, advance_to_failed, terminate_scope, end_termination, terminate,
}
use bpmnos_engine.Engine.Continuation.{
  Continues, enqueued-Continues, Ends, ended, thrown, Ends-if, Ends->>=, Ends-if_some,
}
use bpmnos_engine.Engine.Continuation.Leaving.{leave-Continues}
use bpmnos_engine.Engine.Continuation.Awaiting.{await_entry_event-Continues}
use bpmnos_engine.Engine.Continuation.Entering.{compensate-Continues}

module _ (node_of : ℕ → Node) (x : Expressions) (event_sub_process_of : ℕ → Option ℕ)
    (depth : ℕ) where
  end_activity-Continues :
      (t : ℕ) (w : World)
      → Ends (Continues node_of t) (end_activity node_of x event_sub_process_of depth t w)
  unfolding end_activity
  end_activity-Continues t w =
      let n = (w.token t).node in
      let v = put_token w t (
        set_status (w.token t)
          (without (x.attributes_declared n) (x.objects_declared n) (w.token t).status)) in
      Ends-if _
        ((node_of n).represents activity_node && is_multi_instance (node_of n).loop_characteristics)
        (λ e. ended _ (enqueued-Continues node_of t _ v))
        (λ e.
          Ends->>= _
            (clear_owned node_of x event_sub_process_of depth t
              (delete_boundary_tokens node_of x event_sub_process_of t v))
            (λ u r. leave-Continues node_of x.gate t u))

  loop_or_end-Continues :
      (t : ℕ) (w : World)
      → Ends (Continues node_of t) (loop_or_end node_of x event_sub_process_of depth t w)
  unfolding loop_or_end
  loop_or_end-Continues t w =
      let node = node_of (w.token t).node in
      Ends-if _
        (node.represents activity_node && is_standard node.loop_characteristics && x.loops t w)
        (λ e.
          Ends->>= _ (update node_of t ready_state w)
            (λ v r. await_entry_event-Continues node_of t v))
        (λ e. end_activity-Continues t w)

  pub advance_from_completed-Continues :
      (t : ℕ) (w : World)
      → Ends (Continues node_of t) (advance_from_completed node_of x event_sub_process_of depth t w)
  unfolding advance_from_completed
  advance_from_completed-Continues t w =
      Ends->>= _
        (if in_sequential_adhoc node_of w t then release_sequential_performer node_of t w else ok w)
        (λ released r.
          let counted = add_to_objective (x.final_value t released) released in
          let node = node_of (counted.token t).node in
          Ends->>= _
            (if node.represents activity_node
              then if_some node.compensated_by (ok counted)
                  (λ c. await_compensation node_of x event_sub_process_of c t counted)
              else ok counted)
            (λ awaited r. loop_or_end-Continues t awaited))

module _ (node_of : ℕ → Node) where
  fail_now-Continues : (t : ℕ) (w : World) → Ends (Continues node_of t) (fail_now node_of t w)
  unfolding fail_now
  fail_now-Continues t w =
      Ends->>= _ (update node_of t failed_state w)
        (λ v r. ended _ (enqueued-Continues node_of t _ v))

  begin_termination-Continues :
      (t : ℕ) (w : World) → Ends (Continues node_of t) (begin_termination node_of t w)
  unfolding begin_termination
  begin_termination-Continues t w =
      Ends->>= _ (if is_failing (w.token t).state then ok w else update node_of t failing_state w)
        (λ v r. ended _ (enqueued-Continues node_of t _ v))

  fail_scope-Continues :
      (t m scope : ℕ) (w : World) → Ends (Continues node_of t) (fail_scope node_of t m scope w)
  unfolding fail_scope
  fail_scope-Continues t m scope w =
      Ends-if _ ((node_of scope).represents activity_node && (node_of scope).is_for_compensation)
        (λ e. Ends->>= _ (reset_owned node_of t m w) (λ v r. fail_now-Continues t v))
        (λ e.
          Ends-if _ (has_scope_tokens node_of (w.machine m) || is_completed (w.token t).state)
            (λ e. begin_termination-Continues t w)
            (λ e.
              Ends-if _ (is_withdrawn_scope node_of (w.machine m)) (λ e. fail_now-Continues t w)
                (λ e. thrown _)))

  pub advance_to_failed-Continues :
      (t : ℕ) (w : World) → Ends (Continues node_of t) (advance_to_failed node_of t w)
  unfolding advance_to_failed
  advance_to_failed-Continues t w = Ends->>= _ (stop_conduct node_of t w) (λ v r.
      Ends-if_some _ (v.token t).owned (λ r. fail_now-Continues t v)
        (λ m r.
          Ends-if_some _ (v.machine m).scope
            (λ r. Ends->>= _ (reset_owned node_of t m v) (λ u r. fail_now-Continues t u))
            (λ scope r. fail_scope-Continues t m scope v)))

  end_termination-Continues :
      (depth t m : ℕ) (compensations : List ℕ) (w : World)
      → Ends (Continues node_of t) (end_termination node_of depth t m compensations w)
  unfolding end_termination
  end_termination-Continues depth t m (c ∷ cs) w = compensate-Continues node_of m (c ∷ cs) t w
  end_termination-Continues depth t m [] w =
      Ends->>= _
        (if (node_of (w.token t).node).represents flow_node
          then reset_owned node_of t m w
          else ok w)
        (λ v r.
          ended _ (enqueued-Continues node_of t _ (enqueue_for_token v (Call.update_failed t) t)))

  pub terminate-Continues :
      (depth t : ℕ) (w : World) → Ends (Continues node_of t) (terminate node_of depth t w)
  unfolding terminate
  terminate-Continues depth t w =
      Ends-if_some _ (w.token t).owned (λ r. thrown _)
        (λ m r.
          Ends->>= _ (terminate_scope node_of depth m w)
            (λ v s. end_termination-Continues depth t m (v.machine m).compensation_tokens v))
