-- ===== src/Engine/Continuation/Busy.antt =====
-- execution/engine/src/Token.cpp: how a token goes on that becomes busy.
use bpmnos_engine.Prelude.{
  ℕ, ◌≡◌, refl, Bool, true, false, ◌&&◌, ◌||◌, Option, none, some, List, [], ◌∷◌, if◌then◌else◌,
}
use bpmnos_engine.Prelude.Int.{ℤ, ltb_ℤ}
use bpmnos_engine.Engine.World.{
  busy_state, Node, process_node, sequential_adhoc_subprocess_node, sub_process_node,
  event_based_gateway_node, untyped_start_event_node, typed_start_event_node,
  timer_catch_event_node, signal_catch_event_node, conditional_catch_event_node,
  message_catch_event_node, task_node, decision_task_node, send_task_node, World,
}
use bpmnos_engine.Engine.Tokens.{update, await_timer, await_conditions}
use bpmnos_engine.Engine.Expressions.{Expressions, send}
use bpmnos_engine.Engine.Advance.Busy.{
  run_scope, complete, await_time, run_process, run_adhoc, run_sub_process, prepare_task,
  begin_task, await_trigger, begin, advance_to_busy,
}
use bpmnos_engine.Engine.Continuation.{
  Continues, running, listening, enqueued-Continues, Ends, ended, thrown, Ends-if, Ends->>=,
}
use bpmnos_engine.Engine.Continuation.Awaiting.{
  await_choice_event-Continues, await_message_delivery-Continues,
  await_task_completion_event-Continues, await_timer-Continues, await_signal-Continues,
  await_conditions-Continues, send_message-Continues,
}

module _ (node_of : ℕ → Node) where
  run_scope-Continues :
      (t : ℕ) (owned : Option ℕ) (w : World)
      → (w.token t).owned ≡ owned
      → Ends (Continues node_of t) (run_scope t owned w)
  run_scope-Continues t none w e = thrown _
  run_scope-Continues t (some m) w e = ended _ (running w.commands [] m (w.token t).status refl e)

  run_process-Continues :
      (t : ℕ) (nodes : List ℕ) (w : World) → Ends (Continues node_of t) (run_process t nodes w)
  run_process-Continues t [] w = ended _ (enqueued-Continues node_of t _ w)
  run_process-Continues t (start ∷ []) w = run_scope-Continues t (w.token t).owned w refl
  run_process-Continues t (start ∷ next ∷ nodes) w = thrown _

  run_adhoc-Continues :
      (t : ℕ) (nodes : List ℕ) (w : World) → Ends (Continues node_of t) (run_adhoc t nodes w)
  run_adhoc-Continues t [] w = ended _ (enqueued-Continues node_of t _ w)
  run_adhoc-Continues t (start ∷ nodes) w = run_scope-Continues t (w.token t).owned w refl

  run_sub_process-Continues :
      (t : ℕ) (nodes : List ℕ) (w : World) → Ends (Continues node_of t) (run_sub_process t nodes w)
  run_sub_process-Continues t [] w = thrown _
  run_sub_process-Continues t (start ∷ []) w = run_scope-Continues t (w.token t).owned w refl
  run_sub_process-Continues t (start ∷ next ∷ nodes) w = thrown _

  await_time-Continues :
      (t : ℕ) (trigger : Option ℤ) (w : World) → Continues node_of t (await_time t trigger w)
  unfolding await_time
  await_time-Continues t none w = enqueued-Continues node_of t _ w
  await_time-Continues t (some time) w = ahead (ltb_ℤ w.current_time time)
    where
      ahead : (b : Bool) → Continues node_of t (if b then await_timer time t w else complete t w)
      ahead true = await_timer-Continues node_of time t w
      ahead false = enqueued-Continues node_of t _ w

  module _ (x : Expressions) where
    begin_task-Continues :
        (t : ℕ) (w : World) → Ends (Continues node_of t) (begin_task node_of x t w)
    unfolding begin_task send
    begin_task-Continues t w =
        let node = node_of (w.token t).node in
        Ends-if _ (node.represents decision_task_node)
          (λ e. await_choice_event-Continues node_of t w)
          (λ e.
            Ends-if _ (node.represents send_task_node)
              (λ e.
                send_message-Continues node_of x.message_definition x.header_value x.instance_of
                  x.triggered_by_message t w e)
              (λ e. await_task_completion_event-Continues node_of t w))

    conditions-Continues :
        (b : Bool) (t : ℕ) (w : World)
        → Continues node_of t
            (if b then complete t w else await_conditions (x.process_instance_of w t) t w)
    conditions-Continues true t w = enqueued-Continues node_of t _ w
    conditions-Continues false t w =
        await_conditions-Continues node_of (x.process_instance_of w t) t w

    await_trigger-Continues :
        (t : ℕ) (w : World) → Ends (Continues node_of t) (await_trigger node_of x t w)
    unfolding await_trigger
    await_trigger-Continues t w =
        let node = node_of (w.token t).node in
        Ends-if _ (node.represents timer_catch_event_node)
          (λ e.
            Ends-if _ (x.has_trigger (w.token t).node)
              (λ e. ended _ (await_time-Continues t (x.trigger_time t w) w)) (λ e. thrown _))
          (λ timer.
            Ends-if _ (node.represents signal_catch_event_node)
              (λ e. ended _ (await_signal-Continues node_of (x.signal_name (w.token t).node) t w))
              (λ signal.
                Ends-if _ (node.represents conditional_catch_event_node)
                  (λ e. ended _ (conditions-Continues (x.conditions_satisfied t w) t w))
                  (λ conditional.
                    Ends-if _ (node.represents message_catch_event_node)
                      (λ e. await_message_delivery-Continues node_of (x.recipient_header t w) t w)
                      (λ message.
                        Ends-if _ (node.represents task_node) (λ e. begin_task-Continues t w)
                          (λ task.
                            ended _
                              (listening (rw (timer, signal, conditional, message, task) refl)))))))

    begin-Continues : (t : ℕ) (w : World) → Ends (Continues node_of t) (begin node_of x t w)
    unfolding begin
    begin-Continues t w =
        let node = node_of (w.token t).node in
        Ends-if _ (node.represents process_node) (λ e. run_process-Continues t node.start_nodes w)
          (λ e.
            Ends-if _ (node.represents sequential_adhoc_subprocess_node)
              (λ e. run_adhoc-Continues t node.start_nodes w)
              (λ e.
                Ends-if _ (node.represents sub_process_node)
                  (λ e. run_sub_process-Continues t node.start_nodes w)
                  (λ e.
                    Ends-if _ (node.represents event_based_gateway_node)
                      (λ e. ended _ (enqueued-Continues node_of t _ w))
                      (λ e.
                        Ends-if _
                          (node.represents untyped_start_event_node
                            || (node.represents typed_start_event_node
                                && (node_of node.parent).represents process_node))
                          (λ e. ended _ (enqueued-Continues node_of t _ w))
                          (λ e. await_trigger-Continues t w)))))

    pub advance_to_busy-Continues :
        (t : ℕ) (w : World) → Ends (Continues node_of t) (advance_to_busy node_of x t w)
    unfolding advance_to_busy
    advance_to_busy-Continues t w =
        Ends->>= _ (prepare_task node_of x t w)
          (λ v r. Ends->>= _ (update node_of t busy_state v) (λ u s. begin-Continues t u))
