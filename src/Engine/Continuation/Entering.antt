-- ===== src/Engine/Continuation/Entering.antt =====
-- execution/engine/src/Token.cpp: how a token goes on that enters a node.
use bpmnos_engine.Prelude.{
  ℕ, ◌≡◌, refl, ◌⊎◌, inl, inr, not, ◌&&◌, ◌||◌, none, some, List, [], ◌∷◌, if◌then◌else◌,
  Bool-cases,
}
use bpmnos_engine.Engine.World.{
  created_state, ready_state, entered_state, Node, process_node, activity_node, catch_event_node,
  throw_event_node, gateway_node, event_based_gateway_node, error_end_event_node,
  escalation_throw_event_node, signal_throw_event_node, message_throw_event_node,
  compensate_throw_event_node, send_task_node, Call, World, put_self, put_token, enqueue_for_token,
  advance_to_completed,
}
use bpmnos_engine.Engine.Tokens.{update}
use bpmnos_engine.Engine.Performer.{parent_of}
use bpmnos_engine.Engine.Compensation.{
  at_start_event, set_awaiter, set_awaiters, compensate_reversed, compensate, onto, push_token,
  erase_compensation_token, get_compensation_tokens,
}
use bpmnos_engine.Engine.Expressions.{Expressions, check_time, apply_operators, send}
use bpmnos_engine.Engine.Advance.Departing.{set_sequence_flow}
use bpmnos_engine.Engine.Advance.Entered.{
  at_node, is_empty, is_multi_instance, deref, emit_signal, index_loop, register_scope, initiate,
  with_boundary_events, is_checked_on_entry, enter_activity, await_compensations,
  throw_compensation, throw_event, enter_node, advance_to_entered, advance_from_created,
  count_scope, enter_at_once, ready_activity, advance_to_ready,
}
use bpmnos_engine.Engine.Continuation.{
  Continues, awaiting_compensation, listening_on_entry, enqueued-Continues, Ends, ended, thrown,
  Ends-if, Ends->>=, both,
}
use bpmnos_engine.Engine.Continuation.Leaving.{
  leave-Continues, depart-Continues, await_ready_event-Continues,
}
use bpmnos_engine.Engine.Continuation.Awaiting.{await_entry_event-Continues}

module _ (node_of : ℕ → Node) where
  -- That some object is awaited by the token.
  abbrev Awaits : ℕ → World → Type 0
  Awaits t w =
      (p : ℕ) × ((w.token_awaiting_compensation_activity p ≡ some t)
        ⊎ (w.token_awaiting_compensation_event_sub_process p ≡ some t))

  set_awaiter-Awaits :
      (t waiting : ℕ) (w : World) → Awaits waiting (set_awaiter node_of t waiting w)
  set_awaiter-Awaits t waiting w = elim (Bool-cases (at_start_event node_of w t)) [
    | inl e ↦ (
      (w.token t).owner,
      inr (
          rw e (
            put_self w.token_awaiting_compensation_event_sub_process (w.token t).owner
              (some waiting))),
    )
    | inr e ↦ (t, inl (rw e (put_self w.token_awaiting_compensation_activity t (some waiting))))
  ]

  set_awaiters-Awaits :
      (t : ℕ) (rest : List ℕ) (waiting : ℕ) (w : World)
      → Awaits waiting (set_awaiters node_of t rest waiting w)
  unfolding set_awaiters
  set_awaiters-Awaits t [] waiting w = set_awaiter-Awaits t waiting w
  set_awaiters-Awaits t (next ∷ rest) waiting w =
      set_awaiters-Awaits next rest waiting (set_awaiter node_of t next w)

  compensate_reversed-Continues :
      (m : ℕ) (ts : List ℕ) (waiting : ℕ) (w : World)
      → Ends (Continues node_of waiting) (compensate_reversed node_of m ts waiting w)
  unfolding compensate_reversed
  compensate_reversed-Continues m [] waiting w = thrown _
  compensate_reversed-Continues m (t ∷ rest) waiting w =
      Ends->>= _
        (erase_compensation_token m t
          (push_token (if at_start_event node_of w t then (w.token t).owner else m) t w))
        (λ u r.
          let (p, h) =
            set_awaiters-Awaits t rest waiting (enqueue_for_token u (advance_to_completed t) t) in
          ended _ (awaiting_compensation p h))

  -- A token that waits for compensations is awaiting the first of them.
  pub compensate-Continues :
      (m : ℕ) (compensations : List ℕ) (waiting : ℕ) (w : World)
      → Ends (Continues node_of waiting) (compensate node_of m compensations waiting w)
  unfolding compensate
  compensate-Continues m compensations waiting w =
      compensate_reversed-Continues m (onto [] compensations) waiting w

  module _ (x : Expressions) where
    enter_activity-Continues :
        (t : ℕ) (w : World) → Continues node_of t (enter_activity node_of x t w)
    unfolding enter_activity
    enter_activity-Continues t w =
        let v = with_boundary_events node_of x t w in
        both (Continues node_of t)
          (is_checked_on_entry node_of x (at_node node_of x w t)
            && not (x.feasible_entry (w.token t).node t v))
          (enqueued-Continues node_of t _ v) (enqueued-Continues node_of t _ v)

    await_compensations-Continues :
        (t context : ℕ) (compensations : List ℕ) (w : World)
        → Ends (Continues node_of t) (await_compensations node_of x t context compensations w)
    unfolding await_compensations
    await_compensations-Continues t context [] w = leave-Continues node_of x.gate t w
    await_compensations-Continues t context (c ∷ cs) w = compensate-Continues context (c ∷ cs) t _

    throw_compensation-Continues :
        (t : ℕ) (w : World) → Ends (Continues node_of t) (throw_compensation node_of x t w)
    unfolding throw_compensation
    throw_compensation-Continues t w = Ends->>= _ (deref (parent_of w t)) (λ parent r.
        Ends->>= _ (deref (w.token parent).owned) (λ context r.
          Ends->>= _ (get_compensation_tokens node_of context (at_node node_of x w t).activity w)
            (λ compensations r. await_compensations-Continues t context compensations w)))

    throw_event-Continues :
        (t : ℕ) (w : World) → Ends (Continues node_of t) (throw_event node_of x t w)
    unfolding throw_event
    throw_event-Continues t w =
        let node = at_node node_of x w t in
        Ends-if _ (node.represents error_end_event_node)
          (λ e. ended _ (enqueued-Continues node_of t _ w))
          (λ e.
            Ends-if _ (node.represents escalation_throw_event_node)
              (λ e.
                leave-Continues node_of x.gate t
                  (enqueue_for_token w (Call.handle_escalation (w.token t).owner t) t))
              (λ e.
                Ends-if _ (node.represents signal_throw_event_node)
                  (λ e. Ends->>= _ (emit_signal t w) (λ v r. leave-Continues node_of x.gate t v))
                  (λ e.
                    Ends-if _ (node.represents message_throw_event_node)
                      (λ e.
                        Ends-if _ (node.represents send_task_node) (λ e. thrown _)
                          (λ e.
                            Ends->>= _ (send node_of x t w)
                              (λ v r. leave-Continues node_of x.gate t v)))
                      (λ e.
                        Ends-if _ (node.represents compensate_throw_event_node)
                          (λ e. throw_compensation-Continues t w)
                          (λ e. leave-Continues node_of x.gate t w)))))

    enter_node-Continues :
        (t : ℕ) (w : World) → Ends (Continues node_of t) (enter_node node_of x t w)
    unfolding enter_node
    enter_node-Continues t w =
        let node = at_node node_of x w t in
        Ends-if _ (node.represents process_node) (λ e. ended _ (enqueued-Continues node_of t _ w))
          (λ process.
            Ends-if _ (node.represents activity_node) (λ e. ended _ (enter_activity-Continues t w))
              (λ activity.
                Ends-if _ (node.represents catch_event_node)
                  (λ e. ended _ (enqueued-Continues node_of t _ w))
                  (λ catch.
                    Ends-if _ (node.represents throw_event_node)
                      (λ e.
                        Ends->>= _ (apply_operators node_of x t w)
                          (λ v r. throw_event-Continues t v))
                      (λ throws.
                        Ends-if _ (node.represents gateway_node)
                          (λ e.
                            Ends-if _ (node.represents event_based_gateway_node)
                              (λ e. ended _ (enqueued-Continues node_of t _ w))
                              (λ e.
                                Ends-if _ (is_empty node.outgoing) (λ e. thrown _)
                                  (λ e. depart-Continues node_of x.gate t w e)))
                          (λ gateway. ended _ (
                            listening_on_entry
                              (rw (process, activity, catch, throws, gateway) refl)))))))

    pub advance_to_entered-Continues :
        (t : ℕ) (w : World) → Ends (Continues node_of t) (advance_to_entered node_of x t w)
    unfolding advance_to_entered
    advance_to_entered-Continues t w = Ends->>= _ (check_time t w) (λ checked r.
        Ends->>= _ (index_loop node_of x t checked) (λ indexed r.
          Ends->>= _ (update node_of t entered_state indexed) (λ entered r.
            Ends->>= _ (register_scope node_of x t entered)
              (λ registered r. enter_node-Continues t (initiate node_of x t registered)))))

    enter_at_once-Continues :
        (t : ℕ) (w : World) → Ends (Continues node_of t) (enter_at_once node_of x t w)
    unfolding enter_at_once
    enter_at_once-Continues t w =
        Ends->>= _ (update node_of t ready_state w) (λ v r. advance_to_entered-Continues t v)

    pub advance_from_created-Continues :
        (t : ℕ) (w : World) → Ends (Continues node_of t) (advance_from_created node_of x t w)
    unfolding advance_from_created
    advance_from_created-Continues t w =
        let node = at_node node_of x w t in
        Ends-if _ (node.represents process_node || node.represents activity_node)
          (λ e. ended _ (await_ready_event-Continues node_of t _))
          (λ e.
            Ends->>= _ (update node_of t created_state w) (λ v r. advance_to_entered-Continues t v))

    ready_activity-Continues :
        (t : ℕ) (w : World) → Ends (Continues node_of t) (ready_activity node_of x t w)
    unfolding ready_activity
    ready_activity-Continues t w =
        let node = at_node node_of x w t in
        Ends-if _ (node.represents activity_node && node.is_for_compensation)
          (λ e. enter_at_once-Continues t w)
          (λ e.
            Ends-if _ (node.represents activity_node && is_multi_instance node.loop_characteristics)
              (λ e. ended _ (enqueued-Continues node_of t _ w))
              (λ e.
                Ends->>= _ (update node_of t ready_state w)
                  (λ v r. await_entry_event-Continues node_of t v)))

    pub advance_to_ready-Continues :
        (t : ℕ) (w : World) → Ends (Continues node_of t) (advance_to_ready node_of x t w)
    unfolding advance_to_ready
    advance_to_ready-Continues t w =
        Ends-if _ ((at_node node_of x w t).represents process_node)
          (λ e.
            Ends->>= _ (count_scope node_of x (w.token t).owned w)
              (λ v r. enter_at_once-Continues t v))
          (λ e. Ends->>= _ (check_time t w) (λ v r.
            ready_activity-Continues t (put_token v t (set_sequence_flow (v.token t) none))))
