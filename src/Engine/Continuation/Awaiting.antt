-- ===== src/Engine/Continuation/Awaiting.antt =====
-- execution/engine/src/Token.cpp: how a token goes on that awaits an event, a decision or the delivery of its message.
use Prim.Native.String.{String}
use bpmnos_engine.Prelude.{
  ℕ, ◌++◌, ◌≡◌, refl, ap, ◌∙◌, inl, inr, true, Option, none, some, List, [], ◌∷◌, if◌then◌else◌,
  Bool-cases, Option-cases,
}
use bpmnos_engine.Prelude.Int.{ℤ}
use bpmnos_engine.Utility.Expired.{weak_ptr, Tuple}
use bpmnos_engine.Utility.AutoList.{emplace_back}
use bpmnos_engine.Utility.AutoSet.{Entry, Compare, ascending, emplace}
use bpmnos_engine.Values.Number.{Value, has_value}
use bpmnos_engine.Engine.World.{
  Token, Node, send_task_node, choice_request, message_delivery_request, entry_request, World, put,
  put_self, put_token, notify,
}
use bpmnos_engine.Engine.Tokens.{
  timestamp, request_decision, notify_held, token_and_request, await_choice_event,
  await_message_delivery, await_task_completion_event, await_timer, await_signal, await_conditions,
  put_number_self,
}
use bpmnos_engine.Engine.Performer.{
  in_sequential_adhoc, get_sequential_performer_token, request_entry, set_pending, await_entry_at,
  await_entry_event,
}
use bpmnos_engine.Engine.Messages.{
  MessageDefinition, set_content, find_machine, add_unsent, add_inbox, add_outbox, route_to, route,
  new_message, add_message, await_delivery, trigger, send_message,
}
use bpmnos_engine.Engine.Continuation.{
  Waiting, waiting, WaitingUntil, waiting_until, Continues, awaiting_entry, awaiting_performer,
  awaiting_choice, awaiting_delivery, awaiting_completion, awaiting_timer, awaiting_signal,
  awaiting_condition, awaiting_receipt, enqueue-Continues, Ends, ended, thrown, Ends-if, Ends->>=,
}

emplaced :
    (compare : Compare) (entries : List Entry) (e : Entry)
    → (before after : List Entry) × (emplace compare entries e ≡ before ++ e ∷ after)
unfolding emplace
emplaced compare [] e = ([], [], refl)
emplaced compare (x ∷ entries) e =
    let (before, after, h) = emplaced compare entries e in
    elim (Bool-cases (compare e x)) [
      | inl c ↦ ([], x ∷ entries, rw c refl)
      | inr c ↦ (x ∷ before, after, rw c (rw h refl))
    ]

emplace-WaitingUntil :
    (t : ℕ) (time : ℤ) (entries : List Entry)
    → WaitingUntil t (emplace ascending entries (time, weak_ptr t ∷ []))
emplace-WaitingUntil t time entries =
    let (before, after, h) = emplaced ascending entries (time, weak_ptr t ∷ []) in
    waiting_until before time after h

-- The tuple that stands for a token begins with it.
token_and_request-eq :
    (w : World) (t : ℕ) → (rest : Tuple) × (token_and_request w t ≡ weak_ptr t ∷ rest)
token_and_request-eq w t = elim (Option-cases (w.token t).decision_request) [
  | inl e ↦ ([], rw (e, token_and_request) refl)
  | inr (r, e) ↦ (weak_ptr r ∷ [], rw (e, token_and_request) refl)
]

emplace_back-Waiting :
    (w : World) (t : ℕ) (tuples : List Tuple)
    → Waiting t (emplace_back w.alive tuples (token_and_request w t))
unfolding emplace_back
emplace_back-Waiting w t tuples =
    let (rest, h) = token_and_request-eq w t in
    waiting tuples rest [] (ap (λ (e : Tuple). tuples ++ e ∷ []) h)

module _ (node_of : ℕ → Node) where
  -- Observers learn of a request: nothing else changes.
  notify_held-Ends :
      (P : World → Type 0) (request : Option ℕ) (w : World)
      → ((n : _) → P (notify w n))
      → Ends P (notify_held request w)
  notify_held-Ends P none w h = thrown _
  notify_held-Ends P (some r) w h = ended _ (h _)

  pub await_choice_event-Continues :
      (t : ℕ) (w : World) → Ends (Continues node_of t) (await_choice_event node_of t w)
  unfolding await_choice_event
  await_choice_event-Continues t w =
      let v = request_decision node_of t choice_request [] w in
      notify_held-Ends (Continues node_of t) _ _
        (λ n. awaiting_choice (emplace_back-Waiting v t v.pending_choice_decisions))

  pub await_message_delivery-Continues :
      (header : List Value) (t : ℕ) (w : World)
      → Ends (Continues node_of t) (await_message_delivery node_of header t w)
  unfolding await_message_delivery
  await_message_delivery-Continues header t w =
      let v = request_decision node_of t message_delivery_request header w in
      notify_held-Ends (Continues node_of t) _ _
        (λ n. awaiting_delivery (emplace_back-Waiting v t v.pending_message_delivery_decisions))

  request_entry-Continues :
      (t : ℕ) (w : World) → Ends (Continues node_of t) (request_entry node_of t w)
  unfolding request_entry
  request_entry-Continues t w =
      let v = request_decision node_of t entry_request [] w in
      notify_held-Ends (Continues node_of t) _ _
        (λ n. awaiting_entry (emplace_back-Waiting v t v.pending_entry_decisions))

  -- At a performer that is busy, the token waits for its renewal.
  await_entry_at-Continues :
      (p t : ℕ) (w : World) → Ends (Continues node_of t) (await_entry_at node_of p t w)
  unfolding await_entry_at emplace_back
  await_entry_at-Continues p t w =
      let pending = (w.token p).pending_sequential_entries ++ (weak_ptr t ∷ []) ∷ [] in
      let v = put_token w p (set_pending (w.token p) pending) in
      Ends-if _ (has_value (v.token p).performing)
        (λ e. ended _ (
          awaiting_performer p (
            waiting (w.token p).pending_sequential_entries [] [] (
              ap (λ (token : Token). token.pending_sequential_entries)
                (put_self w.token p (set_pending (w.token p) pending))))))
        (λ e. request_entry-Continues t v)

  pub await_entry_event-Continues :
      (t : ℕ) (w : World) → Ends (Continues node_of t) (await_entry_event node_of t w)
  unfolding await_entry_event
  await_entry_event-Continues t w =
      Ends-if _ (in_sequential_adhoc node_of w t)
        (λ e.
          Ends->>= _ (get_sequential_performer_token node_of t w)
            (λ p r. await_entry_at-Continues p t w))
        (λ e. request_entry-Continues t w)

  pub await_task_completion_event-Continues :
      (t : ℕ) (w : World) → Ends (Continues node_of t) (await_task_completion_event t w)
  unfolding await_task_completion_event
  await_task_completion_event-Continues t w = Ends->>= _ (timestamp (w.token t).status) (λ time r.
      ended _
        (awaiting_completion (emplace-WaitingUntil t time w.tokens_awaiting_completion_event)))

  pub await_timer-Continues :
      (time : ℤ) (t : ℕ) (w : World) → Continues node_of t (await_timer time t w)
  unfolding await_timer
  await_timer-Continues time t w =
      awaiting_timer (emplace-WaitingUntil t time w.tokens_awaiting_timer)

  pub await_signal-Continues :
      (name : ℤ) (t : ℕ) (w : World) → Continues node_of t (await_signal name t w)
  unfolding await_signal emplace_back
  await_signal-Continues name t w = awaiting_signal name (
      waiting (w.tokens_awaiting_signal name) [] []
        (put_number_self w.tokens_awaiting_signal name _))

  pub await_conditions-Continues :
      (id : ℤ) (t : ℕ) (w : World) → Continues node_of t (await_conditions id t w)
  unfolding await_conditions emplace_back
  await_conditions-Continues id t w = awaiting_condition id (
      waiting (w.tokens_awaiting_condition id) [] []
        (put_number_self w.tokens_awaiting_condition id _))

  -- The routing of a message leaves the tokens as they are.
  route_to-token : (id : ℤ) (node m : ℕ) (w : World) → (route_to id node m w).token ≡ w.token
  unfolding route_to add_unsent add_inbox add_outbox
  route_to-token id node m w = elim (Option-cases (find_machine w.archive id)) [
    | inl e ↦ rw e refl
    | inr (machine, e) ↦
        rw e (elim (Bool-cases (w.alive machine)) [ inl a ↦ rw a refl | inr a ↦ rw a refl ])
  ]

  route-token : (m : ℕ) (w : World) → (route m w).token ≡ w.token
  unfolding route add_outbox
  route-token m w = elim (Option-cases (w.message m).recipient) [
    | inl e ↦ rw e refl
    | inr (id, e) ↦ rw e (route_to-token id (w.message m).origin m w)
  ]

  await_delivery-awaiting :
      (t m : ℕ) (w : World)
      → (node_of (w.token t).node).represents send_task_node ≡ true
      → (if (node_of (w.token t).node).represents send_task_node
            then record w { message_awaiting_delivery = put w.message_awaiting_delivery t (some m) }
            else w).message_awaiting_delivery
          t
        ≡ some m
  await_delivery-awaiting t m w h = rw h (put_self w.message_awaiting_delivery t (some m))

  module _ (definition_of : ℕ → MessageDefinition) (get_header_value : World → ℕ → String → Value)
      (get_instance_id : World → ℕ → ℤ) (processes_triggered_by_message : ℤ → Option ℕ) where
    trigger-Continues :
        (name : ℤ) (t m : ℕ) (w : World)
        → Continues node_of t w
        → Continues node_of t (
            trigger node_of definition_of get_header_value get_instance_id
              processes_triggered_by_message name m w)
    unfolding trigger
    trigger-Continues name t m w h = elim (Option-cases (processes_triggered_by_message name)) [
      | inl e ↦ rw e h
      | inr (process, e) ↦ rw e (enqueue-Continues node_of t w _ h)
    ]

    -- A send task awaits the delivery of the message it has sent.
    pub send_message-Continues :
        (t : ℕ) (w : World)
        → (node_of (w.token t).node).represents send_task_node ≡ true
        → Ends (Continues node_of t) (
            send_message node_of definition_of get_header_value get_instance_id
              processes_triggered_by_message t w)
    unfolding send_message add_message await_delivery
    send_message-Continues t w h =
        Ends->>= _
          (new_message node_of definition_of get_header_value get_instance_id
            processes_triggered_by_message t w)
          (λ message r.
            let m = w.next in
            let sent =
              add_message node_of definition_of get_header_value get_instance_id
                processes_triggered_by_message message w in
            let emptied = put_token sent t (set_content (sent.token t) none) in
            let routed = route m emptied in
            let same : (routed.token t).node ≡ (w.token t).node =
              ap (λ (f : ℕ → Token). (f t).node) (route-token m emptied)
              ∙ ap (λ (token : Token). token.node)
                  (put_self sent.token t (set_content (sent.token t) none)) in
            ended _ (
              trigger-Continues _ t m _ (
                awaiting_receipt m (
                  await_delivery-awaiting t m routed
                    (ap (λ n. (node_of n).represents send_task_node) same ∙ h)))))
