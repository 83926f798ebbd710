-- ===== src/Engine/Continuation/Leaving.antt =====
-- execution/engine/src/Token.cpp: how a token goes on that leaves a node, departs along a flow or arrives.
use mathlib.Core.Path.{subst}
use bpmnos_engine.Prelude.{
  ℕ, ◌++◌, ◌≡◌, refl, ap, ◌∙◌, inl, inr, arith, Bool, true, false, not, ◌&&◌, Option, none, some,
  List, [], ◌∷◌, if◌then◌else◌, ◌==◌, ltb, length, Bool-cases,
}
use bpmnos_engine.Utility.AutoList.{emplace_back}
use bpmnos_engine.Engine.World.{
  Node, activity_node, gateway_node, exclusive_gateway_node, inclusive_gateway_node,
  parallel_gateway_node, waiting_state, departed_state, arrived_state, create_merged_token, Map,
  World, put_self, put_token, enqueue_for_machine,
}
use bpmnos_engine.Engine.Tokens.{add_to, update, await_ready_event, await_gateway_activation}
use bpmnos_engine.Engine.Gateways.{
  find_key, attempt_parallel, any_may_arrive, attempt_gateway_activation,
}
use bpmnos_engine.Engine.Advance.Departing.{
  choose_flow, set_sequence_flow, set_node, depart_from_gateway, depart_along, advance_to_departing,
  leave_along, leave, advance_to_departed, await_activation, arrive, arrive_along,
  advance_to_arrived,
}
use bpmnos_engine.Engine.Advance.Entered.{is_empty}
use bpmnos_engine.Engine.Continuation.{
  waiting, Continues, awaiting_ready_event, awaiting_activation, enqueued-Continues,
  enqueue-Continues, Ends, ended, thrown, Ends-if, Ends->>=,
}

-- A token that is added to those at a gateway is among them.
add_to-found :
    (gateway t : ℕ) (map : Map ℕ (List ℕ))
    → (before : List ℕ) × (find_key gateway (add_to gateway t map) ≡ some (before ++ t ∷ []))
add_to-found gateway t [] = ([], ground arith)
add_to-found gateway t ((key, ts) ∷ map) =
    let (before, h) = add_to-found gateway t map in
    elim (Bool-cases (key == gateway)) [
      | inl e ↦ (ts, rw e (rw e refl))
      | inr e ↦ (before, rw e (rw e h))
    ]

module _ (node_of : ℕ → Node) where
  module _ (gate : World → ℕ → ℕ → Option Bool) where
    depart_from_gateway-Continues :
        (t : ℕ) (node : Node) (flow next : ℕ) (flows : List ℕ) (w : World)
        → Ends
            (Continues node_of t)
            (depart_from_gateway node_of gate t node (flow ∷ next ∷ flows) w)
    unfolding depart_from_gateway
    depart_from_gateway-Continues t node flow next flows w =
        Ends-if _ (not (node.represents gateway_node)) (λ e. thrown _)
          (λ e.
            Ends-if _ (node.represents exclusive_gateway_node)
              (λ e.
                Ends->>= _ (choose_flow (gate w t) node.default_flow (flow ∷ next ∷ flows))
                  (λ f r. ended _ (enqueued-Continues node_of t _ w)))
              (λ e.
                Ends-if _ (ltb 1 (length (flow ∷ next ∷ flows)))
                  (λ e. ended _ (enqueued-Continues node_of t _ w)) (λ e. absurd (ground arith))))

    depart_along-Continues :
        (t : ℕ) (node : Node) (flow : ℕ) (flows : List ℕ) (w : World)
        → Ends (Continues node_of t) (depart_along node_of gate t node (flow ∷ flows) w)
    unfolding depart_along
    depart_along-Continues t node flow [] w = ended _ (enqueued-Continues node_of t _ w)
    depart_along-Continues t node flow (next ∷ flows) w =
        depart_from_gateway-Continues t node flow next flows w

    leave_along-Continues :
        (t : ℕ) (flows : List ℕ) (w : World)
        → flows ≡ (node_of (w.token t).node).outgoing
        → Ends (Continues node_of t) (leave_along node_of gate t flows w)
    unfolding leave_along advance_to_departing
    leave_along-Continues t [] w e = ended _ (enqueued-Continues node_of t _ w)
    leave_along-Continues t (flow ∷ flows) w e =
        subst
          (λ (ls : List ℕ).
            Ends (Continues node_of t)
              (depart_along node_of gate t (node_of (w.token t).node) ls w))
          e (depart_along-Continues t (node_of (w.token t).node) flow flows w)

    pub leave-Continues : (t : ℕ) (w : World) → Ends (Continues node_of t) (leave node_of gate t w)
    unfolding leave
    leave-Continues t w = leave_along-Continues t (node_of (w.token t).node).outgoing w refl

    -- A node that flows leave.
    depart_along_some-Continues :
        (t : ℕ) (flows : List ℕ) (w : World)
        → is_empty flows ≡ false
        → Ends
            (Continues node_of t)
            (depart_along node_of gate t (node_of (w.token t).node) flows w)
    depart_along_some-Continues t [] w e = cc
    depart_along_some-Continues t (flow ∷ flows) w e =
        depart_along-Continues t (node_of (w.token t).node) flow flows w

    pub depart-Continues :
        (t : ℕ) (w : World)
        → is_empty (node_of (w.token t).node).outgoing ≡ false
        → Ends (Continues node_of t) (advance_to_departing node_of gate t w)
    unfolding advance_to_departing
    depart-Continues t w e = depart_along_some-Continues t (node_of (w.token t).node).outgoing w e

  pub advance_to_departed-Continues :
      (t flow : ℕ) (w : World) → Ends (Continues node_of t) (advance_to_departed node_of t flow w)
  unfolding advance_to_departed
  advance_to_departed-Continues t flow w =
      Ends->>= _
        (update node_of t departed_state
          (put_token w t (set_sequence_flow (w.token t) (some flow))))
        (λ v r. ended _ (enqueued-Continues node_of t _ v))

  pub await_ready_event-Continues :
      (t : ℕ) (w : World) → Continues node_of t (await_ready_event t w)
  unfolding await_ready_event emplace_back
  await_ready_event-Continues t w =
      awaiting_ready_event (waiting w.tokens_awaiting_ready_event [] [] refl)

  await_gateway_activation-Continues :
      (t : ℕ) (w : World) → Continues node_of t (await_gateway_activation t w)
  unfolding await_gateway_activation
  await_gateway_activation-Continues t w =
      let own = (w.token t).owner in
      let gateway = (w.token t).node in
      let map = w.tokens_awaiting_gateway_activation own in
      let (before, found) = add_to-found gateway t map in
      awaiting_activation own gateway before [] (
        ap (find_key gateway)
          (put_self w.tokens_awaiting_gateway_activation own (add_to gateway t map))
        ∙ found)

  attempt_parallel-Continues :
      (t m gateway : ℕ) (arrived : Option (List ℕ)) (w : World)
      → Continues node_of t w
      → Ends (Continues node_of t) (attempt_parallel node_of m gateway arrived w)
  attempt_parallel-Continues t m gateway none w h = thrown _
  attempt_parallel-Continues t m gateway (some arrived) w h =
      Ends-if _ (length arrived == length (node_of gateway).incoming)
        (λ e. ended _ (enqueue-Continues node_of t w _ h)) (λ e. ended _ h)

  module _ (target : ℕ → ℕ) (is_predecessor : ℕ → ℕ → Bool) where
    attempt_gateway_activation-Continues :
        (t m gateway : ℕ) (w : World)
        → Continues node_of t w
        → Ends
            (Continues node_of t)
            (attempt_gateway_activation node_of target is_predecessor m gateway w)
    unfolding attempt_gateway_activation
    attempt_gateway_activation-Continues t m gateway w h =
        Ends-if _ ((node_of gateway).represents parallel_gateway_node)
          (λ e.
            attempt_parallel-Continues t m gateway
              (find_key gateway (w.tokens_awaiting_gateway_activation m)) w h)
          (λ e.
            Ends-if _ ((node_of gateway).represents inclusive_gateway_node)
              (λ e.
                Ends->>= _
                  (any_may_arrive node_of target (is_predecessor gateway) gateway
                    (w.machine m).tokens w)
                  (λ waits r. ended _ (unless waits)))
              (λ e. thrown _))
      where
        unless :
            (waits : Bool)
            → Continues node_of t
                (if waits then w else enqueue_for_machine w (create_merged_token m gateway) m)
        unless true = h
        unless false = enqueue-Continues node_of t w _ h

    await_activation-Continues :
        (t : ℕ) (w : World)
        → Ends (Continues node_of t) (await_activation node_of target is_predecessor t w)
    unfolding await_activation
    await_activation-Continues t w =
        Ends-if _ (not ((node_of (w.token t).node).represents gateway_node)) (λ e. thrown _)
          (λ e. Ends->>= _ (update node_of t waiting_state w) (λ v r.
            let u = await_gateway_activation t v in
            Ends-if _ ((node_of (u.token t).node).represents inclusive_gateway_node)
              (λ e. ended _ (await_gateway_activation-Continues t v))
              (λ e.
                attempt_gateway_activation-Continues t (u.token t).owner (u.token t).node u
                  (await_gateway_activation-Continues t v))))

    arrive-Continues :
        (t : ℕ) (w : World) → Ends (Continues node_of t) (arrive node_of target is_predecessor t w)
    unfolding arrive
    arrive-Continues t w =
        let node = node_of (w.token t).node in
        Ends-if _ (ltb 1 (length node.incoming) && not (node.represents exclusive_gateway_node))
          (λ e. await_activation-Continues t w)
          (λ e.
            Ends-if _ (node.represents activity_node)
              (λ e. ended _ (await_ready_event-Continues t w))
              (λ e. ended _ (
                enqueued-Continues node_of t _
                  (put_token w t (set_sequence_flow (w.token t) none)))))

    arrive_along-Continues :
        (t : ℕ) (flow : Option ℕ) (w : World)
        → Ends (Continues node_of t) (arrive_along node_of target is_predecessor t flow w)
    unfolding arrive_along
    arrive_along-Continues t none w = thrown _
    arrive_along-Continues t (some flow) w =
        Ends->>= _
          (update node_of t arrived_state (put_token w t (set_node (w.token t) (target flow))))
          (λ v r. arrive-Continues t v)

    pub advance_to_arrived-Continues :
        (t : ℕ) (w : World)
        → Ends (Continues node_of t) (advance_to_arrived node_of target is_predecessor t w)
    unfolding advance_to_arrived
    advance_to_arrived-Continues t w = arrive_along-Continues t (w.token t).sequence_flow w
