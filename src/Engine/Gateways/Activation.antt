-- ===== src/Engine/Gateways/Activation.antt =====
-- execution/engine/src/StateMachine.cpp: when a converging parallel gateway is activated.
use bpmnos_engine.Prelude.{ℕ, ◌≡◌, refl, Bool, true, none, some, List, ◌∷◌, arith, length, ok}
use bpmnos_engine.Engine.World.{
  World, Node, parallel_gateway_node, create_merged_token, advance_to_entered, enqueue_for_machine,
  enqueue_for_token, put_token,
}
use bpmnos_engine.Engine.Gateways.{
  find_key, set_flow, set_arrived, merge_tokens, merge_at, attempt_gateway_activation,
}
use bpmnos_engine.Engine.Gateways.Joins.{AreDistinct, AllOn, consume-single}

module _ (node_of : ℕ → Node) (target : ℕ → ℕ) (is_predecessor : ℕ → ℕ → Bool) where
  -- A parallel gateway is activated when as many tokens have arrived at it as it has incoming sequence flows, also if
  -- they have all arrived on the first of these; its activation then passes one of them on, as it is, although no
  -- token has arrived on any other of the incoming sequence flows.
  pub parallel_gateway-premature :
      (m gateway t flow : ℕ) (arrived others : List ℕ) (w : World)
      → (node_of gateway).represents parallel_gateway_node ≡ true
      → (node_of gateway).incoming ≡ flow ∷ others
      → AreDistinct (λ t. (w.token t).sequence_flow) (flow ∷ others)
      → find_key gateway (w.tokens_awaiting_gateway_activation m) ≡ some (t ∷ arrived)
      → AllOn (λ t. (w.token t).sequence_flow) flow (t ∷ arrived)
      → length arrived ≡ length others
      → (attempt_gateway_activation node_of target is_predecessor m gateway w
          ≡ ok (enqueue_for_machine w (create_merged_token m gateway) m))
        × (merge_at node_of m gateway w ≡ (
            let v = set_arrived m gateway arrived w in
            ok (
              enqueue_for_token
                (put_token v t (set_flow (v.token t) none))
                (advance_to_entered t)
                t)))
  unfolding attempt_gateway_activation merge_at merge_tokens
  parallel_gateway-premature m gateway t flow arrived others w p i d f on n = (
    rw (p, f, i, n) (ground arith),
    rw (f, i, consume-single (λ t. (w.token t).sequence_flow) flow t others arrived d on) refl,
  )
