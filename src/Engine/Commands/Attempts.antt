-- ===== src/Engine/Commands/Attempts.antt =====
-- execution/engine/src/Engine.cpp: what the check of the inclusive gateways after the commands leaves.
use mathlib.Core.Path.{subst}
use bpmnos_engine.Prelude.{
  ℕ, suc, ◌<◌, ◌≡◌, sym, ap, ◌∙◌, ◌⊎◌, inl, inr, Bool, true, false, none, some, List, [], ◌∷◌,
  arith, Bool-cases, if◌then◌else◌, All, Result, ok, ◌>>=◌, >>=-eq-ok, ok-injective, length,
  length-append,
}
use bpmnos_engine.Engine.World.{
  Node, inclusive_gateway_node, parallel_gateway_node, Map, World, create_merged_token,
  enqueue_for_machine,
}
use bpmnos_engine.Engine.Gateways.{attempt_gateway_activation, any_may_arrive}
use bpmnos_engine.Engine.Commands.{attempt_gateways, attempt_machines}

module _ (node_of : ℕ → Node) (target : ℕ → ℕ) (is_predecessor : ℕ → ℕ → Bool) where
  -- A token may still come to the gateway, if it is an inclusive one.
  abbrev pub Waits : World → ℕ → ℕ → Type 0
  Waits w m gateway =
      (node_of gateway).represents inclusive_gateway_node ≡ true
      → any_may_arrive node_of target (is_predecessor gateway) gateway (w.machine m).tokens w
        ≡ ok true

  abbrev pub AllWait : World → ℕ → Map ℕ (List ℕ) → Type 0
  AllWait w m gateways = All (λ (g : ℕ × List ℕ). Waits w m g.0) gateways

  module _
      (kinds : (g : ℕ)
        → (node_of g).represents inclusive_gateway_node ≡ true
        → (node_of g).represents parallel_gateway_node ≡ false) where
    -- An attempt either leaves the state as it is or adds a command.
    attempted :
        (m g : ℕ) (w v : World)
        → (if (node_of g).represents inclusive_gateway_node
            then attempt_gateway_activation node_of target is_predecessor m g w
            else ok w)
          ≡ ok v
        → ((v ≡ w) × Waits w m g) ⊎ (length v.commands ≡ suc (length w.commands))
    unfolding attempt_gateway_activation
    attempted m g w v h = elim (Bool-cases ((node_of g).represents inclusive_gateway_node)) [
      | inr e ↦ inl (same e, λ f. absurd (ground arith))
      | inl e ↦
          let arrive : Result Bool =
            any_may_arrive node_of target (is_predecessor g) g (w.machine m).tokens w in
          let next : Bool → Result World =
            λ waits. ok (if waits then w else enqueue_for_machine w (create_merged_token m g) m) in
          let run : arrive >>= next ≡ ok v = opened e (kinds g e) in
          let (waits, found, done) = >>=-eq-ok arrive next run in
          by_waits waits found (ok-injective done)
    ]
      where
        same : (node_of g).represents inclusive_gateway_node ≡ false → v ≡ w
        same e = ground arith

        opened :
            (node_of g).represents inclusive_gateway_node ≡ true
            → (node_of g).represents parallel_gateway_node ≡ false
            → any_may_arrive node_of target (is_predecessor g) g (w.machine m).tokens w
                >>= (λ waits.
                    ok (if waits then w else enqueue_for_machine w (create_merged_token m g) m))
              ≡ ok v
        opened e f = ground arith

        last_one :
            length (enqueue_for_machine w (create_merged_token m g) m).commands
            ≡ suc (length w.commands)
        last_one = omega (
          arith,
          length-append w.commands (
              record {
                call = create_merged_token m g;
                state_machine_ptr = some m;
                token_ptr = none;
              }
              ∷ []),
        )

        by_waits :
            (waits : Bool)
            → any_may_arrive node_of target (is_predecessor g) g (w.machine m).tokens w ≡ ok waits
            → if◌then◌else◌ {A = World} waits w (enqueue_for_machine w (create_merged_token m g) m)
              ≡ v
            → ((v ≡ w) × Waits w m g) ⊎ (length v.commands ≡ suc (length w.commands))
        by_waits true found done = inl (sym done, λ e. found)
        by_waits false found done =
            inr (ap (λ (x : World). length x.commands) (sym done) ∙ last_one)

    gateways_attempted :
        (m : ℕ) (gateways : Map ℕ (List ℕ)) (w v : World)
        → attempt_gateways node_of target is_predecessor m gateways w ≡ ok v
        → ((v ≡ w) × AllWait w m gateways) ⊎ (length w.commands < length v.commands)
    unfolding attempt_gateways
    gateways_attempted m [] w v h = inl (sym (ok-injective h), tt)
    gateways_attempted m ((g, waiting) ∷ gateways) w v h =
        let (u, first, rest) =
          >>=-eq-ok
            (if (node_of g).represents inclusive_gateway_node
              then attempt_gateway_activation node_of target is_predecessor m g w
              else ok w)
            (attempt_gateways node_of target is_predecessor m gateways) h in
        both u (attempted m g w u first) (gateways_attempted m gateways u v rest)
      where
        both :
            (u : World)
            → ((u ≡ w) × Waits w m g) ⊎ (length u.commands ≡ suc (length w.commands))
            → ((v ≡ u) × AllWait u m gateways) ⊎ (length u.commands < length v.commands)
            → ((v ≡ w) × AllWait w m ((g, waiting) ∷ gateways))
              ⊎ (length w.commands < length v.commands)
        both u (inl (e, here)) (inl (f, others)) =
            inl (f ∙ e, (here, subst (λ x. AllWait x m gateways) e others))
        both u (inl (e, here)) (inr more) =
            inr (subst (λ (x : World). length x.commands < length v.commands) e more)
        both u (inr more) (inl (f, others)) = inr (
            subst (λ (x : World). length w.commands < length x.commands) (sym f)
              (omega (arith, more)))
        both u (inr more) (inr others) = inr (omega (arith, more, others))

    pub machines_attempted :
        (ms : List ℕ) (w v : World)
        → attempt_machines node_of target is_predecessor ms w ≡ ok v
        → ((v ≡ w) × All (λ m. AllWait w m (w.tokens_awaiting_gateway_activation m)) ms)
          ⊎ (length w.commands < length v.commands)
    unfolding attempt_machines
    machines_attempted [] w v h = inl (sym (ok-injective h), tt)
    machines_attempted (m ∷ ms) w v h =
        let (u, first, rest) =
          >>=-eq-ok
            (attempt_gateways node_of target is_predecessor m
              (w.tokens_awaiting_gateway_activation m) w)
            (attempt_machines node_of target is_predecessor ms) h in
        both u (gateways_attempted m (w.tokens_awaiting_gateway_activation m) w u first)
          (machines_attempted ms u v rest)
      where
        both :
            (u : World)
            → ((u ≡ w) × AllWait w m (w.tokens_awaiting_gateway_activation m))
              ⊎ (length w.commands < length u.commands)
            → ((v ≡ u) × All (λ m. AllWait u m (u.tokens_awaiting_gateway_activation m)) ms)
              ⊎ (length u.commands < length v.commands)
            → ((v ≡ w) × All (λ m. AllWait w m (w.tokens_awaiting_gateway_activation m)) (m ∷ ms))
              ⊎ (length w.commands < length v.commands)
        both u (inl (e, here)) (inl (f, others)) = inl (
          f ∙ e,
          (
            here,
            subst
                (λ (x : World). All (λ k. AllWait x k (x.tokens_awaiting_gateway_activation k)) ms)
                e others,
          ),
        )
        both u (inl (e, here)) (inr more) =
            inr (subst (λ (x : World). length x.commands < length v.commands) e more)
        both u (inr more) (inl (f, others)) =
            inr (subst (λ (x : World). length w.commands < length x.commands) (sym f) more)
        both u (inr more) (inr others) = inr (omega (arith, more, others))
