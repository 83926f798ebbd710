-- ===== src/Engine/Gateways/Joins.antt =====
-- execution/engine/src/StateMachine.cpp: which tokens the activation of a converging gateway consumes.
use bpmnos_engine.Prelude.{
  ℕ, ◌+◌, ◌≡◌, ◌≢◌, refl, ap, inl, inr, Bool, true, false, ◌||◌, Option, none, some, List, [], ◌∷◌,
  arith, ◌==◌, if◌then◌else◌, Bool-cases, Option-cases, All,
}
use bpmnos_engine.Utility.Erase.{count}
use bpmnos_engine.Engine.Gateways.{is_flow, take_arrived, consumed_with, consume}

module _ (flow_of : ℕ → Option ℕ) where
  -- Whether a token has arrived on the sequence flow.
  abbrev pub has_arrived : List ℕ → ℕ → Bool
  has_arrived [] flow = false
  has_arrived (t ∷ arrived) flow = is_flow (flow_of t) flow || has_arrived arrived flow

  -- The sequence flows on which a token has arrived.
  abbrev pub arrived_flows : List ℕ → List ℕ → List ℕ
  arrived_flows arrived [] = []
  arrived_flows arrived (flow ∷ incoming) =
      if has_arrived arrived flow
      then flow ∷ arrived_flows arrived incoming
      else arrived_flows arrived incoming

  -- The tokens stand on the sequence flows, in their order.
  abbrev pub OnFlows : List ℕ → List ℕ → Type 0
  OnFlows [] [] = Unit
  OnFlows (t ∷ tokens) (flow ∷ flows) = (flow_of t ≡ some flow) × OnFlows tokens flows
  OnFlows _ _ = ⊥

  abbrev pub one_or_none : Option ℕ → ℕ → ℕ
  one_or_none none a = 0
  one_or_none (some t) a = if t == a then 1 else 0

  take_arrived-count :
      (flow : ℕ) (arrived : List ℕ) (a : ℕ)
      → count a arrived
        ≡ one_or_none (take_arrived flow_of flow arrived).0 a
          + count a (take_arrived flow_of flow arrived).1
  unfolding take_arrived
  take_arrived-count flow [] a = refl
  take_arrived-count flow (t ∷ arrived) a = elim (Bool-cases (is_flow (flow_of t) flow)) [
    | inl e ↦ rw e (ground arith)
    | inr e ↦ rw e (ground (arith, take_arrived-count flow arrived a))
  ]

  consumed_with-count :
      (o : Option ℕ) (c r : List ℕ) (a : ℕ)
      → count a (consumed_with o (c, r)).0 + count a (consumed_with o (c, r)).1
        ≡ one_or_none o a + count a c + count a r
  consumed_with-count none c r a = omega arith
  consumed_with-count (some t) c r a = ground arith

  -- Every arrived token is consumed or awaits the next activation, and none is both.
  pub consume-count :
      (incoming arrived : List ℕ) (a : ℕ)
      → count a arrived
        ≡ count a (consume flow_of incoming arrived).0
          + count a (consume flow_of incoming arrived).1
  unfolding consume
  consume-count [] arrived a = omega arith
  consume-count (flow ∷ incoming) arrived a =
      let (found, rest) = take_arrived flow_of flow arrived in
      let (c, r) = consume flow_of incoming rest in
      let one = take_arrived-count flow arrived a in
      let all = consume-count incoming rest a in
      let both = consumed_with-count found c r a in omega (arith, one, all, both)

  -- What taking a token from a sequence flow leaves.
  take_arrived-found :
      (flow : ℕ) (arrived : List ℕ) (t : ℕ)
      → (take_arrived flow_of flow arrived).0 ≡ some t
      → (flow_of t ≡ some flow) × (has_arrived arrived flow ≡ true)
  unfolding take_arrived
  take_arrived-found flow [] t h = cc
  take_arrived-found flow (u ∷ arrived) t h = elim (Bool-cases (is_flow (flow_of u) flow)) [
    | inl e ↦ let eq : u ≡ t = ground arith in rw e (on_flow (flow_of t) flow (rw (← eq) e), refl)
    | inr e ↦ let (f, h') = take_arrived-found flow arrived t (ground arith) in rw e (f, h')
  ]
    where
      on_flow : (o : Option ℕ) (f : ℕ) → is_flow o f ≡ true → o ≡ some f
      on_flow none f e = cc
      on_flow (some g) f e = ap some (ground arith)

  take_arrived-missing :
      (flow : ℕ) (arrived : List ℕ)
      → (take_arrived flow_of flow arrived).0 ≡ none
      → (has_arrived arrived flow ≡ false) × ((take_arrived flow_of flow arrived).1 ≡ arrived)
  unfolding take_arrived
  take_arrived-missing flow [] h = (refl, refl)
  take_arrived-missing flow (u ∷ arrived) h = elim (Bool-cases (is_flow (flow_of u) flow)) [
    | inl e ↦ absurd (ground arith)
    | inr e ↦
        let (f, h') = take_arrived-missing flow arrived (ground arith) in rw e (f, ap (◌∷◌ u) h')
  ]

  -- No sequence flow is listed twice.
  abbrev pub AreDistinct : List ℕ → Type 0
  AreDistinct [] = Unit
  AreDistinct (flow ∷ flows) = All (λ g. flow ≢ g) flows × AreDistinct flows

  -- Every token stands on the sequence flow.
  abbrev pub AllOn : ℕ → List ℕ → Type 0
  AllOn flow arrived = All (λ t. flow_of t ≡ some flow) arrived

  none_arrived :
      (flow g : ℕ) (arrived : List ℕ)
      → AllOn flow arrived
      → flow ≢ g
      → has_arrived arrived g ≡ false
  none_arrived flow g [] h n = refl
  none_arrived flow g (t ∷ arrived) (e, h) n =
      rw (e, none_arrived flow g arrived h n) (ground arith)

  consume-nothing :
      (flow : ℕ) (incoming arrived : List ℕ)
      → AllOn flow arrived
      → All (λ g. flow ≢ g) incoming
      → consume flow_of incoming arrived ≡ ([], arrived)
  unfolding consume
  consume-nothing flow [] arrived h d = refl
  consume-nothing flow (g ∷ incoming) arrived h (n, d) =
      elim (Option-cases (take_arrived flow_of g arrived).0) [
        | inl e ↦
            let (missing, same) = take_arrived-missing g arrived e in
            rw (e, same) (consume-nothing flow incoming arrived h d)
        | inr (t, e) ↦
            let (on, here) = take_arrived-found g arrived t e in
            absurd (apart here (none_arrived flow g arrived h n))
      ]
    where
      apart : {b : Bool} → b ≡ true → b ≡ false → ⊥
      apart h k = ground arith

  take_first :
      (flow t : ℕ) (arrived : List ℕ)
      → flow_of t ≡ some flow
      → take_arrived flow_of flow (t ∷ arrived) ≡ (some t, arrived)
  unfolding take_arrived
  take_first flow t arrived e = rw e (ground arith)

  -- When all tokens have arrived on the first incoming sequence flow, the activation consumes one token alone.
  pub consume-single :
      (flow t : ℕ) (others arrived : List ℕ)
      → AreDistinct (flow ∷ others)
      → AllOn flow (t ∷ arrived)
      → consume flow_of (flow ∷ others) (t ∷ arrived) ≡ (t ∷ [], arrived)
  unfolding consume
  consume-single flow t others arrived d (on, h) =
      rw (take_first flow t arrived on)
        (ap (consumed_with (some t)) (consume-nothing flow others arrived h d.0))
