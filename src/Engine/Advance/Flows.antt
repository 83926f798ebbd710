-- ===== src/Engine/Advance/Flows.antt =====
-- execution/engine/src/Token.cpp: the flow on which a token leaves an exclusive gateway.
use bpmnos_engine.Prelude.{
  ℕ, ◌≡◌, refl, ap, ◌⊎◌, inl, inr, Bool, true, false, Option, none, some, List, [], ◌∷◌, ◌++◌,
  if◌then◌else◌, Option-cases, All, Result, ok, throw, runtime_error, logic_error, out_of_range,
  bad_variant_access, bad_optional_access, failed_assert, undefined_behaviour,
}
use bpmnos_engine.Engine.Gateways.{is_flow}
use bpmnos_engine.Engine.Advance.Departing.{take_if, choose_flow}

module _ (satisfied : ℕ → Option Bool) (default_flow : Option ℕ) where
  -- A flow that is passed over: the default flow, or one whose conditions are violated.
  abbrev pub IsPassed : ℕ → Type 0
  IsPassed flow = (is_flow default_flow flow ≡ true) ⊎ (satisfied flow ≡ some false)

  -- The flow is behind flows that are all passed over, and is not the default flow.
  pub record Reached (flows : List ℕ) (flow : ℕ) : Type 0 where
    before : List ℕ
    after : List ℕ
    split : flows ≡ before ++ flow ∷ after
    passed : All IsPassed before
    other : is_flow default_flow flow ≡ false

  -- What is chosen among the flows, and when nothing can be chosen.
  abbrev pub IsChoice : List ℕ → Result ℕ → Type 0
  IsChoice flows (ok flow) =
      (Reached flows flow × (satisfied flow ≡ some true))
      ⊎ ((default_flow ≡ some flow) × All IsPassed flows)
  IsChoice flows (throw runtime_error) = (default_flow ≡ none) × All IsPassed flows
  IsChoice flows (throw logic_error) = (flow : ℕ) × Reached flows flow × (satisfied flow ≡ none)
  IsChoice flows (throw _) = ⊥

  further :
      (flow next : ℕ) (flows : List ℕ)
      → IsPassed next
      → Reached flows flow
      → Reached (next ∷ flows) flow
  further flow next flows p r = record {
    before = next ∷ r.before;
    after = r.after;
    split = ap (◌∷◌ next) r.split;
    passed = (p, r.passed);
    other = r.other;
  }

  IsChoice-further :
      (next : ℕ) (flows : List ℕ) (result : Result ℕ)
      → IsPassed next
      → IsChoice flows result
      → IsChoice (next ∷ flows) result
  IsChoice-further next flows (ok flow) p (inl (r, s)) = inl (further flow next flows p r, s)
  IsChoice-further next flows (ok flow) p (inr (d, all)) = inr (d, (p, all))
  IsChoice-further next flows (throw runtime_error) p (d, all) = (d, (p, all))
  IsChoice-further next flows (throw logic_error) p (flow, r, s) =
      (flow, further flow next flows p r, s)
  IsChoice-further next flows (throw out_of_range) p h = elim h [ ]
  IsChoice-further next flows (throw bad_variant_access) p h = elim h [ ]
  IsChoice-further next flows (throw bad_optional_access) p h = elim h [ ]
  IsChoice-further next flows (throw failed_assert) p h = elim h [ ]
  IsChoice-further next flows (throw undefined_behaviour) p h = elim h [ ]

  here :
      (flow : ℕ) (flows : List ℕ) → is_flow default_flow flow ≡ false → Reached (flow ∷ flows) flow
  here flow flows e = record { before = []; after = flows; split = refl; passed = tt; other = e }

  choose-step :
      (flow : ℕ) (flows : List ℕ) (rest : Result ℕ) (b : Bool) (c : Option Bool)
      → is_flow default_flow flow ≡ b
      → satisfied flow ≡ c
      → IsChoice flows rest
      → IsChoice (flow ∷ flows) (if b then rest else take_if c flow rest)
  choose-step flow flows rest true c e s h = IsChoice-further flow flows rest (inl e) h
  choose-step flow flows rest false none e s h = (flow, here flow flows e, s)
  choose-step flow flows rest false (some true) e s h = inl (here flow flows e, s)
  choose-step flow flows rest false (some false) e s h = IsChoice-further flow flows rest (inr s) h

  -- Out of an exclusive gateway a token takes the first of the flows, the default flow left aside, whose conditions are
  -- satisfied, and the default flow if those of all others are violated. Where there is no default flow then,
  -- `std::runtime_error` is thrown, and `std::logic_error` at the first flow without a gatekeeper that is reached.
  pub choose_flow-IsChoice :
      (flows : List ℕ) → IsChoice flows (choose_flow satisfied default_flow flows)
  unfolding choose_flow
  choose_flow-IsChoice [] = elim (Option-cases default_flow) [
    | inl e ↦ rw e (refl, tt)
    | inr (flow, e) ↦ rw e (inr (refl, tt))
  ]
  choose_flow-IsChoice (flow ∷ flows) =
      choose-step flow flows (choose_flow satisfied default_flow flows) (is_flow default_flow flow)
        (satisfied flow) refl refl (choose_flow-IsChoice flows)
