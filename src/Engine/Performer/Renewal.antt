-- ===== src/Engine/Performer/Renewal.antt =====
-- execution/engine/src/Token.cpp: when a performer becomes idle, the entry of every waiting activity can be decided.
use bpmnos_engine.Prelude.{ℕ, ◌≡◌, true, some}
use bpmnos_engine.Utility.Expired.{Tuple}
use bpmnos_engine.Engine.World.{World}
use bpmnos_engine.Engine.Performer.{is_ready, lock}

-- The token has a request, which exists.
abbrev pub HasRequest : World → ℕ → Type 0
HasRequest w q = (r : ℕ) × ((w.token q).decision_request ≡ some r) × (w.alive r ≡ true)

-- The entry of the activity in the tuple can be decided, if the activity awaits it.
abbrev pub Decidable : World → World → Tuple → Type 0
Decidable w v e = (q : ℕ) → lock w e ≡ some q → is_ready (w.token q).state ≡ true → HasRequest v q

-- What renewing requests does to a system state.
pub record Renewed (w v : World) : Type 0 where
  pub performing : (q : ℕ) → (v.token q).performing ≡ (w.token q).performing
  pub pending :
      (q : ℕ) → (v.token q).pending_sequential_entries ≡ (w.token q).pending_sequential_entries
  pub state : (q : ℕ) → (v.token q).state ≡ (w.token q).state
  pub alive : (q : ℕ) → w.alive q ≡ true → v.alive q ≡ true
  pub request : (q : ℕ) → HasRequest w q → HasRequest v q
