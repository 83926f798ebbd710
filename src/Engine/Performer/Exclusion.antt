-- ===== src/Engine/Performer/Exclusion.antt =====
-- execution/engine/src/Token.cpp: while a performer is busy, no entry of another activity can be decided.
use bpmnos_engine.Prelude.{ℕ, ◌≡◌, true, none, some}
use bpmnos_engine.Utility.Expired.{Tuple}
use bpmnos_engine.Engine.World.{World}
use bpmnos_engine.Engine.Performer.{lock}

-- The entry of no activity in the tuple can be decided.
abbrev pub Undecidable : World → Tuple → Type 0
Undecidable w e = (q : ℕ) → lock w e ≡ some q → (w.token q).decision_request ≡ none

-- What withdrawing requests does to a system state.
pub record Withdrawn (w v : World) : Type 0 where
  pub performing : (q : ℕ) → (v.token q).performing ≡ (w.token q).performing
  pub pending :
      (q : ℕ) → (v.token q).pending_sequential_entries ≡ (w.token q).pending_sequential_entries
  pub request : (q : ℕ) → (w.token q).decision_request ≡ none → (v.token q).decision_request ≡ none
  pub alive : (q : ℕ) → v.alive q ≡ true → w.alive q ≡ true
