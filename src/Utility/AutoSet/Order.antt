-- ===== src/Utility/AutoSet/Order.antt =====
-- execution/utility/src/auto_set.h: the order of the multiset, and its tuples that have not expired.
use bpmnos_engine.Prelude.{
  ◌≡◌, refl, ap, inl, inr, true, false, List, [], ◌∷◌, ◌++◌, arith, Bool-cases, All, All-map,
}
use bpmnos_engine.Prelude.Int.{ℤ, ◌≤ℤ◌, ltb_ℤ}
use bpmnos_engine.Utility.AutoSet.{Entry, ascending, emplace}

abbrev pub IsAscending : List Entry → Type 0
IsAscending [] = Unit
IsAscending (x ∷ xs) = All (λ (y : Entry). x.0 ≤ℤ y.0) xs × IsAscending xs

abbrev pub Later : ℤ → Entry → Type 0
Later v x = ltb_ℤ v x.0 ≡ true

-- Where an element is put: behind every element that is not larger, before every one that is.
pub record Placed (tuples : List Entry) (e : Entry) (result : List Entry) : Type 0 where
  pub before : List Entry
  pub after : List Entry
  pub split : tuples ≡ before ++ after
  pub joined : result ≡ before ++ e ∷ after
  pub not_larger : All (λ (x : Entry). x.0 ≤ℤ e.0) before
  pub larger : All (Later e.0) after

later-le : (u v w : ℤ) → ltb_ℤ u v ≡ true → v ≤ℤ w → ltb_ℤ u w ≡ true
later-le u v w h k = ground arith

-- `emplace` into an ascending multiset keeps equal first components in the order of their insertion.
pub emplace-Placed :
    (tuples : List Entry) (e : Entry)
    → IsAscending tuples
    → Placed tuples e (emplace ascending tuples e)
unfolding emplace ascending
emplace-Placed [] e h = record {
  before = [];
  after = [];
  split = refl;
  joined = refl;
  not_larger = tt;
  larger = tt;
}
emplace-Placed (x ∷ xs) e h = elim (Bool-cases (ltb_ℤ e.0 x.0)) [
  | inl t ↦ rw t (record {
    before = [];
    after = x ∷ xs;
    split = refl;
    joined = refl;
    not_larger = tt;
    larger = (t, All-map _ (Later e.0) xs (λ y k. later-le e.0 x.0 y.0 t k) h.0);
  })
  | inr f ↦ rw f (
      let p = emplace-Placed xs e h.1 in
      record {
        before = x ∷ p.before;
        after = p.after;
        split = ap (◌∷◌ x) p.split;
        joined = ap (◌∷◌ x) p.joined;
        not_larger = (ground arith, p.not_larger);
        larger = p.larger;
      })
]

emplace-All {ℓ} :
    (P : Entry → Type ℓ) (tuples : List Entry) (e : Entry)
    → All P tuples
    → P e
    → All P (emplace ascending tuples e)
unfolding emplace
emplace-All P [] e h k = (k, tt)
emplace-All P (x ∷ xs) e h k = elim (Bool-cases (ascending e x)) [
  | inl t ↦ rw t (k, h)
  | inr f ↦ rw f (h.0, emplace-All P xs e h.1 k)
]

-- `emplace` keeps the multiset ascending.
pub emplace-IsAscending :
    (tuples : List Entry) (e : Entry)
    → IsAscending tuples
    → IsAscending (emplace ascending tuples e)
unfolding emplace
emplace-IsAscending [] e h = (tt, tt)
emplace-IsAscending (x ∷ xs) e h = elim (Bool-cases (ascending e x)) [
  | inl t ↦ rw t ((unfold ascending in first t), h)
  | inr f ↦ rw f (emplace-All _ xs e h.0 (unfold ascending in last f), emplace-IsAscending xs e h.1)
]
  where
    first : ltb_ℤ e.0 x.0 ≡ true → All (λ (y : Entry). e.0 ≤ℤ y.0) (x ∷ xs)
    first t = (ground arith, All-map _ _ xs (λ y k. ground arith) h.0)

    last : ltb_ℤ e.0 x.0 ≡ false → x.0 ≤ℤ e.0
    last f = ground arith
