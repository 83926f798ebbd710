-- ===== src/Values/Objects/Merge/Agreement.antt =====
-- model/utility/src/Object.cpp: the value that merging gives.
use bpmnos_engine.Prelude.{
  ℕ, zero, suc, ◌≡◌, refl, sym, ap, ◌∙◌, ◌↔◌, inl, inr, true, false, none, some, List, [], ◌∷◌,
  arith, Bool-cases, get_elem?,
}
use bpmnos_engine.Prelude.Int.{ℤ}
use bpmnos_engine.Values.Number.{Value, number_eq, number_eq_iff}
use bpmnos_engine.Values.Objects.Merge.{Merging, merge_value}

-- The visits of one position, one value after the other.
abbrev pub merge_list : Merging → List Value → Merging
merge_list m [] = m
merge_list m (v ∷ vs) = merge_list (merge_value m v) vs

-- The number is one of the values.
abbrev pub Holds : List Value → ℤ → Type 0
Holds vs a = (i : ℕ) × (get_elem? vs i ≡ some (some a))

-- The number is the one defined value that the values have.
abbrev pub IsAgreed : List Value → ℤ → Type 0
IsAgreed vs a = Holds vs a × ((b : ℤ) → Holds vs b → b ≡ a)

Holds-head : (v : Value) (vs : List Value) (b : ℤ) → v ≡ some b → Holds (v ∷ vs) b
Holds-head v vs b e = (0, ap some e)

Holds-tail : (v : Value) (vs : List Value) (b : ℤ) → Holds vs b → Holds (v ∷ vs) b
Holds-tail v vs b (i, h) = (suc i, h)

Holds-cons :
    (v : Value) (vs : List Value) (a b : ℤ)
    → Holds (v ∷ vs) b
    → (v ≡ some b → b ≡ a)
    → (Holds vs b → b ≡ a)
    → b ≡ a
Holds-cons v vs a b (zero, h) f g = f (ground arith)
Holds-cons v vs a b (suc i, h) f g = g (i, h)

pub merge_value-same :
    (c d : ℤ) → number_eq d c ≡ true → merge_value (some c, false) (some d) ≡ (some c, false)
unfolding merge_value
merge_value-same c d t = rw t refl

pub merge_value-other :
    (c d : ℤ) → number_eq d c ≡ false → merge_value (some c, false) (some d) ≡ (none, true)
unfolding merge_value
merge_value-other c d t = rw t refl

pub merge_value-first : (v : Value) → merge_value (none, false) v ≡ (v, false)
unfolding merge_value
merge_value-first v = refl

pub merge_value-undefined : (c : ℤ) → merge_value (some c, false) none ≡ (some c, false)
unfolding merge_value
merge_value-undefined c = refl

pub conflict_stays : (vs : List Value) → merge_list (none, true) vs ≡ (none, true)
unfolding merge_value
conflict_stays [] = refl
conflict_stays (v ∷ vs) = conflict_stays vs

merge_list-some :
    (vs : List Value) (c a : ℤ)
    → ((merge_list (some c, false) vs).0 ≡ some a) ↔ ((c ≡ a) × ((b : ℤ) → Holds vs b → b ≡ a))
merge_list-some [] c a = ((λ h. ((ground arith), λ b k. cc (k.1))), λ h. ap some h.0)
merge_list-some (none ∷ vs) c a =
    let ih = merge_list-some vs c a in
    rw (merge_value-undefined c, merge_list)
      (
        (λ h. let (e, f) = ih.0 h in (e, λ b k. Holds-cons none vs a b k (λ x. cc) (f b))),
        (λ h. ih.1 (h.0, λ b k. h.1 b (Holds-tail none vs b k))),
      )
merge_list-some (some d ∷ vs) c a = elim (Bool-cases (number_eq d c)) [
  | inl t ↦
      let ih = merge_list-some vs c a in
      let eq : d ≡ c = (number_eq_iff d c).0 t in
      rw (merge_value-same c d t, merge_list)
        (
          (λ h.
              let (e, f) = ih.0 h in
              (e, λ b k. Holds-cons (some d) vs a b k (λ x. ground arith) (f b))),
          (λ h. ih.1 (h.0, λ b k. h.1 b (Holds-tail (some d) vs b k))),
        )
  | inr t ↦
      rw (merge_value-other c d t, merge_list)
        (
          (λ h. absurd (never (sym (ap (λ (m : Merging). m.0) (conflict_stays vs)) ∙ h))),
          (λ h. absurd (apart t (h.1 d (Holds-head (some d) vs d refl) ∙ sym h.0))),
        )
]
  where
    never : none ≡ some a → ⊥
    never h = cc

    apart : number_eq d c ≡ false → d ≡ c → ⊥
    apart h e = ground (arith, (number_eq_iff d c).1 e)

-- Merging the values that the objects have at a position gives a number exactly when that number is among them and
-- all other defined ones are equal to it.
pub merge_list-IsAgreed :
    (vs : List Value) (a : ℤ) → ((merge_list (none, false) vs).0 ≡ some a) ↔ IsAgreed vs a
unfolding merge_value
merge_list-IsAgreed [] a = ((λ h. cc), λ h. cc (h.0.1))
merge_list-IsAgreed (none ∷ vs) a =
    let ih = merge_list-IsAgreed vs a in
    (
      (λ h.
          let ((i, e), f) = ih.0 h in
          ((suc i, e), λ b k. Holds-cons none vs a b k (λ x. cc) (f b))),
      (λ h. ih.1 (below h.0, λ b k. h.1 b (Holds-tail none vs b k))),
    )
  where
    below : Holds (none ∷ vs) a → Holds vs a
    below (zero, h) = cc
    below (suc i, h) = (i, h)
merge_list-IsAgreed (some c ∷ vs) a =
    let rest = merge_list-some vs c a in
    (
      (λ h.
          let (e, f) = rest.0 h in
          (
            Holds-head (some c) vs a (ap some e),
            λ b k. Holds-cons (some c) vs a b k (λ x. ground arith) (f b),
          )),
      (λ h.
          rest.1
            (h.1 c (Holds-head (some c) vs c refl), λ b k. h.1 b (Holds-tail (some c) vs b k))),
    )
