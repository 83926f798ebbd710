-- ===== src/Engine/Statuses/Merged.antt =====
-- execution/engine/src/Token.h: what `mergeStatus` promises of the attributes.
use bpmnos_engine.Prelude.{
  zero, suc, ◌≡◌, refl, sym, ap, ◌∙◌, ◌↔◌, inl, inr, false, none, some, List, [], ◌∷◌, arith,
  Bool-cases, ok, ok-injective, ◌⊎◌,
}
use bpmnos_engine.Prelude.Int.{ℤ, ltb_ℤ, ◌≤ℤ◌}
use bpmnos_engine.Values.Number.{Value, number_eq}
use bpmnos_engine.Values.Objects.Merge.{Merging}
use bpmnos_engine.Values.Objects.Merge.Agreement.{
  merge_list, Holds, IsAgreed, merge_list-IsAgreed, merge_value-same, merge_value-other,
  merge_value-undefined, merge_value-first, conflict_stays,
}
use bpmnos_engine.Engine.Statuses.{merge_attribute, merge_timestamp}

-- An attribute of statuses is merged as a value of objects is, although `mergeStatus` leaves its loop at a conflict
-- and `Object::merge` remembers it.
pub merge_attribute-eq-merge_list :
    (r : Value) (vs : List Value) → merge_attribute r vs ≡ (merge_list (r, false) vs).0
unfolding merge_attribute
merge_attribute-eq-merge_list none [] = refl
merge_attribute-eq-merge_list (some a) [] = refl
merge_attribute-eq-merge_list none (v ∷ vs) =
    rw (merge_value-first v, merge_list) (merge_attribute-eq-merge_list v vs)
merge_attribute-eq-merge_list (some a) (none ∷ vs) =
    rw (merge_value-undefined a, merge_list) (merge_attribute-eq-merge_list (some a) vs)
merge_attribute-eq-merge_list (some a) (some b ∷ vs) = elim (Bool-cases (number_eq b a)) [
  | inl t ↦ rw (t, merge_value-same a b t, merge_list) (merge_attribute-eq-merge_list (some a) vs)
  | inr t ↦
      rw (t, merge_value-other a b t, merge_list)
        (sym (ap (λ (m : Merging). m.0) (conflict_stays vs)))
]

-- A merged attribute is defined as a number exactly when that number is the one defined value that the statuses have
-- for the attribute.
pub merge_attribute-IsAgreed :
    (vs : List Value) (a : ℤ) → (merge_attribute none vs ≡ some a) ↔ IsAgreed vs a
merge_attribute-IsAgreed vs a =
    let (to, from) = merge_list-IsAgreed vs a in
    let eq = merge_attribute-eq-merge_list none vs in ((λ h. to (sym eq ∙ h)), (λ h. eq ∙ from h))

-- The latest of the timestamps: one of them, and none is later.
pub record IsLatest (start : ℤ) (vs : List Value) (time : ℤ) : Type 0 where
  pub from_start : start ≤ℤ time
  pub latest : (b : ℤ) → Holds vs b → b ≤ℤ time
  pub attained : (start ≡ time) ⊎ Holds vs time

-- The merged timestamp of statuses that all have one is the latest of them.
pub merge_timestamp-IsLatest :
    (start : ℤ) (vs : List Value) (time : ℤ)
    → merge_timestamp start vs ≡ ok time
    → IsLatest start vs time
unfolding merge_timestamp
merge_timestamp-IsLatest start [] time h =
    let eq : start ≡ time = ok-injective h in
    record { from_start = rw eq (omega arith); latest = λ b k. cc (k.1); attained = inl eq }
merge_timestamp-IsLatest start (none ∷ vs) time h = cc
merge_timestamp-IsLatest start (some t ∷ vs) time h = elim (Bool-cases (ltb_ℤ start t)) [
  | inl e ↦
      let run : merge_timestamp t vs ≡ ok time = ground arith in
      let l = merge_timestamp-IsLatest t vs time run in
      record {
        from_start = ground (arith, l.from_start);
        latest = λ b k. first t b k l.from_start (l.latest b);
        attained = inr (attained t l.attained);
      }
  | inr e ↦
      let run : merge_timestamp start vs ≡ ok time = ground arith in
      let l = merge_timestamp-IsLatest start vs time run in
      record {
        from_start = l.from_start;
        latest = λ b k. first t b k (ground (arith, l.from_start)) (l.latest b);
        attained = or_later l.attained;
      }
]
  where
    first : (t b : ℤ) → Holds (some t ∷ vs) b → t ≤ℤ time → (Holds vs b → b ≤ℤ time) → b ≤ℤ time
    first t b (zero, e) h f = let eq : t ≡ b = cc in rw (← eq) h
    first t b (suc i, e) h f = f (i, e)

    attained : (t : ℤ) → (t ≡ time) ⊎ Holds vs time → Holds (some t ∷ vs) time
    attained t (inl e) = (0, ap (λ x. some (some x)) e)
    attained t (inr (i, k)) = (suc i, k)

    or_later : {t : ℤ} → (start ≡ time) ⊎ Holds vs time → (start ≡ time) ⊎ Holds (some t ∷ vs) time
    or_later (inl e) = inl e
    or_later (inr (i, k)) = inr (suc i, k)
