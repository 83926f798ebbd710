-- ===== src/Utility/AutoList/Live.antt =====
-- execution/utility/src/auto_list.h, seen through the tuples that have not expired.
use bpmnos_engine.Prelude.{
  ℕ, suc, ◌+◌, ◌≡◌, refl, ◌↔◌, Bool, true, false, List, [], ◌∷◌, ◌++◌, arith, length, if◌then◌else◌,
}
use bpmnos_engine.Utility.Expired.{Tuple, expired, live}
use bpmnos_engine.Utility.AutoList.{
  skip_expired, traverse, emplace_back, empty, count_from, count, points_to, find, erase, remove,
}

-- The first element that passes the test is dropped.
pub remove_first {ℓ} : {A : Type ℓ} → (A → Bool) → List A → List A
remove_first test [] = []
remove_first test (x ∷ xs) = if test x then xs else x ∷ remove_first test xs

module _ (alive : ℕ → Bool) where
  pub traverse-eq-live : (ts : List Tuple) → traverse alive ts ≡ live alive ts
  unfolding traverse live
  traverse-eq-live [] = refl
  traverse-eq-live (t ∷ ts) = ground (arith, traverse-eq-live ts)

  count_from-add : (n : ℕ) (ts : List Tuple) → count_from alive n ts ≡ n + length ts
  unfolding count_from
  count_from-add n [] = omega arith
  count_from-add n (t ∷ ts) = omega (arith, count_from-add (suc n) ts)

  -- `count` returns the number of tuples that have not expired, and leaves these tuples in their order.
  pub count-live : (ts : List Tuple) → count alive ts ≡ (length (live alive ts), live alive ts)
  unfolding count
  count-live ts = ground (arith, count_from-add 0 (live alive ts), traverse-eq-live ts)

  live-skip_expired : (ts : List Tuple) → live alive (skip_expired alive ts) ≡ live alive ts
  unfolding live skip_expired
  live-skip_expired [] = refl
  live-skip_expired (t ∷ ts) = ground (arith, live-skip_expired ts)

  skip_expired-eq-nil : (ts : List Tuple) → (skip_expired alive ts ≡ []) ↔ (live alive ts ≡ [])
  unfolding live skip_expired
  skip_expired-eq-nil [] = (λ _. refl, λ _. refl)
  skip_expired-eq-nil (t ∷ ts) = ground (arith, skip_expired-eq-nil ts)

  -- `empty` returns true exactly when every tuple has expired, and erases none that has not.
  pub empty-live :
      (ts : List Tuple)
      → (((empty alive ts).0 ≡ true) ↔ (live alive ts ≡ []))
        × (live alive (empty alive ts).1 ≡ live alive ts)
  unfolding empty
  empty-live ts = ground (arith, skip_expired-eq-nil ts, live-skip_expired ts)

  live-append : (ts us : List Tuple) → live alive (ts ++ us) ≡ live alive ts ++ live alive us
  unfolding live
  live-append [] us = refl
  live-append (t ∷ ts) us = ground (arith, live-append ts us)

  pub live-emplace_back :
      (ts : List Tuple) (t : Tuple)
      → live alive (emplace_back alive ts t) ≡ live alive ts ++ live alive (t ∷ [])
  unfolding emplace_back
  live-emplace_back ts t = live-append ts (t ∷ [])

  erase-cons :
      (t : Tuple) (before rest : List Tuple)
      → erase alive (t ∷ before, rest) ≡ t ∷ erase alive (before, rest)
  unfolding erase
  erase-cons t before [] = refl
  erase-cons t before (u ∷ rest) = refl

  module _ (position pointer : ℕ) where
    remove-cons :
        (t : Tuple) (ts : List Tuple)
        → remove alive position pointer (t ∷ ts) ≡ (
            if points_to alive position pointer t
            then erase alive ([], skip_expired alive (t ∷ ts))
            else t ∷ remove alive position pointer ts)
    unfolding remove
    remove-cons t ts =
        ground (
          arith,
          erase-cons t (find alive position pointer ts).0 (find alive position pointer ts).1,
        )

    -- If the tuple that points to the element has expired for another pointer in it, the tuple behind it is
    -- removed although it points to something else and has not expired.
    pub remove_stale :
        (t u : Tuple) (ts : List Tuple)
        → points_to alive position pointer t ≡ true
        → expired alive t ≡ true
        → expired alive u ≡ false
        → live alive (remove alive position pointer (t ∷ u ∷ ts)) ≡ live alive ts
    remove_stale t u ts p x y =
        rw (remove-cons t (u ∷ ts), p)
          (unfold skip_expired erase in rw x (rw y (live-skip_expired ts)))
