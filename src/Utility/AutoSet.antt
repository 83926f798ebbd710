-- ===== src/Utility/AutoSet.antt =====
-- execution/utility/src/auto_set.h. A multiset ordered by the first components is the list of its tuples in
-- iteration order; a tuple is its first component, a number, and the components behind it, which `expired<1>`
-- reads. As for auto_list, an operation that constructs an iterator returns the container it leaves.
pub mod Order
use bpmnos_engine.Prelude.{
  ℕ, zero, suc, Bool, true, false, List, [], ◌∷◌, ◌++◌, ◌==◌, ◌&&◌, if◌then◌else◌,
}
use bpmnos_engine.Prelude.Int.{ℤ, ltb_ℤ}
use bpmnos_engine.Utility.Expired.{Tuple, expired}
use bpmnos_engine.Utility.AutoList.{points_to}

abbrev pub Entry : Type 0
Entry = ℤ × Tuple

abbrev pub Compare : Type 0
Compare = Entry → Entry → Bool

unfoldable pub ascending : Compare
ascending lhs rhs = ltb_ℤ lhs.0 rhs.0

unfoldable pub descending : Compare
descending lhs rhs = ltb_ℤ rhs.0 lhs.0

-- `std::multiset::emplace` puts an element behind those that are equivalent to it.
unfoldable pub emplace : Compare → List Entry → Entry → List Entry
emplace compare [] e = e ∷ []
emplace compare (x ∷ tuples) e =
    if compare e x then e ∷ x ∷ tuples else x ∷ emplace compare tuples e

module _ (alive : ℕ → Bool) where
  unfoldable pub skip_expired : List Entry → List Entry
  skip_expired [] = []
  skip_expired (e ∷ es) = if expired alive e.1 then skip_expired es else e ∷ es

  unfoldable pub live_entries : List Entry → List Entry
  live_entries [] = []
  live_entries (e ∷ es) = if expired alive e.1 then live_entries es else e ∷ live_entries es

  unfoldable pub empty : List Entry → Bool × List Entry
  unfolding skip_expired
  empty tuples = elim (skip_expired tuples) [ [] ↦ (true, []) | e ∷ es ↦ (false, e ∷ es) ]

  -- The number of rounds of the loop of `count`, and the container that the loop leaves.
  unfoldable pub count : List Entry → ℕ × List Entry
  count [] = (0, [])
  count (e ∷ es) =
      let (n, rest) = count es in if expired alive e.1 then (n, rest) else (suc n, e ∷ rest)

  unfoldable pub find : ℕ → ℕ → List Entry → List Entry × List Entry
  unfolding points_to skip_expired
  find position pointer [] = ([], [])
  find position pointer (e ∷ es) =
      let (before, rest) = find position pointer es in
      if points_to alive position pointer e.1
      then ([], skip_expired (e ∷ es))
      else (e ∷ before, rest)

  -- `remove` erases through the underlying multiset, whose iterator skips nothing.
  unfoldable pub erase_tuple : List Entry × List Entry → List Entry
  erase_tuple (before, []) = before
  erase_tuple (before, e ∷ rest) = before ++ rest

  unfoldable pub remove : ℕ → ℕ → List Entry → List Entry
  unfolding find erase_tuple
  remove position pointer tuples = erase_tuple (find position pointer tuples)
