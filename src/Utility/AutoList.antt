-- ===== src/Utility/AutoList.antt =====
-- execution/utility/src/auto_list.h. A container is its list of tuples, expired ones included, and an iterator
-- the part of the list from its current tuple on. Iterating erases the expired tuples it meets, so every
-- operation that constructs an iterator returns the container it leaves.
pub mod Live
use bpmnos_engine.Prelude.{
  ℕ, zero, suc, Bool, true, false, List, [], ◌∷◌, ◌++◌, Option, none, some, get_elem?, ◌==◌, ◌&&◌,
  if◌then◌else◌,
}
use bpmnos_engine.Utility.Expired.{Component, weak_ptr, value, Tuple, expired}

module _ (alive : ℕ → Bool) where
  -- `skipExpired`, which the constructor of an iterator calls.
  unfoldable pub skip_expired : List Tuple → List Tuple
  skip_expired [] = []
  skip_expired (t ∷ ts) = if expired alive t then skip_expired ts else t ∷ ts

  -- The container that `for (auto& _ : *this)` leaves, running to the end.
  unfoldable pub traverse : List Tuple → List Tuple
  traverse [] = []
  traverse (t ∷ ts) = if expired alive t then traverse ts else t ∷ traverse ts

  unfoldable pub emplace_back : List Tuple → Tuple → List Tuple
  emplace_back tuples t = tuples ++ t ∷ []

  -- `empty` returns at the first tuple the iteration meets, and erases the expired ones before it.
  unfoldable pub empty : List Tuple → Bool × List Tuple
  unfolding skip_expired
  empty tuples = elim (skip_expired tuples) [ [] ↦ (true, []) | t ∷ ts ↦ (false, t ∷ ts) ]

  unfoldable pub count_from : ℕ → List Tuple → ℕ
  count_from n [] = n
  count_from n (t ∷ ts) = count_from (suc n) ts

  unfoldable pub count : List Tuple → ℕ × List Tuple
  unfolding traverse count_from
  count tuples = (count_from 0 (traverse tuples), traverse tuples)

  -- The predicate of `find`: `std::get<std::weak_ptr<T>>`, the component of the sought type, which stands at a
  -- position fixed by the type, still points to the object sought.
  unfoldable pub points_to : ℕ → ℕ → Tuple → Bool
  points_to position pointer t = elim (get_elem? t position) [
    | some (weak_ptr p) ↦ alive p && p == pointer
    | some (value v) ↦ false
    | none ↦ false
  ]

  -- `find` splits the container at the tuple found; the iterator it returns skips expired tuples, so that the
  -- tuple it stands at may be a later one.
  unfoldable pub find : ℕ → ℕ → List Tuple → List Tuple × List Tuple
  unfolding points_to skip_expired
  find position pointer [] = ([], [])
  find position pointer (t ∷ ts) =
      let (before, rest) = find position pointer ts in
      if points_to position pointer t then ([], skip_expired (t ∷ ts)) else (t ∷ before, rest)

  -- `erase`: the container, the iterator returned having skipped the expired tuples behind the erased one.
  unfoldable pub erase : List Tuple × List Tuple → List Tuple
  unfolding skip_expired
  erase (before, []) = before
  erase (before, t ∷ rest) = before ++ skip_expired rest

  -- `remove`: `erase` where `find` has not returned `end()`.
  unfoldable pub remove : ℕ → ℕ → List Tuple → List Tuple
  unfolding points_to find erase
  remove position pointer tuples = erase (find position pointer tuples)

  unfoldable pub clear : List Tuple → List Tuple
  clear tuples = []
