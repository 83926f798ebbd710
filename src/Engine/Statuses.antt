-- ===== src/Engine/Statuses.antt =====
-- execution/engine/src/Token.h: `mergeStatus`, of the tokens that meet at a join or complete the instances of a
-- multi-instance activity.
pub mod Merged
use bpmnos_engine.Prelude.{
  ℕ, zero, suc, ◌-◌, Bool, true, false, Option, none, some, List, [], ◌∷◌, if◌then◌else◌, Result,
  ok, throw, ◌>>=◌, failed_assert, bad_optional_access, undefined_behaviour, get_elem?, length,
}
use bpmnos_engine.Prelude.Int.{ℤ, ltb_ℤ}
use bpmnos_engine.Values.Number.{Value, number_eq}
use bpmnos_engine.Values.Layout.{or_throw}
use bpmnos_engine.Values.Objects.{Object}
use bpmnos_engine.Values.Objects.Merge.{merge}
use bpmnos_engine.Engine.World.{Status}

-- The inner loop, for an attribute other than the timestamp: it ends at the first conflict.
unfoldable pub merge_attribute : Value → List Value → Value
merge_attribute result [] = result
merge_attribute none (value ∷ values) = merge_attribute value values
merge_attribute (some a) (none ∷ values) = merge_attribute (some a) values
merge_attribute (some a) (some b ∷ values) =
    if number_eq b a then merge_attribute (some a) values else none

-- The inner loop, for the timestamp.
unfoldable pub merge_timestamp : ℤ → List Value → Result ℤ
merge_timestamp result [] = ok result
merge_timestamp result (none ∷ values) = throw bad_optional_access
merge_timestamp result (some time ∷ values) =
    merge_timestamp (if ltb_ℤ result time then time else result) values

-- The attributes, or the objects, at an index.
unfoldable pub column {ℓ} : {A : Type ℓ} → List (List A) → ℕ → Result (List A)
column [] i = ok []
column (row ∷ rows) i =
    or_throw undefined_behaviour (get_elem? row i) >>= λ a. column rows i >>= λ rest. ok (a ∷ rest)

abbrev pub attributes_of : List Status → List (List Value)
attributes_of [] = []
attributes_of (s ∷ statuses) = s.attributes ∷ attributes_of statuses

abbrev pub objects_of : List Status → List (List (ℕ × Object))
objects_of [] = []
objects_of (s ∷ statuses) = s.objects ∷ objects_of statuses

-- The loop over the attributes behind the timestamp, with as many rounds as given.
unfoldable pub merge_attributes : List Status → ℕ → ℕ → Result (List Value)
unfolding merge_attribute column
merge_attributes statuses zero i = ok []
merge_attributes statuses (suc rounds) i = column (attributes_of statuses) i >>= λ values.
    merge_attributes statuses rounds (suc i) >>= λ rest. ok (merge_attribute none values ∷ rest)

-- The loop over the objects, those made anew being allocated from the first address on.
unfoldable pub merge_objects : ℕ → List Status → ℕ → ℕ → Result (List (ℕ × Object))
unfolding merge column
merge_objects fresh statuses zero k = ok []
merge_objects fresh statuses (suc rounds) k = column (objects_of statuses) k >>= λ objects.
    merge fresh objects >>= λ object.
    merge_objects (suc fresh) statuses rounds (suc k) >>= λ rest. ok (object ∷ rest)

abbrev pub defined : Value → Result ℤ
defined none = throw bad_optional_access
defined (some a) = ok a

-- `mergeStatus`, of statuses with a timestamp.
unfoldable pub merge_status : ℕ → List Status → Result Status
unfolding merge_timestamp merge_attributes merge_objects
merge_status fresh [] = throw failed_assert
merge_status fresh (first ∷ statuses) =
    merge_objects fresh (first ∷ statuses) (length first.objects) 0 >>= λ objects.
    column (attributes_of (first ∷ statuses)) 0 >>= λ times.
    or_throw undefined_behaviour (get_elem? times 0) >>= λ time. defined time >>= λ earliest.
    merge_timestamp earliest times >>= λ timestamp.
    merge_attributes (first ∷ statuses) (length first.attributes - 1) 1 >>= λ rest.
    ok (record { attributes = some timestamp ∷ rest; objects = objects })
