-- ===== src/Values/Objects/Merge.antt =====
-- model/utility/src/Object.cpp: copying values between objects of the same structure, resizing and merging. An
-- object that is merged is given with the address the program knows it by.
pub mod Agreement
use Prim.Native.Nat.{min}
use Prim.Native.String.{String}
use bpmnos_engine.Prelude.{
  ℕ, zero, suc, ◌+◌, ◌*◌, Bool, true, false, not, Option, none, some, List, [], ◌∷◌, ◌++◌, ◌==◌,
  if◌then◌else◌, Result, ok, throw, ◌>>=◌, failed_assert, bad_variant_access, undefined_behaviour,
  get_elem?, set, replicate,
}
use bpmnos_engine.Values.Number.{Value, number_eq}
use bpmnos_engine.Values.Layout.{
  Layout, FieldLayouts, single, array_layout, struct_layout, no_fields, field_layout, layout_size,
  or_throw,
}
use bpmnos_engine.Values.Objects.{Object, rebuild, widen}

-- The positions that a visit is called with, of a value in the source and in the target.
abbrev pub Visits : Type 0
Visits = List (ℕ × ℕ)

-- `for (size_t i = 0; i < count; i++)`, `first` being the value of `i`.
unfoldable pub for_each : ℕ → ℕ → (ℕ → Result Visits) → Result Visits
for_each zero first body = ok []
for_each (suc count) first body =
    body first >>= λ visits. for_each count (suc first) body >>= λ rest. ok (visits ++ rest)

unfoldable mutual
  unfolding for_each

  pub correspond : Layout → ℕ → Layout → ℕ → Result Visits
  correspond (array_layout s l n a) from (array_layout t k m b) to =
      for_each (min n m) 0 (λ i. correspond l (from + i * layout_size l) k (to + i * layout_size k))
  correspond (array_layout s l n a) from _ to = throw bad_variant_access
  correspond (single s) from other to = ok ((from, to) ∷ [])
  correspond (struct_layout s fs a) from (struct_layout t gs b) to = correspond_fields fs from gs to
  correspond (struct_layout s fs a) from _ to = throw bad_variant_access

  pub correspond_fields : FieldLayouts → ℕ → FieldLayouts → ℕ → Result Visits
  correspond_fields no_fields from gs to = ok []
  correspond_fields (field_layout o l fs) from (field_layout p k gs) to =
      correspond l (from + o) k (to + p) >>= λ visits.
      correspond_fields fs from gs to >>= λ rest. ok (visits ++ rest)
  correspond_fields (field_layout o l fs) from no_fields to = throw undefined_behaviour

-- `result->values[target] = values[source]`, for each visit.
unfoldable pub copy_values : List Value → Visits → List Value → Result (List Value)
copy_values values [] result = ok result
copy_values values ((source, target) ∷ visits) result =
    or_throw undefined_behaviour (get_elem? values source) >>= λ value.
    copy_values values visits (set result target value)

-- `Object::resize`
unfoldable pub resize : Object → List (Option String) → ℕ → Result Object
unfolding rebuild correspond copy_values
resize object steps size = rebuild object.layout steps size >>= λ layout.
    correspond object.layout 0 layout 0 >>= λ visits.
    copy_values object.values visits (replicate (layout_size layout) none) >>= λ values.
    ok (record { layout = layout; values = values })

-- A value of the result and whether the objects conflict in it.
abbrev pub Merging : Type 0
Merging = Value × Bool

unfoldable pub merge_value : Merging → Value → Merging
merge_value (merged, true) value = (merged, true)
merge_value (none, false) value = (value, false)
merge_value (some a, false) none = (some a, false)
merge_value (some a, false) (some b) = if number_eq b a then (some a, false) else (none, true)

unfoldable pub merge_values : List Value → Visits → List Merging → Result (List Merging)
unfolding merge_value
merge_values values [] result = ok result
merge_values values ((source, target) ∷ visits) result =
    or_throw undefined_behaviour (get_elem? values source) >>= λ value.
    or_throw undefined_behaviour (get_elem? result target) >>= λ merged.
    merge_values values visits (set result target (merge_value merged value))

abbrev pub all_at : ℕ → List (ℕ × Object) → Bool
all_at front [] = true
all_at front ((p, object) ∷ objects) = if p == front then all_at front objects else false

unfoldable pub widen_all : Layout → List (ℕ × Object) → Result Layout
unfolding widen
widen_all layout [] = ok layout
widen_all layout ((p, object) ∷ objects) =
    widen layout object.layout >>= λ wider. widen_all wider objects

unfoldable pub merge_all : Layout → List (ℕ × Object) → List Merging → Result (List Merging)
unfolding correspond merge_values
merge_all layout [] result = ok result
merge_all layout ((p, object) ∷ objects) result = correspond object.layout 0 layout 0 >>= λ visits.
    merge_values object.values visits result >>= λ merged. merge_all layout objects merged

abbrev pub merged_values : List Merging → List Value
merged_values [] = []
merged_values ((value, conflict) ∷ result) = value ∷ merged_values result

-- `Object::merge`, an object made anew being allocated at the first address.
unfoldable pub merge : ℕ → List (ℕ × Object) → Result (ℕ × Object)
unfolding widen_all merge_all
merge fresh [] = throw failed_assert
merge fresh ((p, object) ∷ objects) =
    let merged = widen_all object.layout ((p, object) ∷ objects) >>= λ layout.
    merge_all layout ((p, object) ∷ objects) (replicate (layout_size layout) (none, false))
    >>= λ result. ok (fresh, record { layout = layout; values = merged_values result }) in
    if all_at p ((p, object) ∷ objects) then ok (p, object) else merged
