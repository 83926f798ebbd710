-- ===== src/Values/Objects.antt =====
-- model/utility/src/Object.h and Object.cpp: objects, and the operations that change their layout. Where the code
-- compares the pointers to two schemas to find out whether a part has changed, their values are compared: an
-- unchanged part is shared, and a part built anew with the same value gives an equal result.
pub mod Resized
pub mod Merge
use Prim.Native.Nat.{max, min}
use Prim.Native.String.{String}
use text.Mathlib.Text.{◌==◌ as str_eq}
use bpmnos_engine.Prelude.{
  ℕ, zero, suc, ◌+◌, ◌*◌, Bool, true, false, not, Option, none, some, List, [], ◌∷◌, ◌++◌, ◌&&◌,
  ◌||◌, ◌==◌, if◌then◌else◌, Result, ok, throw, ◌>>=◌, logic_error, bad_variant_access,
  undefined_behaviour, get_elem?, set, replicate, length,
}
use bpmnos_engine.Values.Number.{Value, number_eq, has_value}
use bpmnos_engine.Values.Schema.{
  Schema, Fields, value_type, array_type, struct_type, end, field, size_eq, schema_eq,
}
use bpmnos_engine.Values.Layout.{
  Layout, FieldLayouts, single, array_layout, struct_layout, no_fields, field_layout, layout_size,
  layout_schema, make_array, make_struct, layout_eq, find_field, get_field, struct_fields,
  struct_layouts, or_throw,
}

pub record Object : Type 0 where
  pub layout : Layout
  pub values : List Value

-- `std::get<ArrayType>(schema)`: the element type and the size.
abbrev pub array_parts : Schema → Result (Schema × Option ℕ)
array_parts (array_type s m) = ok (s, m)
array_parts _ = throw bad_variant_access

unfoldable pub field_layouts_of : FieldLayouts → List Layout
field_layouts_of no_fields = []
field_layouts_of (field_layout o l fs) = l ∷ field_layouts_of fs

-- `type.fields[k].type = schema`
unfoldable pub set_field_type : Fields → ℕ → Schema → Fields
set_field_type end k t = end
set_field_type (field f s fs) zero t = field f t fs
set_field_type (field f s fs) (suc k) t = field f s (set_field_type fs k t)

-- The schema of an array whose element has been rebuilt.
unfoldable pub element_schema : Schema → Option ℕ → Layout → Layout → Schema
element_schema schema size old new =
    if schema_eq (layout_schema new) (layout_schema old)
    then schema
    else array_type (layout_schema new) size

-- The schema of a struct one of whose fields has been rebuilt.
unfoldable pub field_schema : Schema → Fields → ℕ → Layout → Layout → Schema
field_schema schema types k old new =
    if schema_eq (layout_schema new) (layout_schema old)
    then schema
    else struct_type (set_field_type types k (layout_schema new))

-- An array fixed in the schema stays fixed at its new size.
abbrev pub resized_schema : Schema → Schema → Option ℕ → ℕ → Schema
resized_schema schema element none size = schema
resized_schema schema element (some m) size = array_type element (some size)

-- `std::get<ArrayLayout>(layout)`: the element layout and the number of elements.
abbrev pub array_of : Layout → Result (Layout × ℕ)
array_of (array_layout s l n size) = ok (l, n)
array_of _ = throw bad_variant_access

-- `rebuild`, on the steps that remain.
unfoldable pub rebuild : Layout → List (Option String) → ℕ → Result Layout
unfolding make_array make_struct find_field get_field field_layouts_of element_schema field_schema
rebuild layout [] size = do
  (element, count) ← array_of layout
  (type, fixed) ← array_parts (layout_schema layout)
  ok (make_array (resized_schema (layout_schema layout) type fixed size) element size)
rebuild layout (none ∷ steps) size = do
  (old, count) ← array_of layout
  element ← rebuild old steps size
  (type, fixed) ← array_parts (layout_schema layout)
  ok (make_array (element_schema (layout_schema layout) fixed old element) element count)
rebuild layout (some name ∷ steps) size = do
  types ← struct_fields (layout_schema layout)
  k ← or_throw logic_error (find_field name types)
  fields ← struct_layouts layout
  (offset, old) ← or_throw undefined_behaviour (get_field fields k)
  changed ← rebuild old steps size
  ok (
      make_struct (field_schema (layout_schema layout) types k old changed)
        (set (field_layouts_of fields) k changed))

-- `widen`, of arrays of the given types: the larger size, fixed only where both fix the same size.
abbrev pub common_size : Option ℕ → Option ℕ → Option ℕ
common_size none n = none
common_size (some m) n = if size_eq (some m) n then some m else none

unfoldable pub widened_schema : Schema → Option ℕ → Option ℕ → Layout → Layout → Schema
widened_schema schema size fixed old new =
    if schema_eq (layout_schema new) (layout_schema old) && size_eq fixed size
    then schema
    else array_type (layout_schema new) fixed

unfoldable pub widen_array : Schema → Schema → Layout → ℕ → ℕ → Result Layout → Result Layout
unfolding make_array widened_schema
widen_array schema other old m n widened = do
  element ← widened
  (type, size) ← array_parts schema
  (other_type, other_size) ← array_parts other
  ok (
      make_array (widened_schema schema size (common_size size other_size) old element) element
        (max m n))

-- What the loop over the fields has built: the types, the layouts, and whether a type has changed.
abbrev pub Widening : Type 0
Widening = Fields × List Layout × Bool

abbrev pub add_field : String → Schema → Layout → Layout → Widening → Widening
add_field name type old new (types, layouts, changed) =
    if schema_eq (layout_schema new) (layout_schema old)
    then (field name type types, new ∷ layouts, changed)
    else (field name (layout_schema new) types, new ∷ layouts, true)

unfoldable pub widen_struct : Schema → Result Widening → Result Layout
unfolding make_struct
widen_struct schema widened = do
  (types, layouts, changed) ← widened
  ok (make_struct (if changed then struct_type types else schema) layouts)

unfoldable mutual
  unfolding widen_array widen_struct layout_eq schema_eq

  pub widen : Layout → Layout → Result Layout
  widen (single s) other = ok (single s)
  widen (array_layout s l m a) (array_layout t k n b) =
      let widened = widen_array s t l m n (widen l k) in
      if layout_eq (array_layout s l m a) (array_layout t k n b)
      then ok (array_layout s l m a)
      else widened
  widen (array_layout s l m a) _ = throw bad_variant_access
  widen (struct_layout (struct_type types) fs a) (struct_layout t gs b) =
      let widened = widen_struct (struct_type types) (widen_fields types fs gs) in
      if layout_eq (struct_layout (struct_type types) fs a) (struct_layout t gs b)
      then ok (struct_layout (struct_type types) fs a)
      else widened
  widen (struct_layout s fs a) _ = throw bad_variant_access

  pub widen_fields : Fields → FieldLayouts → FieldLayouts → Result Widening
  widen_fields types no_fields gs = ok (types, [], false)
  widen_fields (field name s types) (field_layout o l fs) (field_layout p k gs) =
      widen l k >>= λ new. widen_fields types fs gs >>= λ rest. ok (add_field name s l new rest)
  widen_fields types (field_layout o l fs) gs = throw undefined_behaviour
