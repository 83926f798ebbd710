-- ===== src/Values/Layout.antt =====
-- model/utility/src/Object.h and Object.cpp: the layouts of objects. A layout refers to its schema and to the
-- layouts it contains through shared pointers to constants, which are their values here.
pub mod Agree
pub mod Locate
use Prim.Native.Nat.{max}
use Prim.Native.String.{String}
use text.Mathlib.Text.{◌==◌ as str_eq}
use mathlib.Core.Option
use bpmnos_engine.Prelude.{
  ℕ, zero, suc, ◌+◌, ◌*◌, Bool, true, false, Option, none, some, List, [], ◌∷◌, ◌&&◌, ◌==◌, ltb,
  if◌then◌else◌, Result, ok, throw, ◌>>=◌, logic_error, out_of_range, bad_variant_access,
  failed_assert, undefined_behaviour,
}
use bpmnos_engine.Values.Schema.{
  Schema, Fields, value_type, array_type, struct_type, end, field, size_eq, schema_eq,
}

-- `std::variant<std::monostate, ArrayLayout, StructLayout>` with the members `schema` and `size`: the layout of a
-- single value, whose size is 1, of an array, with the element layout and the number of elements, and of a struct.
mutual
  pub data Layout : Type 0 where
    single : Schema → Layout
    array_layout : Schema → Layout → ℕ → ℕ → Layout
    struct_layout : Schema → FieldLayouts → ℕ → Layout

  -- The offset of a field and its layout.
  pub data FieldLayouts : Type 0 where
    no_fields : FieldLayouts
    field_layout : ℕ → Layout → FieldLayouts → FieldLayouts

abbrev pub layout_size : Layout → ℕ
layout_size (single _) = 1
layout_size (array_layout _ _ _ size) = size
layout_size (struct_layout _ _ size) = size

abbrev pub layout_schema : Layout → Schema
layout_schema (single schema) = schema
layout_schema (array_layout schema _ _ _) = schema
layout_schema (struct_layout schema _ _) = schema

-- The constructors of `Layout` for an array and for a struct, which determine the size and the offsets.
unfoldable pub make_array : Schema → Layout → ℕ → Layout
make_array schema layout count = array_layout schema layout count (count * layout_size layout)

-- The loop of the constructor of a struct, from the size reached.
unfoldable pub store_fields : ℕ → List Layout → FieldLayouts × ℕ
store_fields size [] = (no_fields, size)
store_fields size (l ∷ ls) =
    let (rest, total) = store_fields (size + layout_size l) ls in (field_layout size l rest, total)

unfoldable pub make_struct : Schema → List Layout → Layout
make_struct schema fields =
    let (stored, size) = store_fields 0 fields in struct_layout schema stored size

unfoldable mutual
  unfolding schema_eq

  pub layout_eq : Layout → Layout → Bool
  layout_eq (single s) (single t) = schema_eq s t
  layout_eq (array_layout s l m a) (array_layout t k n b) =
      a == b && schema_eq s t && m == n && layout_eq l k
  layout_eq (struct_layout s fs a) (struct_layout t gs b) =
      a == b && schema_eq s t && field_layouts_eq fs gs
  layout_eq _ _ = false

  pub field_layouts_eq : FieldLayouts → FieldLayouts → Bool
  field_layouts_eq no_fields no_fields = true
  field_layouts_eq (field_layout m l fs) (field_layout n k gs) =
      m == n && layout_eq l k && field_layouts_eq fs gs
  field_layouts_eq _ _ = false

-- The position of the first field of the name, `none` where `std::ranges::find_if` returns the end.
unfoldable pub find_field : String → Fields → Option ℕ
find_field name end = none
find_field name (field f s fs) =
    if str_eq f name then some 0 else Option.map suc (find_field name fs)

unfoldable pub get_field : FieldLayouts → ℕ → Option (ℕ × Layout)
get_field no_fields i = none
get_field (field_layout o l fs) zero = some (o, l)
get_field (field_layout o l fs) (suc i) = get_field fs i

-- `std::get<StructType>(schema).fields` and `std::get<StructLayout>(layout).fields`.
abbrev pub struct_fields : Schema → Result Fields
struct_fields (struct_type fs) = ok fs
struct_fields _ = throw bad_variant_access

abbrev pub struct_layouts : Layout → Result FieldLayouts
struct_layouts (struct_layout s fs n) = ok fs
struct_layouts _ = throw bad_variant_access

abbrev pub or_throw {ℓ} : {A : Type ℓ} → bpmnos_engine.Prelude.Error → Option A → Result A
or_throw e none = throw e
or_throw e (some a) = ok a

-- `Location`: the layout of the part addressed, and the position of its first value.
abbrev pub Location : Type 0
Location = Layout × ℕ

-- A step into a field.
unfoldable pub locate_field : String → Location → Result Location
unfolding find_field get_field
locate_field name (layout, offset) = do
  types ← struct_fields (layout_schema layout)
  k ← or_throw logic_error (find_field name types)
  fields ← struct_layouts layout
  (field_offset, l) ← or_throw undefined_behaviour (get_field fields k)
  ok (l, offset + field_offset)

-- A step into an element.
unfoldable pub locate_element : ℕ → Location → Result Location
locate_element index (array_layout schema layout count size, offset) =
    if ltb index count then ok (layout, offset + index * layout_size layout) else throw out_of_range
locate_element index (layout, offset) = throw bad_variant_access

-- The loop of `locate`: a step is a field name, or `none` for an element, which takes the next index.
unfoldable pub locate_from : Location → List (Option String) → List ℕ → Result Location
unfolding locate_field locate_element
locate_from location [] [] = ok location
locate_from location [] (i ∷ indices) = throw failed_assert
locate_from location (some name ∷ steps) indices =
    locate_field name location >>= λ next. locate_from next steps indices
locate_from location (none ∷ steps) [] = throw undefined_behaviour
locate_from location (none ∷ steps) (i ∷ indices) =
    locate_element i location >>= λ next. locate_from next steps indices

unfoldable pub locate : Layout → List (Option String) → List ℕ → Result Location
unfolding locate_from
locate layout steps indices = locate_from (layout, 0) steps indices
