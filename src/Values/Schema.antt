-- ===== src/Values/Schema.antt =====
-- model/utility/src/Schema.h and Schema.cpp. A schema refers to the schemas it contains through shared pointers to
-- constants, which are their values here.
pub mod Supports
use Prim.Native.String.{String}
use text.Mathlib.Text.{◌==◌ as str_eq}
use bpmnos_engine.Prelude.{ℕ, Bool, true, false, Option, none, some, ◌&&◌, ◌||◌, ◌==◌}
use bpmnos_engine.Values.Number.{ValueType, value_type_eq}

-- `std::variant<ValueType, ArrayType, StructType>`; an array is fixed if its size is given and open otherwise.
mutual
  pub data Schema : Type 0 where
    value_type : ValueType → Schema
    array_type : Schema → Option ℕ → Schema
    struct_type : Fields → Schema

  pub data Fields : Type 0 where
    end : Fields
    field : String → Schema → Fields → Fields

abbrev pub size_eq : Option ℕ → Option ℕ → Bool
size_eq none none = true
size_eq (some m) (some n) = m == n
size_eq _ _ = false

-- `operator==`, `std::ranges::equal` on the fields.
unfoldable mutual
  pub schema_eq : Schema → Schema → Bool
  schema_eq (value_type v) (value_type w) = value_type_eq v w
  schema_eq (array_type s m) (array_type t n) = size_eq m n && schema_eq s t
  schema_eq (struct_type fs) (struct_type gs) = fields_eq fs gs
  schema_eq _ _ = false

  pub fields_eq : Fields → Fields → Bool
  fields_eq end end = true
  fields_eq (field f s fs) (field g t gs) = str_eq f g && schema_eq s t && fields_eq fs gs
  fields_eq _ _ = false

-- The array is open, or both are fixed at the same size.
abbrev pub size_supports : Option ℕ → Option ℕ → Bool
size_supports none n = true
size_supports (some m) n = size_eq (some m) n

unfoldable mutual
  pub supports : Schema → Schema → Bool
  supports (value_type v) (value_type w) = value_type_eq v w
  supports (array_type s m) (array_type t n) = size_supports m n && supports s t
  supports (struct_type fs) (struct_type gs) = fields_support fs gs
  supports _ _ = false

  pub fields_support : Fields → Fields → Bool
  fields_support end end = true
  fields_support (field f s fs) (field g t gs) = str_eq f g && supports s t && fields_support fs gs
  fields_support _ _ = false
