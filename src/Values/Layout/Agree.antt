-- ===== src/Values/Layout/Agree.antt =====
-- model/utility/src/Object.h: what the comment on `Layout` states, that a layout and its schema agree.
use bpmnos_engine.Prelude.{ℕ, ◌+◌, ◌*◌, ◌≤◌, ◌≡◌, refl, Option, none, some, List, [], ◌∷◌, arith}
use bpmnos_engine.Values.Number.{ValueType}
use bpmnos_engine.Values.Schema.{Schema, Fields, value_type, array_type, struct_type, end, field}
use bpmnos_engine.Values.Layout.{
  Layout, FieldLayouts, single, array_layout, struct_layout, no_fields, field_layout, layout_size,
  layout_schema, make_array, store_fields, make_struct,
}

-- An array the schema fixes has the size the schema states.
abbrev pub FixedAt : Option ℕ → ℕ → Type 0
FixedAt none n = Unit
FixedAt (some m) n = m ≡ n

-- The layout has the structure of its schema, every element and field refers to the part of the schema it lays
-- out, and the sizes and offsets are those of the values stored one after the other.
abbrev mutual
  pub IsLayout : Layout → Type 0
  IsLayout (single s) = (v : ValueType) × (s ≡ value_type v)
  IsLayout (array_layout s l count size) =
      (m : Option ℕ) × (s ≡ array_type (layout_schema l) m)
      × FixedAt m count
      × (size ≡ count * layout_size l)
      × IsLayout l
  IsLayout (struct_layout s fs size) =
      (types : Fields) × (s ≡ struct_type types) × AreFields 0 types size fs

  pub AreFields : ℕ → Fields → ℕ → FieldLayouts → Type 0
  AreFields offset end size no_fields = offset ≡ size
  AreFields offset (field name s types) size (field_layout o l fs) =
      (o ≡ offset)
      × (layout_schema l ≡ s)
      × IsLayout l
      × AreFields (offset + layout_size l) types size fs
  AreFields _ _ _ _ = ⊥

pub make_array-IsLayout :
    (s : Schema) (m : Option ℕ) (l : Layout) (count : ℕ)
    → s ≡ array_type (layout_schema l) m
    → FixedAt m count
    → IsLayout l
    → IsLayout (make_array s l count)
unfolding make_array
make_array-IsLayout s m l count e f h = (m, e, f, refl, h)

-- The layouts of the fields, each agreeing with the type of its field.
abbrev pub FieldsAgree : Fields → List Layout → Type 0
FieldsAgree end [] = Unit
FieldsAgree (field name s types) (l ∷ ls) =
    (layout_schema l ≡ s) × IsLayout l × FieldsAgree types ls
FieldsAgree _ _ = ⊥

store_fields-AreFields :
    (offset : ℕ) (types : Fields) (ls : List Layout)
    → FieldsAgree types ls
    → AreFields offset types (store_fields offset ls).1 (store_fields offset ls).0
unfolding store_fields
store_fields-AreFields offset end [] h = refl
store_fields-AreFields offset (field name s types) (l ∷ ls) h =
    (refl, h.0, h.1, store_fields-AreFields (offset + layout_size l) types ls h.2)
store_fields-AreFields offset end (l ∷ ls) h = absurd h
store_fields-AreFields offset (field name s types) [] h = absurd h

pub make_struct-IsLayout :
    (types : Fields) (ls : List Layout)
    → FieldsAgree types ls
    → IsLayout (make_struct (struct_type types) ls)
unfolding make_struct
make_struct-IsLayout types ls h = (types, refl, store_fields-AreFields 0 types ls h)

-- The fields of a struct end within its size.
pub AreFields-le :
    (offset : ℕ) (types : Fields) (size : ℕ) (fs : FieldLayouts)
    → AreFields offset types size fs
    → offset ≤ size
AreFields-le offset end size no_fields h = omega arith
AreFields-le offset (field name s types) size (field_layout o l fs) h =
    omega (arith, AreFields-le (offset + layout_size l) types size fs h.3)
AreFields-le offset end size (field_layout o l fs) h = absurd h
AreFields-le offset (field name s types) size no_fields h = absurd h
