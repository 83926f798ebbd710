-- ===== src/Values/Objects/Resized.antt =====
-- model/utility/src/Object.cpp: the layouts that `rebuild` makes.
use Prim.Native.String.{String}
use bpmnos_engine.Prelude.{ℕ, ◌+◌, ◌≡◌, ap, sym, inl, inr, Option, Bool-cases}
use bpmnos_engine.Values.Schema.{Schema, Fields, array_type, end, field, schema_eq}
use bpmnos_engine.Values.Schema.Supports.{schema_eq_iff}
use bpmnos_engine.Values.Layout.{
  Layout, FieldLayouts, no_fields, field_layout, layout_size, layout_schema,
}
use bpmnos_engine.Values.Layout.Agree.{AreFields, FieldsAgree}
use bpmnos_engine.Values.Objects.{field_layouts_of, element_schema}

pub element_schema-eq :
    (schema : Schema) (size : Option ℕ) (old new : Layout)
    → schema ≡ array_type (layout_schema old) size
    → element_schema schema size old new ≡ array_type (layout_schema new) size
unfolding element_schema
element_schema-eq schema size old new h =
    elim (Bool-cases (schema_eq (layout_schema new) (layout_schema old))) [
      | inl e ↦ rw e (rw h (ap (λ s. array_type s size) (sym ((schema_eq_iff _ _).0 e))))
      | inr e ↦ rw e
    ]

pub field_layouts_of-FieldsAgree :
    (offset : ℕ) (types : Fields) (size : ℕ) (fs : FieldLayouts)
    → AreFields offset types size fs
    → FieldsAgree types (field_layouts_of fs)
unfolding field_layouts_of
field_layouts_of-FieldsAgree offset end size no_fields h = tt
field_layouts_of-FieldsAgree offset (field f s types) size (field_layout o l fs) h =
    (h.1, h.2, field_layouts_of-FieldsAgree (offset + layout_size l) types size fs h.3)
field_layouts_of-FieldsAgree offset end size (field_layout o l fs) h = absurd h
field_layouts_of-FieldsAgree offset (field f s types) size no_fields h = absurd h
