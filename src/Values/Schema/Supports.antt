-- ===== src/Values/Schema/Supports.antt =====
-- model/utility/src/Schema.cpp: equality and `supports`.
use text.Mathlib.Text.{◌==◌ as str_eq}
use text.Mathlib.TextEquality.{eq_iff}
use Prim.Native.String.{String}
use bpmnos_engine.Prelude.{ℕ, ◌≡◌, refl, ◌↔◌, Bool, true, Option, arith, ◌&&◌, &&-true, true-&&}
use bpmnos_engine.Values.Number.{ValueType, value_type_eq}
use bpmnos_engine.Values.Schema.{
  Schema, Fields, value_type, array_type, struct_type, end, field, size_eq, schema_eq, fields_eq,
  size_supports, supports, fields_support,
}

value_type_eq_sound : (v w : ValueType) → value_type_eq v w ≡ true → v ≡ w
value_type_eq_sound v w h = ground arith

size_eq_sound : (m n : Option ℕ) → size_eq m n ≡ true → m ≡ n
size_eq_sound m n h = ground arith

size_eq_refl : (m : Option ℕ) → size_eq m m ≡ true
size_eq_refl m = ground arith

-- The parts of a test over the fields of two structs.
field_test :
    (f g : String) (a b : Bool) → (str_eq f g && a && b) ≡ true → (f ≡ g) × (a ≡ true) × (b ≡ true)
field_test f g a b h =
    let (fa, hb) = &&-true (str_eq f g && a) b h in
    let (e, ha) = &&-true (str_eq f g) a fa in ((eq_iff f g).0 e, ha, hb)

field_test_of : (f : String) (a b : Bool) → a ≡ true → b ≡ true → (str_eq f f && a && b) ≡ true
field_test_of f a b ha hb =
    true-&& (str_eq f f && a) b (true-&& (str_eq f f) a ((eq_iff f f).1 refl) ha) hb

mutual
  unfolding schema_eq

  schema_eq_sound : (s t : Schema) → schema_eq s t ≡ true → s ≡ t
  schema_eq_sound (value_type v) (value_type w) h = cc (value_type_eq_sound v w h)
  schema_eq_sound (array_type s m) (array_type t n) h =
      let (hm, hs) = &&-true (size_eq m n) (schema_eq s t) h in
      cc (size_eq_sound m n hm, schema_eq_sound s t hs)
  schema_eq_sound (struct_type fs) (struct_type gs) h = cc (fields_eq_sound fs gs h)
  schema_eq_sound _ _ h = cc

  fields_eq_sound : (fs gs : Fields) → fields_eq fs gs ≡ true → fs ≡ gs
  fields_eq_sound end end h = refl
  fields_eq_sound (field f s fs) (field g t gs) h =
      let (e, hs, hfs) = field_test f g (schema_eq s t) (fields_eq fs gs) h in
      cc (e, schema_eq_sound s t hs, fields_eq_sound fs gs hfs)
  fields_eq_sound _ _ h = cc

mutual
  unfolding schema_eq

  schema_eq_refl : (s : Schema) → schema_eq s s ≡ true
  schema_eq_refl (value_type v) = ground arith
  schema_eq_refl (array_type s m) = true-&& _ _ (size_eq_refl m) (schema_eq_refl s)
  schema_eq_refl (struct_type fs) = fields_eq_refl fs

  fields_eq_refl : (fs : Fields) → fields_eq fs fs ≡ true
  fields_eq_refl end = refl
  fields_eq_refl (field f s fs) = field_test_of f _ _ (schema_eq_refl s) (fields_eq_refl fs)

-- `operator==` decides equality of schemas.
pub schema_eq_iff : (s t : Schema) → (schema_eq s t ≡ true) ↔ (s ≡ t)
schema_eq_iff s t = (schema_eq_sound s t, λ e. rw (← e) (schema_eq_refl s))

size_supports_trans :
    (l m n : Option ℕ)
    → size_supports l m ≡ true
    → size_supports m n ≡ true
    → size_supports l n ≡ true
size_supports_trans l m n h k = ground arith

size_supports_antisymm :
    (m n : Option ℕ) → size_supports m n ≡ true → size_supports n m ≡ true → m ≡ n
size_supports_antisymm m n h k = ground arith

mutual
  unfolding supports

  supports_refl : (s : Schema) → supports s s ≡ true
  supports_refl (value_type v) = ground arith
  supports_refl (array_type s m) = true-&& _ _ (ground arith) (supports_refl s)
  supports_refl (struct_type fs) = fields_support_refl fs

  fields_support_refl : (fs : Fields) → fields_support fs fs ≡ true
  fields_support_refl end = refl
  fields_support_refl (field f s fs) =
      field_test_of f _ _ (supports_refl s) (fields_support_refl fs)

mutual
  unfolding supports

  supports_trans :
      (r s t : Schema) → supports r s ≡ true → supports s t ≡ true → supports r t ≡ true
  supports_trans (value_type u) (value_type v) (value_type w) h k = ground arith
  supports_trans (array_type r l) (array_type s m) (array_type t n) h k =
      let (hl, hr) = &&-true (size_supports l m) (supports r s) h in
      let (km, ks) = &&-true (size_supports m n) (supports s t) k in
      true-&& _ _ (size_supports_trans l m n hl km) (supports_trans r s t hr ks)
  supports_trans (struct_type es) (struct_type fs) (struct_type gs) h k =
      fields_support_trans es fs gs h k
  supports_trans _ _ _ h k = cc

  fields_support_trans :
      (es fs gs : Fields)
      → fields_support es fs ≡ true
      → fields_support fs gs ≡ true
      → fields_support es gs ≡ true
  fields_support_trans end end end h k = refl
  fields_support_trans (field d r es) (field f s fs) (field g t gs) h k =
      let (e, hr, hes) = field_test d f (supports r s) (fields_support es fs) h in
      let (e', ks, kfs) = field_test f g (supports s t) (fields_support fs gs) k in
      rw (e, e')
        (field_test_of g _ _ (supports_trans r s t hr ks) (fields_support_trans es fs gs hes kfs))
  fields_support_trans _ _ _ h k = cc

mutual
  unfolding supports

  supports_antisymm : (s t : Schema) → supports s t ≡ true → supports t s ≡ true → s ≡ t
  supports_antisymm (value_type v) (value_type w) h k = cc (value_type_eq_sound v w h)
  supports_antisymm (array_type s m) (array_type t n) h k =
      let (hm, hs) = &&-true (size_supports m n) (supports s t) h in
      let (kn, ks) = &&-true (size_supports n m) (supports t s) k in
      cc (size_supports_antisymm m n hm kn, supports_antisymm s t hs ks)
  supports_antisymm (struct_type fs) (struct_type gs) h k = cc (fields_support_antisymm fs gs h k)
  supports_antisymm _ _ h k = cc

  fields_support_antisymm :
      (fs gs : Fields) → fields_support fs gs ≡ true → fields_support gs fs ≡ true → fs ≡ gs
  fields_support_antisymm end end h k = refl
  fields_support_antisymm (field f s fs) (field g t gs) h k =
      let (e, hs, hfs) = field_test f g (supports s t) (fields_support fs gs) h in
      let (e', ks, kfs) = field_test g f (supports t s) (fields_support gs fs) k in
      cc (e, supports_antisymm s t hs ks, fields_support_antisymm fs gs hfs kfs)
  fields_support_antisymm _ _ h k = cc
