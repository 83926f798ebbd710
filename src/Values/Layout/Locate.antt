-- ===== src/Values/Layout/Locate.antt =====
-- model/utility/src/Object.cpp: `locate` stays within the object.
use Prim.Native.String.{String}
use bpmnos_engine.Prelude.{
  ℕ, zero, suc, ◌+◌, ◌*◌, ◌≤◌, ◌<◌, ◌≡◌, inl, inr, Option, none, some, List, [], ◌∷◌, arith, ltb,
  Bool-cases, Option-cases, ok, >>=-eq-ok, ltb→lt,
}
use bpmnos_engine.Values.Schema.{Schema, Fields, struct_type, end, field}
use bpmnos_engine.Values.Layout.{
  Layout, FieldLayouts, Location, single, array_layout, struct_layout, no_fields, field_layout,
  layout_size, find_field, get_field, locate_field, locate_element, locate_from, locate,
}
use bpmnos_engine.Values.Layout.Agree.{IsLayout, AreFields, AreFields-le}

-- The part lies within the object of the layout, and is laid out properly.
abbrev pub Within : Layout → ℕ → Location → Type 0
Within whole start (l, offset) =
    IsLayout l × (start ≤ offset) × (offset + layout_size l ≤ start + layout_size whole)

get_field-AreFields :
    (start : ℕ) (types : Fields) (size : ℕ) (fs : FieldLayouts) (k : ℕ) (l : Layout) (o : ℕ)
    → AreFields start types size fs
    → get_field fs k ≡ some (o, l)
    → IsLayout l × (start ≤ o) × (o + layout_size l ≤ size)
unfolding get_field
get_field-AreFields start end size no_fields k l o h e = cc
get_field-AreFields start (field name s types) size (field_layout o' l' fs) zero l o h e =
    let el : l' ≡ l = cc in
    let eo : o' ≡ o = cc in
    rw (← el) (h.2, omega (arith, h.0, eo), omega (arith, h.0, eo, AreFields-le _ _ _ _ h.3))
get_field-AreFields start (field name s types) size (field_layout o' l' fs) (suc k) l o h e =
    let (good, from, to) = get_field-AreFields (start + layout_size l') types size fs k l o h.3 e in
    (good, omega (arith, from), to)
get_field-AreFields start end size (field_layout o' l' fs) k l o h e = absurd h
get_field-AreFields start (field name s types) size no_fields k l o h e = absurd h

-- What a step into a field gives, when the field is found.
locate_field-found :
    (name : String) (s : Schema) (types : Fields) (fs : FieldLayouts) (size offset k : ℕ)
    (r : Location)
    → s ≡ struct_type types
    → AreFields 0 types size fs
    → find_field name types ≡ some k
    → locate_field name (struct_layout s fs size, offset) ≡ ok r
    → Within (struct_layout s fs size) offset r
unfolding locate_field
locate_field-found name s types fs size offset k (l, o) e h ek q =
    elim (Option-cases (get_field fs k)) [
      | inl eg ↦ absurd (ground arith)
      | inr ((fo, l'), eg) ↦
          let el : l' ≡ l = ground arith in
          let eo : offset + fo ≡ o = ground arith in
          let (good, from, to) = get_field-AreFields 0 types size fs k l' fo h eg in
          rw (← el, ← eo) (good, omega arith, omega arith)
    ]

locate_field-Within :
    (name : String) (l : Layout) (offset : ℕ) (r : Location)
    → IsLayout l
    → locate_field name (l, offset) ≡ ok r
    → Within l offset r
locate_field-Within name (struct_layout s fs size) offset r (types, e, h) q =
    elim (Option-cases (find_field name types)) [
      | inl n ↦ absurd (unfold locate_field in ground arith)
      | inr (k, ek) ↦ locate_field-found name s types fs size offset k r e h ek q
    ]
locate_field-Within name (single s) offset r (v, e) q = absurd (unfold locate_field in ground arith)
locate_field-Within name (array_layout s l n size) offset r (m, e, rest, z, h) q =
    absurd (unfold locate_field in ground arith)

element_end : (i n size : ℕ) → i < n → i * size + size ≤ n * size
element_end i n size h = grind arith

locate_element-Within :
    (i : ℕ) (l : Layout) (offset : ℕ) (r : Location)
    → IsLayout l
    → locate_element i (l, offset) ≡ ok r
    → Within l offset r
unfolding locate_element
locate_element-Within i (array_layout s e n size) offset (l, o) (m, es, f, sz, h) q =
    elim (Bool-cases (ltb i n)) [
      | inl t ↦
          let el : e ≡ l = ground arith in
          let eo : offset + i * layout_size e ≡ o = ground arith in
          rw (← el, ← eo)
            (h, omega arith, omega (arith, element_end i n (layout_size e) (ltb→lt i n t)))
      | inr t ↦ absurd (ground arith)
    ]
locate_element-Within i (single s) offset r h q = absurd (ground arith)
locate_element-Within i (struct_layout s fs n) offset r h q = absurd (ground arith)

Within-trans :
    (whole part : Layout) (start from : ℕ) (r : Location)
    → Within whole start (part, from)
    → Within part from r
    → Within whole start r
Within-trans whole part start from (l, o) h k = (k.0, omega (arith, h, k), omega (arith, h, k))

locate_from-Within :
    (steps : List (Option String)) (indices : List ℕ) (l : Layout) (offset : ℕ) (r : Location)
    → IsLayout l
    → locate_from (l, offset) steps indices ≡ ok r
    → Within l offset r
unfolding locate_from
locate_from-Within [] [] l offset (l', o) h q =
    let el : l ≡ l' = cc in
    let eo : offset ≡ o = cc in rw (← el, ← eo) (h, omega arith, omega arith)
locate_from-Within [] (i ∷ indices) l offset r h q = cc
locate_from-Within (none ∷ steps) [] l offset r h q = cc
locate_from-Within (some name ∷ steps) indices l offset r h q =
    let ((part, from), e, rest) =
      >>=-eq-ok (locate_field name (l, offset)) (λ next. locate_from next steps indices) q in
    let first = locate_field-Within name l offset (part, from) h e in
    Within-trans l part offset from r first
      (locate_from-Within steps indices part from r first.0 rest)
locate_from-Within (none ∷ steps) (i ∷ indices) l offset r h q =
    let ((part, from), e, rest) =
      >>=-eq-ok (locate_element i (l, offset)) (λ next. locate_from next steps indices) q in
    let first = locate_element-Within i l offset (part, from) h e in
    Within-trans l part offset from r first
      (locate_from-Within steps indices part from r first.0 rest)

-- Whatever part of an object a path addresses, `locate` gives a proper layout and a position such that all values
-- of the part are values of the object.
pub locate-Within :
    (l : Layout) (steps : List (Option String)) (indices : List ℕ) (part : Layout) (offset : ℕ)
    → IsLayout l
    → locate l steps indices ≡ ok (part, offset)
    → IsLayout part × (offset + layout_size part ≤ layout_size l)
unfolding locate
locate-Within l steps indices part offset h q =
    let w = locate_from-Within steps indices l 0 (part, offset) h q in (w.0, omega (arith, w.2))
