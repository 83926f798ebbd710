-- ===== src/Engine/Headers/Matching.antt =====
-- execution/engine/src/Message.cpp: which messages a header accepts.
use Prim.Native.String.{String}
use mathlib.Core.Path.{ap₂}
use text.Mathlib.Text.{◌==◌ as str_eq}
use bpmnos_engine.Prelude.{
  ℕ, zero, suc, ◌≡◌, refl, ap, ◌↔◌, inl, inr, Bool, true, false, not, ◌&&◌, none, some, List, [],
  ◌∷◌, ◌==◌, arith, length, Bool-cases, get_elem?, map, ◌∙◌,
}
use bpmnos_engine.Prelude.Int.{ℤ}
use bpmnos_engine.Values.Number.{Value, number_eq_iff}
use bpmnos_engine.Engine.Headers.{
  conflicting, none_conflicting, matches, get_sender_header, get_recipient_header,
}

-- Headers agree when they have the same size and any two defined values at the same position are equal.
abbrev pub Agree : List Value → List Value → Type 0
Agree header other =
    (length header ≡ length other)
    × ((i : ℕ) (a b : ℤ)
        → get_elem? header i ≡ some (some a)
        → get_elem? other i ≡ some (some b)
        → a ≡ b)

Agree-cons :
    (a b : Value) (xs ys : List Value)
    → conflicting a b ≡ false
    → Agree xs ys
    → Agree (a ∷ xs) (b ∷ ys)
Agree-cons a b xs ys c (same, h) = (ap suc same, each)
  where
    each :
        (i : ℕ) (x y : ℤ)
        → get_elem? (a ∷ xs) i ≡ some (some x)
        → get_elem? (b ∷ ys) i ≡ some (some y)
        → x ≡ y
    each zero x y p q = first a b x y c (ground arith) (ground arith)
      where
        first : (u v : Value) (x y : ℤ) → conflicting u v ≡ false → u ≡ some x → v ≡ some y → x ≡ y
        first u v x y c p q = (number_eq_iff x y).0 (ground arith)
    each (suc i) x y p q = h i x y p q

conflicting-none :
    (a b : Value) → ((x y : ℤ) → a ≡ some x → b ≡ some y → x ≡ y) → conflicting a b ≡ false
conflicting-none (some x) (some y) h = ground (arith, (number_eq_iff x y).1 (h x y refl refl))
conflicting-none none b h = refl
conflicting-none (some x) none h = refl

none_conflicting-Agree :
    (header other : List Value)
    → length header ≡ length other
    → (none_conflicting header other ≡ true) ↔ Agree header other
unfolding none_conflicting
none_conflicting-Agree [] [] e = ((λ h. (e, λ i a b p q. cc)), λ h. refl)
none_conflicting-Agree (a ∷ xs) (b ∷ ys) e =
    let rest = none_conflicting-Agree xs ys (omega (arith, e)) in
    elim (Bool-cases (conflicting a b)) [
      | inl c ↦ (
        (λ h. absurd (ground arith)),
        (λ h.
            absurd (apart c (conflicting-none a b (λ x y p q. h.1 0 x y (ap some p) (ap some q))))),
      )
      | inr c ↦ (
        (λ h. Agree-cons a b xs ys c (rest.0 (ground arith))),
        (λ h. rw c (rest.1 (omega (arith, h.0), λ i. h.1 (suc i)))),
      )
    ]
  where
    apart : {t : Bool} → t ≡ true → t ≡ false → ⊥
    apart p q = ground arith
none_conflicting-Agree [] (b ∷ ys) e = absurd (ground arith)
none_conflicting-Agree (a ∷ xs) [] e = absurd (ground arith)

-- A message matches a header exactly when the two headers have the same size and agree wherever both are defined.
pub matches-Agree : (header other : List Value) → (matches header other ≡ true) ↔ Agree header other
unfolding matches
matches-Agree header other = elim (Bool-cases (length header == length other)) [
  | inl e ↦ rw e (none_conflicting-Agree header other (ground arith))
  | inr e ↦ rw e ((λ h. cc), (λ h. absurd (ground (arith, h.0))))
]

-- The keys that a definition adds to those of the sender and the recipient.
abbrev pub AreAdditional : List String → Type 0
AreAdditional [] = Unit
AreAdditional (key ∷ keys) =
    (str_eq key "sender" ≡ false) × (str_eq key "recipient" ≡ false) × AreAdditional keys

sender-additional :
    (value : String → Value) (a : ℤ) (keys : List String)
    → AreAdditional keys
    → get_sender_header value a keys ≡ map value keys
unfolding get_sender_header
sender-additional value a [] h = refl
sender-additional value a (key ∷ keys) h =
    rw (h.0) (ap (◌∷◌ (value key)) (sender-additional value a keys h.2))

recipient-additional :
    (value : String → Value) (b : ℤ) (keys : List String)
    → AreAdditional keys
    → get_recipient_header value b keys ≡ map value keys
unfolding get_recipient_header
recipient-additional value b [] h = refl
recipient-additional value b (key ∷ keys) h =
    rw (h.1) (ap (◌∷◌ (value key)) (recipient-additional value b keys h.2))

sender_first :
    (value : String → Value) (a : ℤ) (keys : List String)
    → AreAdditional keys
    → get_sender_header value a ("sender" ∷ "recipient" ∷ keys)
      ≡ some a ∷ value "recipient" ∷ map value keys
unfolding get_sender_header
sender_first value a keys h =
    ap (λ r. some a ∷ value "recipient" ∷ r) (sender-additional value a keys h)

recipient_second :
    (value : String → Value) (b : ℤ) (keys : List String)
    → AreAdditional keys
    → get_recipient_header value b ("sender" ∷ "recipient" ∷ keys)
      ≡ value "sender" ∷ some b ∷ map value keys
unfolding get_recipient_header
recipient_second value b keys h =
    ap (λ r. value "sender" ∷ some b ∷ r) (recipient-additional value b keys h)

matches-cons :
    (a b : Value) (xs ys : List Value)
    → matches (a ∷ xs) (b ∷ ys) ≡ (not (conflicting a b) && matches xs ys)
unfolding matches none_conflicting
matches-cons a b xs ys = ground arith

-- The header that a message carries matches the header that a waiting token presents exactly when the token asks
-- for no other sender, the message names no other recipient, and the additional parameters, under the same keys,
-- match.
pub matches-sender_recipient :
    (sent expected : String → Value) (a b : ℤ) (keys : List String)
    → AreAdditional keys
    → matches
        (get_sender_header sent a ("sender" ∷ "recipient" ∷ keys))
        (get_recipient_header expected b ("sender" ∷ "recipient" ∷ keys))
      ≡ (not (conflicting (some a) (expected "sender"))
          && (not (conflicting (sent "recipient") (some b))
              && matches (map sent keys) (map expected keys)))
matches-sender_recipient sent expected a b keys h =
    ap₂ matches (sender_first sent a keys h) (recipient_second expected b keys h)
    ∙ matches-cons (some a) (expected "sender") (sent "recipient" ∷ map sent keys)
        (some b ∷ map expected keys)
    ∙ ap (λ m. not (conflicting (some a) (expected "sender")) && m)
        (matches-cons (sent "recipient") (some b) (map sent keys) (map expected keys))
