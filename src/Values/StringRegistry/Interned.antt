-- ===== src/Values/StringRegistry/Interned.antt =====
-- model/utility/src/StringRegistry.cpp: numbers and strings determine each other, whatever happens between reading and
-- inserting.
use Prim.Native.String.{String}
use text.Mathlib.Text.{◌==◌ as str_eq}
use text.Mathlib.TextEquality.{eq_iff}
use bpmnos_engine.Prelude.{
  ℕ, zero, suc, ◌-◌, ◌≡◌, refl, sym, ap, ◌∙◌, ◌↔◌, ◌⊎◌, inl, inr, true, false, Option, none, some,
  List, [], ◌∷◌, ◌++◌, arith, Bool-cases, Option-cases, if◌then◌else◌, ◌==◌, Result, ok, throw,
  length, length-append, get_elem?, failed_assert,
}
use bpmnos_engine.Values.StringRegistry.{
  StringRegistry, find_index, push_back, assert_sizes, emplaced, try_emplace, or_emplace, register,
  string_at, or_failed, clear,
}

-- A registry numbers its strings by their positions.
pub record IsRegistry (r : StringRegistry) : Type 0 where
  pub sizes : length r.index ≡ length r.registered_strings
  pub found :
      (s : String) (i : ℕ)
      → find_index r.index s ≡ some i
      → get_elem? r.registered_strings i ≡ some s
  pub indexed :
      (s : String) (i : ℕ)
      → get_elem? r.registered_strings i ≡ some s
      → find_index r.index s ≡ some i

-- What was registered keeps its number.
abbrev pub Extends : StringRegistry → StringRegistry → Type 0
Extends r v =
    (s : String) (i : ℕ)
    → get_elem? r.registered_strings i ≡ some s
    → get_elem? v.registered_strings i ≡ some s

pub record Interned (s : String) (later : StringRegistry) (i : ℕ) (v : StringRegistry)
    : Type 0 where
  pub well_formed : IsRegistry v
  pub extends : Extends later v
  pub read_back : string_at v i ≡ ok s
  pub unique : (j : ℕ) → string_at v j ≡ ok s → j ≡ i

get_elem?_last : (xs : List String) (s : String) → get_elem? (xs ++ s ∷ []) (length xs) ≡ some s
get_elem?_last [] s = refl
get_elem?_last (x ∷ xs) s = get_elem?_last xs s

get_elem?-append :
    (xs ys : List String) (i : ℕ) (s : String)
    → get_elem? xs i ≡ some s
    → get_elem? (xs ++ ys) i ≡ some s
get_elem?-append [] ys i s h = cc
get_elem?-append (x ∷ xs) ys zero s h = h
get_elem?-append (x ∷ xs) ys (suc i) s h = get_elem?-append xs ys i s h

get_elem?-append_inv :
    (xs : List String) (s t : String) (i : ℕ)
    → get_elem? (xs ++ s ∷ []) i ≡ some t
    → (get_elem? xs i ≡ some t) ⊎ ((i ≡ length xs) × (t ≡ s))
get_elem?-append_inv [] s t zero h = inr (refl, cc)
get_elem?-append_inv [] s t (suc i) h = cc
get_elem?-append_inv (x ∷ xs) s t zero h = inl h
get_elem?-append_inv (x ∷ xs) s t (suc i) h = elim (get_elem?-append_inv xs s t i h) [
  | inl e ↦ inl e
  | inr (e, f) ↦ inr (ap suc e, f)
]

str_eq_refl : (s : String) → str_eq s s ≡ true
str_eq_refl s = (eq_iff s s).1 refl

or_failed_iff : (o : Option String) (s : String) → (or_failed o ≡ ok s) ↔ (o ≡ some s)
or_failed_iff none s = (λ h. cc, λ h. cc)
or_failed_iff (some t) s = (λ h. cc, λ h. cc)

string_at_iff :
    (r : StringRegistry) (i : ℕ) (s : String)
    → (string_at r i ≡ ok s) ↔ (get_elem? r.registered_strings i ≡ some s)
unfolding string_at
string_at_iff r i s = or_failed_iff (get_elem? r.registered_strings i) s

-- The first entry of an index decides for its own string only.
find_index_other :
    (s t : String) (i : ℕ) (xs : List (String × ℕ))
    → str_eq s t ≡ false
    → find_index ((s, i) ∷ xs) t ≡ find_index xs t
unfolding find_index
find_index_other s t i xs h = rw h refl

find_index_self :
    (s t : String) (i : ℕ) (xs : List (String × ℕ))
    → str_eq s t ≡ true
    → find_index ((s, i) ∷ xs) t ≡ some i
unfolding find_index
find_index_self s t i xs h = rw h refl

push_back-found :
    (s : String) (r : StringRegistry)
    → IsRegistry r
    → (t : String) (i : ℕ) → find_index (push_back s r).index t ≡ some i
    → get_elem? (push_back s r).registered_strings i ≡ some t
push_back-found s r p t i h = elim (Bool-cases (str_eq s t)) [
  | inl e ↦
      let at_end : length r.index ≡ i = cc (h, find_index_self s t (length r.index) r.index e) in
      cc (get_elem?_last r.registered_strings s, (eq_iff s t).0 e, at_end, p.sizes)
  | inr e ↦
      get_elem?-append r.registered_strings (s ∷ []) i t
        (p.found t i (sym (find_index_other s t (length r.index) r.index e) ∙ h))
]

push_back-indexed :
    (s : String) (r : StringRegistry)
    → IsRegistry r
    → find_index r.index s ≡ none
    → (t : String) (i : ℕ) → get_elem? (push_back s r).registered_strings i ≡ some t
    → find_index (push_back s r).index t ≡ some i
push_back-indexed s r p absent t i h = elim (get_elem?-append_inv r.registered_strings s t i h) [
  | inl e ↦ elim (Bool-cases (str_eq s t)) [
    | inl same ↦ absurd (absence t (p.indexed t i e) ((eq_iff s t).0 same))
    | inr other ↦ find_index_other s t (length r.index) r.index other ∙ p.indexed t i e
  ]
  | inr (e, f) ↦
      find_index_self s t (length r.index) r.index ((eq_iff s t).1 (sym f))
      ∙ ap some (p.sizes ∙ sym e)
]
  where
    absence : (t : String) → find_index r.index t ≡ some i → s ≡ t → ⊥
    absence t g e = cc (absent, g, e)

pub push_back-IsRegistry :
    (s : String) (r : StringRegistry)
    → IsRegistry r
    → find_index r.index s ≡ none
    → IsRegistry (push_back s r)
push_back-IsRegistry s r p absent = record {
  sizes = omega (arith, p.sizes, length-append r.registered_strings (s ∷ []));
  found = push_back-found s r p;
  indexed = push_back-indexed s r p absent;
}

-- A string that has a number in a well-formed registry has no other.
registered-Interned :
    (s : String) (r v : StringRegistry) (i : ℕ)
    → IsRegistry v
    → Extends r v
    → find_index v.index s ≡ some i
    → Interned s r i v
registered-Interned s r v i p e h = record {
  well_formed = p;
  extends = e;
  read_back = (string_at_iff v i s).1 (p.found s i h);
  unique = λ j g. cc (h, p.indexed s j ((string_at_iff v j s).0 g));
}

assert_sizes_ok : (r : StringRegistry) (i : ℕ) → IsRegistry r → assert_sizes r i ≡ ok (i, r)
assert_sizes_ok r i p = rw (p.sizes) (same_size (length r.registered_strings))
  where
    same_size :
        (n : ℕ)
        → if◌then◌else◌ {A = Result (ℕ × StringRegistry)} (n == n) (ok (i, r)) (throw failed_assert)
          ≡ ok (i, r)
    same_size n = ground arith

try_emplace-Interned :
    (s : String) (r : StringRegistry)
    → IsRegistry r
    → (i : ℕ) × (v : StringRegistry) × (try_emplace s r ≡ ok (i, v)) × Interned s r i v
unfolding try_emplace
try_emplace-Interned s r p = elim (Option-cases (find_index r.index s)) [
  | inr (i, e) ↦ (
    i,
    r,
    ap (λ o. emplaced s o r) e ∙ assert_sizes_ok r i p,
    registered-Interned s r r i p (λ t j h. h) e,
  )
  | inl e ↦
      let q : IsRegistry (push_back s r) = push_back-IsRegistry s r p e in
      let n : ℕ = length r.registered_strings in
      let last_index : length (r.registered_strings ++ s ∷ []) - 1 ≡ n =
        omega (arith, length-append r.registered_strings (s ∷ [])) in
      (
        n,
        push_back s r,
        ap (λ o. emplaced s o r) e
            ∙ assert_sizes_ok (push_back s r) (length (r.registered_strings ++ s ∷ []) - 1) q
            ∙ ap (λ k. ok (k, push_back s r)) last_index,
        registered-Interned s r (push_back s r) n q
            (λ t j h. get_elem?-append r.registered_strings (s ∷ []) j t h)
            (push_back-indexed s r p e s n (get_elem?_last r.registered_strings s)),
      )
]

-- Registering a string in a well-formed registry, which other registrations may extend in the meantime to another one, succeeds: the number that it
-- returns is the only one of the string in the resulting registry, which is well-formed and keeps all other numbers.
pub register-Interned :
    (s : String) (r later : StringRegistry)
    → IsRegistry r
    → IsRegistry later
    → Extends r later
    → (i : ℕ) × (v : StringRegistry) × (register s r later ≡ ok (i, v)) × Interned s later i v
unfolding register
register-Interned s r later p q e = elim (Option-cases (find_index r.index s)) [
  | inr (i, h) ↦ (
    i,
    later,
    ap (λ o. or_emplace s o later) h,
    registered-Interned s later later i q (λ t j g. g) (q.indexed s i (e s i (p.found s i h))),
  )
  | inl h ↦
      let (i, v, run, done) = try_emplace-Interned s later q in
      (i, v, ap (λ o. or_emplace s o later) h ∙ run, done)
]

-- Clearing leaves a well-formed registry, in which "false" has the number 0 and "true" the number 1.
pub clear-IsRegistry :
    (r : StringRegistry)
    → IsRegistry (clear r)
      × (string_at (clear r) 0 ≡ ok "false")
      × (string_at (clear r) 1 ≡ ok "true")
unfolding clear string_at find_index
clear-IsRegistry r = (
  push_back-IsRegistry "true" (push_back "false" empty)
      (push_back-IsRegistry "false" empty nothing refl) refl,
  refl,
  refl,
)
  where
    empty : StringRegistry
    empty = record { registered_strings = []; index = [] }

    nothing : IsRegistry empty
    nothing = record { sizes = refl; found = λ s i h. cc; indexed = λ s i h. cc }
