-- ===== src/Values/StringRegistry.antt =====
-- model/utility/src/StringRegistry.h and StringRegistry.cpp: strings represented by numbers. Registering a string reads
-- under a shared lock, gives it up, and inserts under an exclusive lock, so that others may register in between.
pub mod Interned
use Prim.Native.String.{String}
use text.Mathlib.Text.{◌==◌ as str_eq}
use bpmnos_engine.Prelude.{
  ℕ, suc, ◌-◌, ◌==◌, Option, none, some, List, [], ◌∷◌, ◌++◌, if◌then◌else◌, Result, ok, throw,
  ◌>>=◌, failed_assert, length, get_elem?,
}

pub record StringRegistry : Type 0 where
  pub registered_strings : List String
  pub index : List (String × ℕ)

unfoldable pub find_index : List (String × ℕ) → String → Option ℕ
find_index [] s = none
find_index ((t, i) ∷ rest) s = if str_eq t s then some i else find_index rest s

-- The indices and the strings are as many.
abbrev pub assert_sizes : StringRegistry → ℕ → Result (ℕ × StringRegistry)
assert_sizes r i =
    if length r.index == length r.registered_strings then ok (i, r) else throw failed_assert

-- The string has got the number of the strings so far.
abbrev pub push_back : String → StringRegistry → StringRegistry
push_back s r = record {
  registered_strings = r.registered_strings ++ s ∷ [];
  index = (s, length r.index) ∷ r.index;
}

abbrev pub emplaced : String → Option ℕ → StringRegistry → Result (ℕ × StringRegistry)
emplaced s (some i) r = assert_sizes r i
emplaced s none r = assert_sizes (push_back s r) (length (push_back s r).registered_strings - 1)

-- What is done under the exclusive lock.
unfoldable pub try_emplace : String → StringRegistry → Result (ℕ × StringRegistry)
unfolding find_index
try_emplace s r = emplaced s (find_index r.index s) r

abbrev pub or_emplace : String → Option ℕ → StringRegistry → Result (ℕ × StringRegistry)
or_emplace s (some i) later = ok (i, later)
or_emplace s none later = try_emplace s later

-- `operator()`, on the registry at the time of reading and at the time of inserting.
unfoldable pub register : String → StringRegistry → StringRegistry → Result (ℕ × StringRegistry)
unfolding find_index
register s r later = or_emplace s (find_index r.index s) later

-- `operator[]`
abbrev pub or_failed : Option String → Result String
or_failed none = throw failed_assert
or_failed (some s) = ok s

unfoldable pub string_at : StringRegistry → ℕ → Result String
string_at r i = or_failed (get_elem? r.registered_strings i)

unfoldable pub clear : StringRegistry → StringRegistry
clear r = record {
  registered_strings = "false" ∷ "true" ∷ [];
  index = ("true", 1) ∷ ("false", 0) ∷ [];
}

-- The constructor, which no other thread can interrupt.
unfoldable pub new_registry : Result StringRegistry
unfolding register
new_registry =
    let empty : StringRegistry = record { registered_strings = []; index = [] } in
    register "false" empty empty >>= λ (i, r). register "true" r r >>= λ (j, v). ok v
