-- ===== src/Tests/ValueTests.antt =====
-- Runs of the operations on schemas and objects.
use bpmnos_engine.Prelude.{
  ℕ, get_elem?, zero, suc, ◌≡◌, ◌≤◌, ◌+◌, refl, none, some, List, [], ◌∷◌, ok,
}
use Prim.Native.String.{String}
use bpmnos_engine.Prelude.Int.{pos}
use bpmnos_engine.Values.Number.{Value, integer, decimal}
use bpmnos_engine.Values.Schema.{Fields, value_type, array_type, struct_type, end, field}
use bpmnos_engine.Values.StringRegistry.{
  StringRegistry, push_back, find_index, register, try_emplace, clear, new_registry,
}
use bpmnos_engine.Values.StringRegistry.Interned.{
  IsRegistry, Interned, push_back-IsRegistry, register-Interned, clear-IsRegistry,
}
use bpmnos_engine.Values.Layout.{
  Layout, single, array_layout, struct_layout, no_fields, field_layout, layout_size, locate,
  store_fields,
}
use bpmnos_engine.Values.Layout.Agree.{IsLayout}
use bpmnos_engine.Values.Layout.Locate.{locate-Within}
use bpmnos_engine.Values.Objects.{rebuild}
use bpmnos_engine.Tests.Worlds.{value_or}

-- The type of `{ demand: INTEGER, slots: DECIMAL[3] }`, and its layout.
abbrev order_types : Fields
order_types =
    field "demand" (value_type integer)
      (field "slots" (array_type (value_type decimal) (some 3)) end)

abbrev slots : Layout
slots = array_layout (array_type (value_type decimal) (some 3)) (single (value_type decimal)) 3 3

abbrev order : Layout
order =
    struct_layout (struct_type order_types)
      (field_layout 0 (single (value_type integer)) (field_layout 1 slots no_fields)) 4

order-IsLayout : IsLayout order
order-IsLayout = (
  order_types,
  refl,
  (refl, refl, (integer, refl), (refl, refl, (some 3, refl, refl, refl, (decimal, refl)), refl)),
)

third_slot : locate order (some "slots" ∷ none ∷ []) (2 ∷ []) ≡ ok (single (value_type decimal), 3)
unfolding locate
third_slot = refl

locate-Within_example : IsLayout (single (value_type decimal)) × (3 + 1 ≤ 4)
locate-Within_example =
    locate-Within order (some "slots" ∷ none ∷ []) (2 ∷ []) (single (value_type decimal)) 3
      order-IsLayout third_slot

abbrev resized : Layout
resized = value_or order (rebuild order (some "slots" ∷ []) 5)

resized_size : layout_size resized ≡ 6
unfolding rebuild store_fields
resized_size = refl

abbrev one_way : List Value
one_way = some (pos 1) ∷ none ∷ []

abbrev other_way : List Value
other_way = none ∷ some (pos 1) ∷ []

-- The constructor registers what clearing leaves.
abbrev no_strings : StringRegistry
no_strings = record { registered_strings = []; index = [] }

new_registry_cleared : new_registry ≡ ok (clear no_strings)
unfolding new_registry register clear try_emplace
new_registry_cleared = refl

-- The registry `false`, `true`, in which the string "x" is about to be registered when another thread registers "y".
abbrev read_registry : StringRegistry
read_registry = record {
  registered_strings = "false" ∷ "true" ∷ [];
  index = ("true", 1) ∷ ("false", 0) ∷ [];
}

abbrev later_registry : StringRegistry
later_registry = push_back "y" read_registry

read-IsRegistry : IsRegistry read_registry
unfolding clear
read-IsRegistry = (clear-IsRegistry no_strings).0

later-IsRegistry : IsRegistry later_registry
unfolding find_index
later-IsRegistry = push_back-IsRegistry "y" read_registry read-IsRegistry refl

register-Interned_example :
    (i : ℕ) × (v : StringRegistry) × (register "x" read_registry later_registry ≡ ok (i, v))
    × Interned "x" later_registry i v
register-Interned_example =
    register-Interned "x" read_registry later_registry read-IsRegistry later-IsRegistry extended
  where
    extended :
        (s : String) (i : ℕ)
        → get_elem? read_registry.registered_strings i ≡ some s
        → get_elem? later_registry.registered_strings i ≡ some s
    extended s zero h = h
    extended s (suc zero) h = h
    extended s (suc (suc i)) h = cc
