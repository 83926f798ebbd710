-- ===== src/Utility/Expired.antt =====
-- execution/utility/src/expired.h. A tuple is the list of its components: weak pointers, which name an object
-- by its address, and other values. The reference counts are those of the program, so that which objects are
-- alive is a parameter of everything that reads a weak pointer.
use bpmnos_engine.Prelude.{ℕ, Bool, true, false, List, [], ◌∷◌, if◌then◌else◌}

pub data Component : Type 0 where
  weak_ptr : ℕ → Component
  value : ℕ → Component

abbrev pub Tuple : Type 0
Tuple = List Component

module _ (alive : ℕ → Bool) where
  -- `expired<0>`: whether one of the initial weak pointers has expired.
  unfoldable pub expired : Tuple → Bool
  expired [] = false
  expired (weak_ptr p ∷ t) = if alive p then expired t else true
  expired (value v ∷ t) = false

  -- The tuples that iterating over a container meets.
  unfoldable pub live : List Tuple → List Tuple
  live [] = []
  live (t ∷ ts) = if expired t then live ts else t ∷ live ts
