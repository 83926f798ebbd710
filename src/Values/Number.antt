-- ===== src/Values/Number.antt =====
-- model/utility/src/Number.h and Value.h. A number is a 64-bit integer counting millionths, here the integer
-- without its bounds; a value may be undefined.
use bpmnos_engine.Prelude.{◌≡◌, ◌↔◌, Bool, true, false, Option, none, some, arith, ◌==◌}
use bpmnos_engine.Prelude.Int.{ℤ, pos, negsuc}

abbrev pub Value : Type 0
Value = Option ℤ

-- `BOOLEAN, INTEGER, DECIMAL, STRING`
pub data ValueType : Type 0 where
  boolean integer decimal string : ValueType

abbrev pub value_type_eq : ValueType → ValueType → Bool
value_type_eq boolean boolean = true
value_type_eq integer integer = true
value_type_eq decimal decimal = true
value_type_eq string string = true
value_type_eq _ _ = false

abbrev pub number_eq : ℤ → ℤ → Bool
number_eq (pos a) (pos b) = a == b
number_eq (negsuc a) (negsuc b) = a == b
number_eq _ _ = false

pub number_eq_iff : (a b : ℤ) → (number_eq a b ≡ true) ↔ (a ≡ b)
number_eq_iff (pos a) (pos b) = ground arith
number_eq_iff a b = ground arith

abbrev pub has_value {ℓ} : {A : Type ℓ} → Option A → Bool
has_value none = false
has_value (some a) = true
