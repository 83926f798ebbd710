-- ===== src/Engine/Headers.antt =====
-- execution/engine/src/Message.cpp and model/bpmnos/src/extensionElements/MessageDefinition.cpp: the headers of
-- messages. The value of a header parameter is what its expression gives, evaluated by the LIMEX library, so
-- that it is a parameter here; a key without an expression has an undefined value.
pub mod Matching
use Prim.Native.String.{String}
use text.Mathlib.Text.{◌==◌ as str_eq}
use bpmnos_engine.Prelude.{
  ℕ, Bool, true, false, not, ◌&&◌, Option, none, some, List, [], ◌∷◌, ◌==◌, length, if◌then◌else◌,
}
use bpmnos_engine.Prelude.Int.{ℤ}
use bpmnos_engine.Values.Number.{Value, number_eq}

-- `header[i].has_value() && otherHeader[i].has_value() && header[i].value() != otherHeader[i].value()`
abbrev pub conflicting : Value → Value → Bool
conflicting (some a) (some b) = not (number_eq a b)
conflicting _ _ = false

-- The loop of `matches`, over headers of the same size.
unfoldable pub none_conflicting : List Value → List Value → Bool
none_conflicting (a ∷ header) (b ∷ other_header) =
    if conflicting a b then false else none_conflicting header other_header
none_conflicting _ _ = true

-- `Message::matches`
unfoldable pub matches : List Value → List Value → Bool
unfolding none_conflicting
matches header other_header =
    if length header == length other_header then none_conflicting header other_header else false

module _ (get_header_value : String → Value) (instance_id : ℤ) where
  unfoldable pub get_sender_header : List String → List Value
  get_sender_header [] = []
  get_sender_header (key ∷ header) =
      (if str_eq key "sender" then some instance_id else get_header_value key)
      ∷ get_sender_header header

  unfoldable pub get_recipient_header : List String → List Value
  get_recipient_header [] = []
  get_recipient_header (key ∷ header) =
      (if str_eq key "recipient" then some instance_id else get_header_value key)
      ∷ get_recipient_header header
