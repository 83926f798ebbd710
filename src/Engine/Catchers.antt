-- ===== src/Engine/Catchers.antt =====
-- execution/engine/src/StateMachine.cpp: which candidate catches an error or an escalation. The definition of a
-- candidate is `none` where its node catches nothing of the kind, `some none` where the node states no definition,
-- and the name of the definition otherwise.
pub mod Selection
use bpmnos_engine.Prelude.{
  Bool, true, false, ◌||◌, Option, none, some, List, [], ◌∷◌, if◌then◌else◌,
}
use bpmnos_engine.Prelude.Int.{ℤ}
use bpmnos_engine.Values.Number.{number_eq}
use bpmnos_engine.Engine.World.{
  Content, Node, error_boundary_event_node, error_start_event_node, escalation_boundary_event_node,
  escalation_start_event_node,
}

abbrev pub Definition : Type 0
Definition = Option (Option ℤ)

-- `errorDefinitionOf` and `escalationDefinitionOf`, the name of the definition that the node states being given.
unfoldable pub error_definition_of : Node → Option ℤ → Definition
error_definition_of node name =
    if node.represents error_boundary_event_node || node.represents error_start_event_node
    then some name
    else none

unfoldable pub escalation_definition_of : Node → Option ℤ → Definition
escalation_definition_of node name =
    if node.represents escalation_boundary_event_node || node.represents escalation_start_event_node
    then some name
    else none

-- `content && content->name == name`
abbrev pub is_named : Option Content → ℤ → Bool
is_named none name = false
is_named (some content) name = number_eq content.name name

module _ {ℓ} {A : Type ℓ} (definition_of : A → Definition) (content : Option Content) where
  -- `if ( !catchingAll ) catchingAll = candidate`
  abbrev pub or_candidate : Option A → A → Option A
  or_candidate none candidate = some candidate
  or_candidate (some first) candidate = some first

  abbrev pub select_step : Definition → Option A → A → (Option A → Option A) → Option A
  select_step none catching_all candidate rest = rest catching_all
  select_step (some none) catching_all candidate rest = rest (or_candidate catching_all candidate)
  select_step (some (some name)) catching_all candidate rest =
      let later = rest catching_all in if is_named content name then some candidate else later

  -- The loop, from the candidate that has been found to catch everything.
  unfoldable pub select_from : Option A → List A → Option A
  select_from catching_all [] = catching_all
  select_from catching_all (candidate ∷ candidates) =
      select_step (definition_of candidate) catching_all candidate
        (λ all. select_from all candidates)

  -- `selectCatcher`
  unfoldable pub select_catcher : List A → Option A
  unfolding select_from
  select_catcher candidates = select_from none candidates
