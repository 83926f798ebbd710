-- ===== src/Tests/ModelTests.antt =====
-- A gateway behind two branches of a split, and the errors of two processes.
use bpmnos_engine.Prelude.{
  ℕ, ◌<◌, ◌≡◌, ◌↔◌, refl, Bool, true, Option, none, some, List, [], ◌∷◌, ◌==◌, if◌then◌else◌, ok,
  throw, runtime_error, arith,
}
use bpmnos_engine.Prelude.Int.{pos}
use bpmnos_engine.Values.Number.{integer, decimal}
use bpmnos_engine.Values.Schema.{value_type, schema_eq}
use bpmnos_engine.Model.Predecessors.{predecessors}
use bpmnos_engine.Model.Predecessors.Reached.{Precedes, predecessors-Precedes}
use bpmnos_engine.Model.Definitions.{ErrorDefinition, validate}
use bpmnos_engine.Model.Definitions.Agreed.{Agreed, Stated, validate_iff}

-- The sequence flows 10 and 11 lead from the nodes 1 and 2 to the gateway 3, and 12 and 13 from the node 0 to 1 and 2; the
-- node 4 lies behind the gateway.
abbrev source_of : ℕ → ℕ
source_of flow = if flow == 10 then 1 else if flow == 11 then 2 else if flow == 14 then 3 else 0

abbrev incoming_of : ℕ → List ℕ
incoming_of n =
    if n == 1
    then 12 ∷ []
    else if n == 2
    then 13 ∷ []
    else if n == 3
    then 10 ∷ 11 ∷ []
    else if n == 4
    then 14 ∷ []
    else []

source_below : (flow : ℕ) → source_of flow < 5
source_below flow = ground arith

predecessors-Precedes_example :
    (found : ℕ → Bool) × (predecessors incoming_of source_of 3 6 ≡ ok found)
    × ((n : ℕ) → (found n ≡ true) ↔ Precedes incoming_of source_of 3 n)
predecessors-Precedes_example = predecessors-Precedes incoming_of source_of 3 5 source_below

abbrev counted : ErrorDefinition
counted = record { name = pos 40; schema = value_type integer }

abbrev measured : ErrorDefinition
measured = record { name = pos 41; schema = value_type decimal }

abbrev two_processes : List (List (Option ErrorDefinition))
two_processes = (some counted ∷ none ∷ some measured ∷ []) ∷ (some counted ∷ []) ∷ []

validate_two : validate two_processes ≡ ok tt
unfolding validate
validate_two = refl

validate_conflict :
    validate (
      (some counted ∷ [])
      ∷ (some (record { name = pos 40; schema = value_type decimal }) ∷ [])
      ∷ [])
    ≡ throw runtime_error
unfolding validate schema_eq
validate_conflict = refl

validate_iff_example : (validate two_processes ≡ ok tt) ↔ Agreed (Stated two_processes)
validate_iff_example = validate_iff two_processes
