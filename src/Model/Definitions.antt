-- ===== src/Model/Definitions.antt =====
-- model/bpmnos/src/Model.cpp: the validation of the errors and of the escalations of a model. Which events of a process
-- throw or catch them is found by the bpmn++ library: each process is the list of the definitions of its events, an event
-- without a definition having none.
pub mod Agreed
use bpmnos_engine.Prelude.{
  Bool, true, false, Option, none, some, List, [], ◌∷◌, if◌then◌else◌, Result, ok, throw, ◌>>=◌,
  runtime_error,
}
use bpmnos_engine.Prelude.Int.{ℤ}
use bpmnos_engine.Values.Number.{number_eq}
use bpmnos_engine.Values.Schema.{Schema, schema_eq}

pub record ErrorDefinition : Type 0 where
  pub name : ℤ
  pub schema : Schema

-- The type that the first event of each name states.
abbrev pub Firsts : Type 0
Firsts = ℤ → Option Schema

abbrev pub add_first : Firsts → ErrorDefinition → Firsts
add_first firsts d n = if number_eq d.name n then some d.schema else firsts n

-- `firstErrorEvents.emplace(...)`, and the comparison with the first one.
abbrev pub compare_with_first : Option Schema → ErrorDefinition → Firsts → Result Firsts
compare_with_first none d firsts = ok (add_first firsts d)
compare_with_first (some first) d firsts =
    if schema_eq d.schema first then ok firsts else throw runtime_error

unfoldable pub validate_events : List (Option ErrorDefinition) → Firsts → Result Firsts
unfolding schema_eq
validate_events [] firsts = ok firsts
validate_events (none ∷ events) firsts = validate_events events firsts
validate_events (some d ∷ events) firsts =
    compare_with_first (firsts d.name) d firsts >>= validate_events events

unfoldable pub validate_processes : List (List (Option ErrorDefinition)) → Firsts → Result Firsts
unfolding validate_events
validate_processes [] firsts = ok firsts
validate_processes (events ∷ processes) firsts =
    validate_events events firsts >>= validate_processes processes

-- `validateErrors` and `validateEscalations`
unfoldable pub validate : List (List (Option ErrorDefinition)) → Result {0} Unit
unfolding validate_processes
validate processes = validate_processes processes (λ n. none) >>= λ firsts. ok tt
