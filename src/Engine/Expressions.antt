-- ===== src/Engine/Expressions.antt =====
-- model/bpmnos/src/extensionElements: what the engine asks of the expressions of a model, which the LIMEX library evaluates
-- on the status of a token and the data of its scope, and the operators that a node applies (Token.cpp). The data of
-- scopes is not part of the state: what an expression reads of it is within the functions of `Expressions`.
use Prim.Native.String.{String}
use bpmnos_engine.Prelude.{
  ℕ, Bool, true, false, Option, none, some, List, [], ◌∷◌, if◌then◌else◌, Result, ok, throw,
  failed_assert, undefined_behaviour, runtime_error,
}
use bpmnos_engine.Prelude.Int.{ℤ, pos, ◌+ℤ◌, ltb_ℤ}
use bpmnos_engine.Values.Number.{Value, number_eq}
use bpmnos_engine.Engine.World.{
  Status, Content, Node, throw_event_node, objective_notice, data_notice, World, put_token, notify,
}
use bpmnos_engine.Engine.Messages.{MessageDefinition, send_message}

pub record Expressions : Type 0 where
  -- The operators of a node: whether it has any, and the status, the content and the change of the objective they yield.
  pub has_operators : ℕ → Bool
  pub operate : ℕ → World → Status × Option Content
  pub operators_change : ℕ → World → ℤ
  -- The content that a throwing node sends, with its default object.
  pub content_of : ℕ → Option Content
  -- The restrictions of a node on the entry and on the completion of a token.
  pub feasible_entry : ℕ → ℕ → World → Bool
  pub feasible_completion : ℕ → ℕ → World → Bool
  -- The trigger of a timer, and the conditions of a conditional event.
  pub has_trigger : ℕ → Bool
  pub trigger_time : ℕ → World → Option ℤ
  pub conditions_satisfied : ℕ → World → Bool
  -- The condition of a sequence flow, if it has a gatekeeper.
  pub gate : World → ℕ → ℕ → Option Bool
  -- The weighted values of the attributes of a node, and of the data of a state machine.
  pub final_value : ℕ → World → ℤ
  pub scope_value : ℕ → World → ℤ
  -- The same of a status merged when the scope of a state machine shuts down, and whether a node has a performer of its own.
  pub scope_status_value : ℕ → Status → World → ℤ
  pub has_sequential_performer : ℕ → Bool
  -- The names of the definitions that the nodes catching errors and escalations state.
  pub error_name : ℕ → Option ℤ
  pub escalation_name : ℕ → Option ℤ
  -- Standard loops.
  pub loop_index_given : ℕ → Bool
  pub loop_maximum_given : ℕ → Bool
  pub increment_loop_index : ℕ → World → Status × ℤ
  pub loops : ℕ → World → Bool
  -- How many attributes and objects of the status a node declares, and whether it declares data.
  pub attributes_declared : ℕ → ℕ
  pub objects_declared : ℕ → ℕ
  pub declares_data : ℕ → Bool
  -- The signal that a node awaits, and the header that a waiting token presents.
  pub signal_name : ℕ → ℤ
  pub recipient_header : ℕ → World → List Value
  -- The message that a node sends, the values of its header, and the process that a message instantiates.
  pub message_definition : ℕ → MessageDefinition
  pub header_value : World → ℕ → String → Value
  pub instance_of : World → ℕ → ℤ
  pub process_instance_of : World → ℕ → ℤ
  pub triggered_by_message : ℤ → Option ℕ
  -- The status and the identifier with which an event subprocess comes into being.
  pub initial_status : ℕ → Status → World → Status
  -- Multi-instance activities, the attribute of the status that holds the loop index, and the identifiers of instances.
  pub loop_cardinality : ℕ → World → Option ℕ
  pub loop_index_attribute : ℕ → Option ℕ
  pub instance_identity : ℕ → ℕ → ℕ → World → ℤ
  pub process_identity : ℕ → ℕ → ℤ
  -- How many attributes and objects the status has in the scopes that enclose a node.
  pub attributes_enclosing : ℕ → ℕ
  pub objects_enclosing : ℕ → ℕ
  -- The status, and the change of the objective, that the choices made yield.
  pub apply_choices : ℕ → List Value → World → Status × ℤ
  pub new_identity : ℕ → ℕ → World → Option ℤ

-- `Engine::addToObjective`
unfoldable pub add_to_objective : ℤ → World → World
unfolding ◌+ℤ◌
add_to_objective change w =
    if number_eq change (pos 0)
    then w
    else notify (record w { objective = w.objective +ℤ change })
        (objective_notice (w.objective +ℤ change) change)

-- `status.attributes[Timestamp] == time`
abbrev pub is_now : List Value → ℤ → Bool
is_now (some time ∷ rest) now = number_eq time now
is_now _ now = false

-- `status.attributes[Timestamp] > time`, an undefined value being less than every number.
abbrev pub is_ahead : List Value → ℤ → Result Bool
is_ahead [] now = throw undefined_behaviour
is_ahead (none ∷ rest) now = ok false
is_ahead (some time ∷ rest) now = ok (ltb_ℤ now time)

abbrev pub unless_ahead : Result Bool → World → Result World
unless_ahead (throw e) w = throw e
unless_ahead (ok true) w = throw runtime_error
unless_ahead (ok false) w = ok w

-- The check with which `advanceToReady`, `advanceToEntered` and `advanceToCompleted` begin.
unfoldable pub check_time : ℕ → World → Result World
check_time t w = unless_ahead (is_ahead (w.token t).status.attributes w.current_time) w

module _ (node_of : ℕ → Node) (x : Expressions) where
  -- The content is named by the definition of a throwing node.
  unfoldable pub write_content : ℕ → World → World
  write_content t w =
      if (node_of (w.token t).node).represents throw_event_node
      then put_token w t (record (w.token t) { content = x.content_of (w.token t).node })
      else w

  unfoldable pub run_operators : ℕ → World → World
  unfolding add_to_objective
  run_operators t w =
      if x.has_operators (w.token t).node
      then (let (status, content) = x.operate t w in
          notify
            (add_to_objective (x.operators_change t w)
              (put_token w t (record (w.token t) { status = status; content = content })))
            (data_notice t))
      else w

  -- `Token::applyOperators`
  unfoldable pub apply_operators : ℕ → World → Result World
  unfolding write_content run_operators
  apply_operators t w =
      if is_now (w.token t).status.attributes w.current_time
      then ok (run_operators t (write_content t w))
      else throw failed_assert

  -- `Token::sendMessage`
  unfoldable pub send : ℕ → World → Result World
  unfolding send_message
  send t w =
      send_message node_of x.message_definition x.header_value x.instance_of x.triggered_by_message
        t w
