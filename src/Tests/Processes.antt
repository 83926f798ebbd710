-- ===== src/Tests/Processes.antt =====
-- A small process for the tests: the exclusive gateway 33 with the flows 52 and 53, of which the conditions of 53 are
-- satisfied, the end event 34 behind them, the task 36, and the instances of the activity 37.
use bpmnos_engine.Prelude.{ℕ, Bool, true, false, none, some, [], ◌∷◌, ◌==◌, if◌then◌else◌}
use bpmnos_engine.Prelude.Int.{pos}
use bpmnos_engine.Engine.World.{
  Node, NodeType, flow_node, activity_node, task_node, gateway_node, exclusive_gateway_node,
  inclusive_gateway_node, throw_event_node, sub_process_node, boundary_event_node, catch_event_node,
  error_boundary_event_node, multi_instance_sequential,
}
use bpmnos_engine.Engine.Expressions.{Expressions}
use bpmnos_engine.Engine.Dispatch.{Model}
use bpmnos_engine.Tests.Worlds.{nodes}

abbrev pub expressions : Expressions
expressions = record {
  has_operators = λ n. false;
  operate = λ t w. ((w.token t).status, none);
  operators_change = λ t w. pos 0;
  content_of = λ n. none;
  feasible_entry = λ n t w. true;
  feasible_completion = λ n t w. true;
  has_trigger = λ n. false;
  trigger_time = λ t w. none;
  conditions_satisfied = λ t w. false;
  gate = λ w t flow. some (flow == 53);
  final_value = λ t w. pos 0;
  scope_value = λ m w. pos 0;
  scope_status_value = λ m status w. pos 0;
  has_sequential_performer = λ n. false;
  error_name = λ n. none;
  escalation_name = λ n. none;
  loop_index_given = λ n. false;
  loop_maximum_given = λ n. false;
  increment_loop_index = λ t w. ((w.token t).status, pos 0);
  loops = λ t w. false;
  attributes_declared = λ n. 0;
  objects_declared = λ n. 0;
  declares_data = λ n. false;
  signal_name = λ n. pos 40;
  recipient_header = λ t w. [];
  message_definition = λ n. record { name = pos 40; header = [] };
  header_value = λ w t key. none;
  instance_of = λ w t. pos 8;
  process_instance_of = λ w t. pos 8;
  triggered_by_message = λ name. none;
  initial_status = λ n status w. status;
  loop_cardinality = λ t w. some 2;
  loop_index_attribute = λ n. some 1;
  instance_identity = λ m t i w. pos i;
  process_identity = λ process i. pos i;
  attributes_enclosing = λ n. 2;
  objects_enclosing = λ n. 0;
  apply_choices = λ t choices w. ((w.token t).status, pos 0);
  new_identity = λ m n w. none;
}

abbrev pub kinds : ℕ → NodeType → Bool
kinds n flow_node = true
kinds n gateway_node = if n == 33 then true else n == 35
kinds n exclusive_gateway_node = n == 33
kinds n inclusive_gateway_node = n == 35
kinds n throw_event_node = n == 34
kinds n activity_node = if n == 36 then true else if n == 37 then true else n == 31
kinds n task_node = if n == 36 then true else n == 37
kinds n boundary_event_node = n == 38
kinds n catch_event_node = n == 38
kinds n error_boundary_event_node = n == 38
kinds n sub_process_node = n == 39
kinds n _ = false

abbrev pub process_nodes : ℕ → Node
process_nodes n = record (nodes n) {
  represents = kinds n;
  parent = 39;
  incoming = 52 ∷ [];
  outgoing =
      if n == 33
      then 52 ∷ 53 ∷ []
      else if n == 35
      then 52 ∷ 53 ∷ []
      else if n == 36
      then 52 ∷ []
      else [];
  loop_characteristics = if n == 37 then some multi_instance_sequential else none;
}

abbrev pub model : Model
model = record {
  node_of = process_nodes;
  source = λ flow. 33;
  target = λ flow. 34;
  is_predecessor = λ gateway n. false;
  event_sub_process_of = λ n. none;
  processes_triggered_by_signal = λ name. none;
}
