-- ===== src/Engine/Dispatch.antt =====
-- execution/engine/src/Engine.cpp: the functions that the commands call, and with them `processCommands` as a whole.
pub mod Continued
use bpmnos_engine.Prelude.{ℕ, Bool, Option, List, Result, ok, ◌>>=◌}
use bpmnos_engine.Prelude.Int.{ℤ}
use bpmnos_engine.Engine.World.{busy_state, failed_state, Node, Call, World}
use bpmnos_engine.Engine.Tokens.{update}
use bpmnos_engine.Engine.Gateways.{merge_at, handle_diverging_gateway}
use bpmnos_engine.Engine.Compensation.{
  complete_compensation_activity, create_compensation_token, create_compensation_event_sub_process,
}
use bpmnos_engine.Engine.Signals.{broadcast_signal}
use bpmnos_engine.Engine.Commands.{process_commands}
use bpmnos_engine.Engine.Expressions.{Expressions}
use bpmnos_engine.Engine.Scopes.{
  run, initiate_event_sub_processes, initiate_boundary_event, initiate_boundary_events,
}
use bpmnos_engine.Engine.Shutdown.{
  shutdown, delete_ad_hoc_sub_process_token, delete_non_interrupting_event_sub_process,
  delete_compensation_event_sub_process, delete_instance,
}
use bpmnos_engine.Engine.Failures.{handle_escalation, handle_failure}
use bpmnos_engine.Engine.Interruption.{
  interrupt_activity, delete_tokens_awaiting_boundary_event, handle_event_based_gateway_activation,
  compensate_activity,
}
use bpmnos_engine.Engine.MultiInstance.{
  create_multi_instance_activity_tokens, delete_multi_instance_activity_token,
}
use bpmnos_engine.Engine.Instances.{trigger_instance, trigger_instance_by_message}
use bpmnos_engine.Engine.Advance.Departing.{
  advance_to_departing, advance_to_departed, advance_to_arrived,
}
use bpmnos_engine.Engine.Advance.Entered.{advance_to_ready, advance_to_entered}
use bpmnos_engine.Engine.Advance.Busy.{advance_to_busy}
use bpmnos_engine.Engine.Advance.Completed.{advance_to_completed}
use bpmnos_engine.Engine.Advance.Ended.{advance_from_completed, advance_to_done}
use bpmnos_engine.Engine.Advance.Failed.{advance_to_failed, terminate}

-- What the engine reads of a model: its nodes, the source and the target of its sequence flows, and the predecessors of gateways.
pub record Model : Type 0 where
  pub node_of : ℕ → Node
  pub source : ℕ → ℕ
  pub target : ℕ → ℕ
  pub is_predecessor : ℕ → ℕ → Bool
  pub event_sub_process_of : ℕ → Option ℕ
  pub processes_triggered_by_signal : ℤ → Option ℕ

module _ (model : Model) (x : Expressions) (global depth : ℕ) where
  -- The function bound to a command.
  unfoldable pub call : Call → World → Result World
  unfolding advance_to_ready advance_to_entered advance_to_busy advance_to_completed
      advance_from_completed advance_to_departing advance_to_departed advance_to_arrived
      advance_to_done advance_to_failed terminate update merge_at run initiate_event_sub_processes
      initiate_boundary_events initiate_boundary_event interrupt_activity
      delete_tokens_awaiting_boundary_event handle_diverging_gateway
      handle_event_based_gateway_activation handle_escalation compensate_activity
      complete_compensation_activity create_multi_instance_activity_tokens
      delete_multi_instance_activity_token delete_ad_hoc_sub_process_token create_compensation_token
      create_compensation_event_sub_process delete_non_interrupting_event_sub_process
      delete_compensation_event_sub_process shutdown delete_instance handle_failure broadcast_signal
      trigger_instance trigger_instance_by_message
  call (Call.advance_to_ready t) w = advance_to_ready model.node_of x t w
  call (Call.advance_to_entered t) w = advance_to_entered model.node_of x t w
  call (Call.advance_to_completed t) w = advance_to_completed model.node_of x depth model.source t w
  call (Call.advance_to_failed t) w = advance_to_failed model.node_of t w
  call (Call.advance_to_busy t) w = advance_to_busy model.node_of x t w
  call (Call.advance_from_completed t) w =
      advance_from_completed model.node_of x model.event_sub_process_of depth t w
  call (Call.advance_to_done t) w = advance_to_done model.node_of depth t w
  call (Call.advance_to_departing t) w = advance_to_departing model.node_of x.gate t w
  call (Call.advance_to_arrived t) w =
      advance_to_arrived model.node_of model.target model.is_predecessor t w
  call (Call.terminate t) w = terminate model.node_of depth t w
  call (Call.update_busy t) w = update model.node_of t busy_state w
  call (Call.advance_to_departed t flow) w = advance_to_departed model.node_of t flow w
  call (Call.create_merged_token m gateway) w = merge_at model.node_of m gateway w
  call (Call.run m status) w = run model.node_of x m status w
  call (Call.initiate_event_sub_processes m t) w =
      initiate_event_sub_processes model.node_of x m t w
  call (Call.initiate_boundary_events m t) w = initiate_boundary_events model.node_of x m t w
  call (Call.interrupt_activity m t) w = interrupt_activity model.node_of depth m t w
  call (Call.initiate_boundary_event m t node) w =
      initiate_boundary_event model.node_of x m t node w
  call (Call.delete_tokens_awaiting_boundary_event m t) w =
      delete_tokens_awaiting_boundary_event model.node_of depth m t w
  call (Call.handle_diverging_gateway m t) w = handle_diverging_gateway model.node_of x.gate m t w
  call (Call.handle_event_based_gateway_activation m t) w =
      handle_event_based_gateway_activation model.node_of depth m t w
  call (Call.handle_escalation m t) w = handle_escalation model.node_of x model.source depth 2 m t w
  call (Call.compensate_activity m t) w = compensate_activity model.node_of x t w
  call (Call.complete_compensation_activity m t) w =
      complete_compensation_activity model.node_of m t w
  call (Call.create_multi_instance_activity_tokens m t) w =
      create_multi_instance_activity_tokens model.node_of x m t w
  call (Call.delete_multi_instance_activity_token m t) w =
      delete_multi_instance_activity_token model.node_of x depth m t w
  call (Call.delete_ad_hoc_sub_process_token m t) w =
      delete_ad_hoc_sub_process_token model.node_of depth m t w
  call (Call.create_compensation_token m boundary_event status) w =
      create_compensation_token model.node_of m boundary_event status w
  call (Call.create_compensation_event_sub_process m event_sub_process status compensable) w =
      create_compensation_event_sub_process model.node_of m event_sub_process compensable
        (x.initial_status event_sub_process status w) w
  call (Call.delete_non_interrupting_event_sub_process m e) w =
      delete_non_interrupting_event_sub_process model.node_of depth m e w
  call (Call.delete_compensation_event_sub_process m e) w =
      delete_compensation_event_sub_process model.node_of m e w
  call (Call.shutdown m) w = shutdown model.node_of x depth m w
  call (Call.delete_instance t) w = delete_instance model.node_of global t w
  call (Call.update_failed t) w = update model.node_of t failed_state w
  call (Call.handle_failure m t) w = handle_failure model.node_of x model.source depth m t w
  call (Call.broadcast_signal content) w =
      broadcast_signal model.processes_triggered_by_signal content w
  call (Call.trigger_instance process content) w =
      trigger_instance model.node_of x global process content w
  call (Call.trigger_instance_by_message process m) w =
      trigger_instance_by_message model.node_of x global process m w

  -- `Engine::processCommands`, the order in which the state machines with waiting gateways are visited being given.
  unfoldable pub process_all : List ℕ → ℕ → World → Result World
  unfolding process_commands call
  process_all machines fuel w =
      process_commands model.node_of model.target model.is_predecessor machines call fuel w
