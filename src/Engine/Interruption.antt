-- ===== src/Engine/Interruption.antt =====
-- execution/engine/src/StateMachine.cpp: the tokens that a caught event makes obsolete, and the start of the activity that
-- compensates another.
use bpmnos_engine.Prelude.{
  ℕ, not, none, List, [], ◌∷◌, ◌==◌, if◌then◌else◌, Result, ok, throw, ◌>>=◌, take, failed_assert,
  out_of_range,
}
use bpmnos_engine.Engine.World.{
  completed_state, arrived_state, Status, Node, activity_node, World, put, put_token,
}
use bpmnos_engine.Engine.Tokens.{update, await_ready_event}
use bpmnos_engine.Engine.Messages.{if_some}
use bpmnos_engine.Engine.Events.{set_status}
use bpmnos_engine.Engine.Destruction.{is_sequential, remove_token}
use bpmnos_engine.Engine.Withdrawal.{for_each, withdraw}
use bpmnos_engine.Engine.Expressions.{Expressions}
use bpmnos_engine.Engine.Advance.Departing.{set_node}
use bpmnos_engine.Engine.Advance.Entered.{is_multi_instance}

module _ (node_of : ℕ → Node) (depth : ℕ) where
  -- The token is withdrawn and erased from the tokens of the state machine.
  unfoldable pub withdraw_token : ℕ → ℕ → World → Result World
  unfolding withdraw remove_token
  withdraw_token m t w = withdraw node_of depth t w >>= remove_token node_of m t

  -- `StateMachine::deleteTokensAwaitingBoundaryEvent`
  unfoldable pub delete_tokens_awaiting_boundary_event : ℕ → ℕ → World → Result World
  unfolding for_each withdraw_token
  delete_tokens_awaiting_boundary_event m t w =
      for_each (withdraw_token m) (w.tokens_awaiting_boundary_event t) w >>= λ v.
      ok (record v { tokens_awaiting_boundary_event = put v.tokens_awaiting_boundary_event t [] })

  -- An instance of a multi-instance activity is withdrawn with what is known of it.
  unfoldable pub withdraw_instance : Node → ℕ → ℕ → World → Result World
  unfolding withdraw_token
  withdraw_instance node m t w = withdraw_token m t (record w {
    token_awaiting_multi_instance_completion =
        if is_sequential node.loop_characteristics
        then put w.token_awaiting_multi_instance_completion t none
        else w.token_awaiting_multi_instance_completion;
    token_at_multi_instance_activity = put w.token_at_multi_instance_activity t none;
  })

  unfoldable pub withdraw_instances : Node → ℕ → ℕ → World → Result World
  unfolding for_each withdraw_instance
  withdraw_instances node m t w =
      if_some (w.tokens_at_activity_instance t) (throw failed_assert) (λ instances.
        for_each (withdraw_instance node m) instances w >>= λ v. ok (record v {
          tokens_at_activity_instance = put v.tokens_at_activity_instance t none;
          completion_status_at_activity_instance =
              put v.completion_status_at_activity_instance t none;
        }))

  -- `StateMachine::interruptActivity`
  unfoldable pub interrupt_activity : ℕ → ℕ → World → Result World
  unfolding withdraw_instances delete_tokens_awaiting_boundary_event withdraw_token
  interrupt_activity m t w =
      let node = node_of (w.token t).node in
      if not (node.represents activity_node)
      then throw failed_assert
      else ((if is_multi_instance node.loop_characteristics
            then withdraw_instances node m t w
            else ok w)
          >>= delete_tokens_awaiting_boundary_event m t
          >>= withdraw_token m t)

  unfoldable pub withdraw_other : ℕ → ℕ → ℕ → World → Result World
  unfolding withdraw_token
  withdraw_other m t other w = if other == t then ok w else withdraw_token m other w

  -- `tokensAwaitingEvent.at(…)`
  abbrev pub at_gateway : List ℕ → Result (List ℕ)
  at_gateway [] = throw out_of_range
  at_gateway (t ∷ ts) = ok (t ∷ ts)

  -- `StateMachine::handleEventBasedGatewayActivation`
  unfoldable pub handle_event_based_gateway_activation : ℕ → ℕ → World → Result World
  unfolding for_each withdraw_other update remove_token
  handle_event_based_gateway_activation m t w =
      if_some (w.token_at_event_based_gateway t) (throw out_of_range) (λ g.
        at_gateway (w.tokens_awaiting_event g) >>= λ waiting.
        for_each (withdraw_other m t) waiting w
        >>= update node_of g completed_state
        >>= remove_token node_of m g)

-- `status.attributes.resize(…)`, which shortens the lists to those of the enclosing scopes.
abbrev pub enclosing : ℕ → ℕ → Status → Status
enclosing attributes objects s = record s {
  attributes = take attributes s.attributes;
  objects = take objects s.objects;
}

module _ (node_of : ℕ → Node) (x : Expressions) where
  unfoldable pub arrive_for_compensation : ℕ → ℕ → World → Result World
  unfolding update await_ready_event
  arrive_for_compensation activity t w =
      let status =
        enclosing (x.attributes_enclosing activity) (x.objects_enclosing activity)
          (w.token t).status in
      update node_of t arrived_state
        (put_token w t (set_node (set_status (w.token t) status) activity))
      >>= λ v. ok (await_ready_event t v)

  -- `StateMachine::compensateActivity`
  unfoldable pub compensate_activity : ℕ → World → Result World
  unfolding arrive_for_compensation
  compensate_activity t w =
      if_some (node_of (node_of (w.token t).node).attached_to).compensated_by (throw failed_assert)
        (λ activity.
          if (node_of activity).represents activity_node
          then arrive_for_compensation activity t w
          else ok w)
