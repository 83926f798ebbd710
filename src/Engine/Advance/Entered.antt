-- ===== src/Engine/Advance/Entered.antt =====
-- execution/engine/src/Token.cpp: how a token comes into being, becomes ready and enters a node.
use bpmnos_engine.Prelude.{
  ℕ, Bool, true, false, not, ◌&&◌, ◌||◌, Option, none, some, List, [], ◌∷◌, if◌then◌else◌, Result,
  ok, throw, ◌>>=◌, runtime_error, failed_assert, undefined_behaviour, bad_optional_access,
}
use bpmnos_engine.Prelude.Int.{ℤ}
use bpmnos_engine.Values.Number.{has_value}
use bpmnos_engine.Engine.World.{
  created_state, ready_state, entered_state, Content, LoopCharacteristics, Node, process_node,
  flow_node, activity_node, sub_process_node, adhoc_sub_process_node, catch_event_node,
  untyped_start_event_node, typed_start_event_node, throw_event_node, error_end_event_node,
  escalation_throw_event_node, signal_throw_event_node, message_throw_event_node, send_task_node,
  compensate_throw_event_node, gateway_node, event_based_gateway_node, Call, token_notice, World,
  put_token, notify, enqueue_for_token, enqueue_always,
}
use bpmnos_engine.Engine.Tokens.{update, await_ready_event}
use bpmnos_engine.Engine.Performer.{parent_of, await_entry_event}
use bpmnos_engine.Engine.Messages.{set_content, register_recipient}
use bpmnos_engine.Engine.Compensation.{get_compensation_tokens, compensate}
use bpmnos_engine.Engine.Expressions.{
  Expressions, add_to_objective, check_time, apply_operators, send,
}
use bpmnos_engine.Engine.Advance.Departing.{set_sequence_flow, leave, advance_to_departing}

abbrev pub is_standard : Option LoopCharacteristics → Bool
is_standard (some LoopCharacteristics.standard) = true
is_standard _ = false

abbrev pub is_multi_instance : Option LoopCharacteristics → Bool
is_multi_instance none = false
is_multi_instance (some LoopCharacteristics.standard) = false
is_multi_instance _ = true

abbrev pub is_empty {ℓ} : {A : Type ℓ} → List A → Bool
is_empty [] = true
is_empty (a ∷ as') = false

-- `stateMachine->instance.value()`
abbrev pub value_of : Option ℤ → Result ℤ
value_of none = throw bad_optional_access
value_of (some id) = ok id

-- The state machine of an instance is found under its identifier from now on, and receives its messages.
unfoldable pub register_machine : Option ℕ → World → Result World
unfolding register_recipient
register_machine none w = throw undefined_behaviour
register_machine (some m) w = value_of (w.machine m).instance_id >>= λ id.
    ok (register_recipient m id (record w { archive = (id, m) ∷ w.archive }))

-- `Token::emitSignal`, the name of the content being that of the definition.
abbrev pub emit : ℕ → Option Content → World → Result World
emit t none w = throw failed_assert
emit t (some content) w =
    ok (
      enqueue_always (put_token w t (set_content (w.token t) none)) (Call.broadcast_signal content))

unfoldable pub emit_signal : ℕ → World → Result World
emit_signal t w = emit t (w.token t).content w

-- A pointer that is dereferenced.
abbrev pub deref : Option ℕ → Result ℕ
deref none = throw undefined_behaviour
deref (some p) = ok p

module _ (node_of : ℕ → Node) (x : Expressions) where
  abbrev pub at_node : World → ℕ → Node
  at_node w t = node_of (w.token t).node

  -- The loop index of a standard loop, which is given on every entry.
  unfoldable pub index_loop : ℕ → World → Result World
  unfolding add_to_objective
  index_loop t w =
      if not
        ((at_node w t).represents activity_node && is_standard (at_node w t).loop_characteristics)
      then ok w
      else if x.loop_index_given (w.token t).node
      then (let (status, change) = x.increment_loop_index t w in
          ok (add_to_objective change (put_token w t (record (w.token t) { status = status }))))
      else if x.loop_maximum_given (w.token t).node
      then throw runtime_error
      else ok w

  -- The state machines of processes, and of the instances of multi-instance activities.
  unfoldable pub register_scope : ℕ → World → Result World
  unfolding register_machine
  register_scope t w =
      if (at_node w t).represents process_node
      then register_machine (w.token t).owned w
      else if (at_node w t).represents activity_node
          && has_value (at_node w t).loop_characteristics
          && has_value (w.token t).owned
      then register_machine (w.token t).owned w
      else ok w

  -- Whether the node is the start event of a scope that is not an event subprocess.
  abbrev pub starts_scope : Node → Bool
  starts_scope node =
      node.represents untyped_start_event_node
      || (node.represents typed_start_event_node && (node_of node.parent).represents process_node)

  abbrev pub initiate : ℕ → World → World
  initiate t w =
      if (at_node w t).represents flow_node && starts_scope (at_node w t)
      then enqueue_for_token w (Call.initiate_event_sub_processes (w.token t).owner t) t
      else w

  -- An activity: its boundary events are initiated, and a task or ad-hoc subprocess is checked.
  abbrev pub with_boundary_events : ℕ → World → World
  with_boundary_events t w =
      if is_empty (at_node w t).boundary_events
      then w
      else enqueue_for_token w (Call.initiate_boundary_events (w.token t).owner t) t

  abbrev pub is_checked_on_entry : Node → Bool
  is_checked_on_entry node =
      not (node.represents sub_process_node) || node.represents adhoc_sub_process_node

  unfoldable pub enter_activity : ℕ → World → World
  enter_activity t w =
      let v = with_boundary_events t w in
      if is_checked_on_entry (at_node w t) && not (x.feasible_entry (w.token t).node t v)
      then enqueue_for_token v (Call.advance_to_failed t) t
      else enqueue_for_token v (Call.advance_to_busy t) t

  -- A compensate throw event waits for the compensations, if there are any.
  unfoldable pub await_compensations : ℕ → ℕ → List ℕ → World → Result World
  unfolding compensate leave
  await_compensations t context [] w = leave node_of x.gate t w
  await_compensations t context compensations w =
      compensate node_of context compensations t (enqueue_for_token w (Call.update_busy t) t)

  unfoldable pub throw_compensation : ℕ → World → Result World
  unfolding await_compensations get_compensation_tokens
  throw_compensation t w = deref (parent_of w t) >>= λ parent.
      deref (w.token parent).owned >>= λ context.
      get_compensation_tokens node_of context (at_node w t).activity w >>= λ compensations.
      await_compensations t context compensations w

  unfoldable pub throw_event : ℕ → World → Result World
  unfolding throw_compensation leave emit_signal send
  throw_event t w =
      let node = at_node w t in
      if node.represents error_end_event_node
      then ok (enqueue_for_token w (Call.advance_to_failed t) t)
      else if node.represents escalation_throw_event_node
      then leave node_of x.gate t
          (enqueue_for_token w (Call.handle_escalation (w.token t).owner t) t)
      else if node.represents signal_throw_event_node
      then emit_signal t w >>= leave node_of x.gate t
      else if node.represents message_throw_event_node
      then (if node.represents send_task_node
          then throw failed_assert
          else (send node_of x t w >>= leave node_of x.gate t))
      else if node.represents compensate_throw_event_node
      then throw_compensation t w
      else leave node_of x.gate t w

  -- What the kind of the node brings about.
  unfoldable pub enter_node : ℕ → World → Result World
  unfolding enter_activity throw_event apply_operators advance_to_departing
  enter_node t w =
      let node = at_node w t in
      if node.represents process_node
      then ok (enqueue_for_token w (Call.advance_to_busy t) t)
      else if node.represents activity_node
      then ok (enter_activity t w)
      else if node.represents catch_event_node
      then ok (enqueue_for_token w (Call.advance_to_busy t) t)
      else if node.represents throw_event_node
      then apply_operators node_of x t w >>= throw_event t
      else if node.represents gateway_node
      then (if node.represents event_based_gateway_node
          then ok (enqueue_for_token w (Call.advance_to_busy t) t)
          else if is_empty node.outgoing
          then throw failed_assert
          else advance_to_departing node_of x.gate t w)
      else ok w

  -- `Token::advanceToEntered`
  unfoldable pub advance_to_entered : ℕ → World → Result World
  unfolding check_time index_loop update register_scope enter_node
  advance_to_entered t w = do
    checked ← check_time t w
    indexed ← index_loop t checked
    entered ← update node_of t entered_state indexed
    registered ← register_scope t entered
    enter_node t (initiate t registered)

  -- `Token::advanceFromCreated`
  unfoldable pub advance_from_created : ℕ → World → Result World
  unfolding await_ready_event update advance_to_entered
  advance_from_created t w =
      if (at_node w t).represents process_node || (at_node w t).represents activity_node
      then ok (await_ready_event t (notify w (token_notice t (w.token t).state)))
      else (update node_of t created_state w >>= advance_to_entered t)

  unfoldable pub count_scope : Option ℕ → World → Result World
  unfolding add_to_objective
  count_scope none w = throw undefined_behaviour
  count_scope (some m) w = ok (add_to_objective (x.scope_value m w) w)

  -- A token at a process, or at an activity for compensation, enters without a decision.
  unfoldable pub enter_at_once : ℕ → World → Result World
  unfolding update advance_to_entered
  enter_at_once t w = update node_of t ready_state w >>= advance_to_entered t

  unfoldable pub ready_activity : ℕ → World → Result World
  unfolding enter_at_once await_entry_event
  ready_activity t w =
      let node = at_node w t in
      if node.represents activity_node && node.is_for_compensation
      then enter_at_once t w
      else if node.represents activity_node && is_multi_instance node.loop_characteristics
      then ok
          (enqueue_for_token w (Call.create_multi_instance_activity_tokens (w.token t).owner t) t)
      else (update node_of t ready_state w >>= await_entry_event node_of t)

  -- `Token::advanceToReady`
  unfoldable pub advance_to_ready : ℕ → World → Result World
  unfolding enter_at_once check_time ready_activity
  advance_to_ready t w =
      if (at_node w t).represents process_node
      then count_scope (w.token t).owned w >>= enter_at_once t
      else (check_time t w >>= λ v.
          ready_activity t (put_token v t (set_sequence_flow (v.token t) none)))
