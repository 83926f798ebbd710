-- ===== src/Engine/Advance/Busy.antt =====
-- execution/engine/src/Token.cpp: what a token does, or awaits, once it is busy.
use bpmnos_engine.Prelude.{
  ℕ, Bool, not, ◌&&◌, ◌||◌, Option, none, some, List, [], ◌∷◌, if◌then◌else◌, Result, ok, throw,
  ◌>>=◌, runtime_error, failed_assert, undefined_behaviour,
}
use bpmnos_engine.Prelude.Int.{ℤ, ltb_ℤ}
use bpmnos_engine.Values.Number.{Value}
use bpmnos_engine.Engine.World.{
  busy_state, Node, process_node, sequential_adhoc_subprocess_node, sub_process_node,
  event_based_gateway_node, untyped_start_event_node, typed_start_event_node,
  timer_catch_event_node, signal_catch_event_node, conditional_catch_event_node,
  message_catch_event_node, task_node, receive_task_node, decision_task_node, send_task_node, Call,
  World, put_token, enqueue_for_token, enqueue_for_machine,
}
use bpmnos_engine.Engine.Tokens.{
  set_timestamp, update, await_timer, await_signal, await_conditions, await_message_delivery,
  await_choice_event, await_task_completion_event,
}
use bpmnos_engine.Engine.Expressions.{Expressions, apply_operators, send}

-- `!status.attributes[Timestamp].has_value()`
abbrev pub check_timestamp : List Value → World → Result World
check_timestamp [] w = throw undefined_behaviour
check_timestamp (none ∷ rest) w = throw runtime_error
check_timestamp (some time ∷ rest) w = ok w

-- The state machine of a scope is run with the status of its token.
abbrev pub run_scope : ℕ → Option ℕ → World → Result World
run_scope t none w = throw failed_assert
run_scope t (some m) w = ok (enqueue_for_machine w (Call.run m (w.token t).status) m)

abbrev pub complete : ℕ → World → World
complete t w = enqueue_for_token w (Call.advance_to_completed t) t

-- A timer that is due at once is not awaited.
unfoldable pub await_time : ℕ → Option ℤ → World → World
unfolding await_timer
await_time t none w = complete t w
await_time t (some time) w =
    if ltb_ℤ w.current_time time then await_timer time t w else complete t w

abbrev pub run_process : ℕ → List ℕ → World → Result World
run_process t [] w = ok (complete t w)
run_process t (start ∷ []) w = run_scope t (w.token t).owned w
run_process t _ w = throw runtime_error

abbrev pub run_adhoc : ℕ → List ℕ → World → Result World
run_adhoc t [] w = ok (complete t w)
run_adhoc t (start ∷ starts) w = run_scope t (w.token t).owned w

abbrev pub run_sub_process : ℕ → List ℕ → World → Result World
run_sub_process t [] w = throw failed_assert
run_sub_process t (start ∷ []) w = run_scope t (w.token t).owned w
run_sub_process t _ w = throw runtime_error

module _ (node_of : ℕ → Node) (x : Expressions) where
  -- A task whose operators are applied when it becomes busy.
  abbrev pub applies_operators : Node → Bool
  applies_operators node =
      node.represents task_node
      && not (node.represents receive_task_node)
      && not (node.represents decision_task_node)

  unfoldable pub prepare_task : ℕ → World → Result World
  unfolding apply_operators
  prepare_task t w =
      if applies_operators (node_of (w.token t).node)
      then (apply_operators node_of x t (
            put_token w t
              (record (w.token t) { status = set_timestamp (w.token t).status w.current_time }))
          >>= λ v. check_timestamp (v.token t).status.attributes v)
      else ok w

  unfoldable pub begin_task : ℕ → World → Result World
  unfolding await_choice_event send await_task_completion_event
  begin_task t w =
      let node = node_of (w.token t).node in
      if node.represents decision_task_node
      then await_choice_event node_of t w
      else if node.represents send_task_node
      then send node_of x t w
      else await_task_completion_event t w

  unfoldable pub await_trigger : ℕ → World → Result World
  unfolding await_time await_signal await_conditions await_message_delivery begin_task
  await_trigger t w =
      let node = node_of (w.token t).node in
      if node.represents timer_catch_event_node
      then (if x.has_trigger (w.token t).node
          then ok (await_time t (x.trigger_time t w) w)
          else throw runtime_error)
      else if node.represents signal_catch_event_node
      then ok (await_signal (x.signal_name (w.token t).node) t w)
      else if node.represents conditional_catch_event_node
      then ok (
          if x.conditions_satisfied t w
          then complete t w
          else await_conditions (x.process_instance_of w t) t w)
      else if node.represents message_catch_event_node
      then await_message_delivery node_of (x.recipient_header t w) t w
      else if node.represents task_node
      then begin_task t w
      else ok w

  unfoldable pub begin : ℕ → World → Result World
  unfolding await_trigger
  begin t w =
      let node = node_of (w.token t).node in
      if node.represents process_node
      then run_process t node.start_nodes w
      else if node.represents sequential_adhoc_subprocess_node
      then run_adhoc t node.start_nodes w
      else if node.represents sub_process_node
      then run_sub_process t node.start_nodes w
      else if node.represents event_based_gateway_node
      then ok (enqueue_for_token w (Call.advance_to_departing t) t)
      else if node.represents untyped_start_event_node
          || (node.represents typed_start_event_node
              && (node_of node.parent).represents process_node)
      then ok (complete t w)
      else await_trigger t w

  -- `Token::advanceToBusy`
  unfoldable pub advance_to_busy : ℕ → World → Result World
  unfolding prepare_task update begin
  advance_to_busy t w = prepare_task t w >>= λ v. update node_of t busy_state v >>= begin t
