-- ===== src/Engine/Instances.antt =====
-- execution/engine/src: the events from outside of Engine.cpp that start or advance something, each up to the processing of the
-- commands, and `createInstance` of StateMachine.cpp. The data of scopes is not part of the state, and an event therefore carries
-- a status only.
use bpmnos_engine.Prelude.{
  ℕ, suc, Bool, true, false, not, ◌&&◌, ◌||◌, Option, none, some, List, [], ◌∷◌, if◌then◌else◌,
  Result, ok, throw, runtime_error, failed_assert,
}
use bpmnos_engine.Prelude.Int.{ℤ}
use bpmnos_engine.Utility.AutoList.{remove}
use bpmnos_engine.Values.Number.{Value}
use bpmnos_engine.Engine.World.{
  Status, Content, Node, process_node, scope_node, decision_task_node, Call, World, put, put_token,
  enqueue_always, enqueue_for_token,
}
use bpmnos_engine.Engine.Tokens.{set_timestamp}
use bpmnos_engine.Engine.Messages.{set_content, trigger_by_message}
use bpmnos_engine.Engine.Gateways.{add_token}
use bpmnos_engine.Engine.Compensation.{new_token}
use bpmnos_engine.Engine.Events.{set_status, decide}
use bpmnos_engine.Engine.Expressions.{Expressions, add_to_objective}
use bpmnos_engine.Engine.MultiInstance.{create_child}
use bpmnos_engine.Engine.Advance.Entered.{is_multi_instance, advance_from_created, advance_to_ready}

-- `Engine::process(const SignalBroadcastEvent*)`
unfoldable pub process_signal_broadcast : Content → World → World
process_signal_broadcast content w = enqueue_always w (Call.broadcast_signal content)

abbrev pub defines_timestamp : List Value → Bool
defines_timestamp (some time ∷ rest) = true
defines_timestamp _ = false

-- `++systemState->instantiationCounter[process]`
abbrev pub count_instance : ℕ → World → World
count_instance process w = record w {
  instantiation_counter =
      put w.instantiation_counter process (suc (w.instantiation_counter process));
}

module _ (node_of : ℕ → Node) (x : Expressions) (global : ℕ) where
  -- `StateMachine::createInstance` of the global state machine: the token at the process has the next address, and owns the
  -- state machine of the instance.
  unfoldable pub create_instance : ℕ → ℤ → Status → World → World
  unfolding create_child
  create_instance process id status w =
      create_child w.next (some process) (some id)
        (add_token global (new_token node_of global process status) w)

  -- `Engine::process(const InstantiationEvent*)`, the identifier being the instance attribute of the data.
  unfoldable pub process_instantiation : ℕ → Option ℤ → Status → World → Result World
  unfolding create_instance advance_from_created
  process_instantiation process id status w = if_id id
    where
      if_id : Option ℤ → Result World
      if_id none = throw runtime_error
      if_id (some id) =
          if not (defines_timestamp status.attributes)
          then throw runtime_error
          else advance_from_created node_of x w.next
              (create_instance process id status (count_instance process w))

  -- `Engine::triggerInstance`: the instance is started at once, and its token holds the content of the trigger.
  unfoldable pub trigger_instance : ℕ → Content → World → Result World
  unfolding create_instance advance_to_ready
  trigger_instance process content w =
      let counted = count_instance process w in
      let id = x.process_identity process (counted.instantiation_counter process) in
      let status = x.initial_status process (record { attributes = []; objects = [] }) counted in
      let created = create_instance process id status counted in
      advance_to_ready node_of x w.next
        (put_token created w.next (set_content (created.token w.next) (some content)))

  -- `Engine::triggerInstanceByMessage`
  unfoldable pub trigger_instance_by_message : ℕ → ℕ → World → Result World
  unfolding trigger_by_message trigger_instance
  trigger_instance_by_message process m w = trigger_by_message trigger_instance process m w

module _ (node_of : ℕ → Node) (x : Expressions) where
  -- A token at a scope owns a state machine from its ready event on.
  unfoldable pub ready_scope : ℕ → World → World
  unfolding create_child add_to_objective
  ready_scope t w =
      let node = node_of (w.token t).node in
      if not (node.represents process_node) && node.represents scope_node
      then (let v =
            create_child t (some (w.token t).node) (w.machine (w.token t).owner).instance_id w in
          if node.is_for_compensation || not (is_multi_instance node.loop_characteristics)
          then add_to_objective (x.scope_value w.next v) v
          else v)
      else w

  -- `Engine::process(const ReadyEvent*)`
  unfoldable pub process_ready : ℕ → Status → World → Result World
  unfolding remove ready_scope
  process_ready t status w =
      if not (w.alive t)
      then throw failed_assert
      else (let v =
            put_token
              (record w {
                tokens_awaiting_ready_event = remove w.alive 0 t w.tokens_awaiting_ready_event;
              })
              t (set_status (w.token t) (set_timestamp status w.current_time)) in
          ok (enqueue_for_token (ready_scope t v) (Call.advance_to_ready t) t))

  -- `Engine::process(const ChoiceEvent*)`
  unfoldable pub process_choice : ℕ → List Value → World → Result World
  unfolding decide add_to_objective
  process_choice t choices w =
      if not (w.alive t)
      then throw failed_assert
      else if not ((node_of (w.token t).node).represents decision_task_node)
      then throw failed_assert
      else (let v = decide t w in
          let (status, change) = x.apply_choices t choices v in
          ok (
            enqueue_for_token
              (add_to_objective change (put_token v t (set_status (v.token t) status)))
              (Call.advance_to_completed t) t))
