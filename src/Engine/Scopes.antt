-- ===== src/Engine/Scopes.antt =====
-- execution/engine/src/StateMachine.cpp: the tokens with which a scope begins, its event subprocesses, and the tokens at the
-- boundary events of its activities.
use bpmnos_engine.Prelude.{
  ℕ, suc, Bool, true, not, ◌&&◌, Option, none, some, List, [], ◌∷◌, ◌++◌, if◌then◌else◌, Result, ok,
  throw, ◌>>=◌, failed_assert, out_of_range,
}
use bpmnos_engine.Prelude.Int.{ℤ}
use bpmnos_engine.Engine.World.{
  Status, StateMachine, Node, activity_node, typed_start_event_node, event_sub_process_node,
  compensate_boundary_event_node, World, put, put_token,
}
use bpmnos_engine.Engine.Messages.{if_some, set_content}
use bpmnos_engine.Engine.Gateways.{add_token}
use bpmnos_engine.Engine.Compensation.{new_token}
use bpmnos_engine.Engine.Withdrawal.{for_each}
use bpmnos_engine.Engine.Expressions.{Expressions, add_to_objective}
use bpmnos_engine.Engine.Advance.Entered.{
  is_empty, is_multi_instance, deref, register_machine, advance_from_created,
}

abbrev pub set_pending_event_sub_processes : World → ℕ → List ℕ → World
set_pending_event_sub_processes w m es = record w {
  machine = put w.machine m (record (w.machine m) { pending_event_sub_processes = es });
}

-- The first identifier given, or else the second.
abbrev pub or_else_id : Option ℤ → Option ℤ → Option ℤ
or_else_id none id = id
or_else_id (some own) id = some own

module _ (node_of : ℕ → Node) (x : Expressions) where
  -- A token for each start node; the first takes the content that the parent token holds.
  unfoldable pub add_start_tokens : ℕ → ℕ → Status → List ℕ → World → World
  add_start_tokens m parent status [] w = w
  add_start_tokens m parent status (node ∷ nodes) w =
      let token = set_content (new_token node_of m node status) (w.token parent).content in
      add_start_tokens m parent status nodes
        (add_token m token (put_token w parent (set_content (w.token parent) none)))

  -- Whether the node is the start event of a non-interrupting event subprocess.
  abbrev pub starts_instance : Node → Bool
  starts_instance node =
      node.represents typed_start_event_node
      && not node.is_interrupting
      && (node_of node.parent).represents event_sub_process_node

  unfoldable pub begin_token : ℕ → ℕ → World → Result World
  unfolding register_machine advance_from_created
  begin_token m t w =
      (if starts_instance (node_of (w.token t).node) then register_machine (some m) w else ok w)
      >>= λ v. advance_from_created node_of x t v

  -- `StateMachine::run`
  unfoldable pub run : ℕ → Status → World → Result World
  unfolding add_start_tokens for_each begin_token
  run m status w = deref (w.machine m).parent_token >>= λ parent.
      deref (w.machine m).scope >>= λ scope.
      let v = add_start_tokens m parent status (node_of scope).start_nodes w in
      for_each (begin_token m) (v.machine m).tokens v

  abbrev pub new_event_sub_process : ℕ → ℕ → World → StateMachine
  new_event_sub_process m event_sub_process w = record {
    tokens = [];
    parent_token = (w.machine m).parent_token;
    instance_id =
        if (node_of (node_of event_sub_process).start_event).is_interrupting
        then (w.machine m).instance_id
        else or_else_id (x.new_identity m event_sub_process w) (w.machine m).instance_id;
    scope = some event_sub_process;
    interrupting_event_sub_process = none;
    pending_event_sub_processes = [];
    non_interrupting_event_sub_processes = [];
    compensable_sub_processes = [];
    compensation_tokens = [];
    compensation_event_sub_processes = [];
  }

  -- `StateMachine::createPendingEventSubProcess`; the new state machine has the next address.
  unfoldable pub create_pending_event_sub_process : ℕ → ℕ → Status → World → Result World
  unfolding add_to_objective run
  create_pending_event_sub_process m event_sub_process status w =
      let e = w.next in
      let v = record w {
        machine = put w.machine e (new_event_sub_process m event_sub_process w);
        alive = put w.alive e true;
        next = suc e;
      } in
      run e (x.initial_status event_sub_process status w) (add_to_objective (x.scope_value e v) v)

  unfoldable pub add_pending : ℕ → Status → List ℕ → World → Result World
  unfolding create_pending_event_sub_process
  add_pending m status [] w = ok w
  add_pending m status (event_sub_process ∷ rest) w =
      create_pending_event_sub_process m event_sub_process status w >>= λ v.
      add_pending m status rest (
        set_pending_event_sub_processes v m
          ((v.machine m).pending_event_sub_processes ++ w.next ∷ []))

  -- `StateMachine::initiateEventSubprocesses`
  unfoldable pub initiate_event_sub_processes : ℕ → ℕ → World → Result World
  unfolding add_pending
  initiate_event_sub_processes m t w = deref (w.machine m).scope >>= λ scope.
      add_pending m (w.token t).status (node_of scope).event_sub_processes w

  -- `StateMachine::initiateBoundaryEvent`
  unfoldable pub initiate_boundary_event : ℕ → ℕ → ℕ → World → Result World
  unfolding advance_from_created
  initiate_boundary_event m t node w =
      let created = w.next in
      let v = add_token m (new_token node_of m node (w.token t).status) w in
      advance_from_created node_of x created (record v {
        token_associated_to_boundary_event_token =
            put v.token_associated_to_boundary_event_token created (some t);
        tokens_awaiting_boundary_event =
            put v.tokens_awaiting_boundary_event t
              (v.tokens_awaiting_boundary_event t ++ created ∷ []);
      })

  unfoldable pub initiate_all : ℕ → ℕ → List ℕ → World → Result World
  unfolding initiate_boundary_event
  initiate_all m t [] w = ok w
  initiate_all m t (node ∷ nodes) w =
      (if (node_of node).represents compensate_boundary_event_node
        then ok w
        else initiate_boundary_event m t node w)
      >>= initiate_all m t nodes

  unfoldable pub initiate_at : ℕ → Node → ℕ → World → Result World
  unfolding initiate_all
  initiate_at m node t w =
      if is_empty (w.tokens_awaiting_boundary_event t)
      then initiate_all m t node.boundary_events w
      else ok w

  -- `StateMachine::initiateBoundaryEvents`
  unfoldable pub initiate_boundary_events : ℕ → ℕ → World → Result World
  unfolding initiate_at
  initiate_boundary_events m t w =
      let node = node_of (w.token t).node in
      if not (node.represents activity_node)
      then throw failed_assert
      else if is_multi_instance node.loop_characteristics
      then if_some (w.token_at_multi_instance_activity t) (throw out_of_range)
          (λ main. initiate_at m node main w)
      else initiate_at m node t w
