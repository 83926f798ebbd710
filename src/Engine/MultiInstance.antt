-- ===== src/Engine/MultiInstance.antt =====
-- execution/engine/src/StateMachine.cpp: the instances of multi-instance activities. The main token waits while each instance
-- has a token, with a state machine, of its own.
pub mod Unchanged
pub mod Links
pub mod Chain
use bpmnos_engine.Prelude.{
  ℕ, zero, suc, ◌+◌, true, not, ◌&&◌, Option, none, some, List, [], ◌∷◌, ◌++◌, if◌then◌else◌,
  Result, ok, throw, ◌>>=◌, length, set, runtime_error, failed_assert, out_of_range,
}
use bpmnos_engine.Prelude.Int.{ℤ, pos}
use bpmnos_engine.Utility.Erase.{erase_ptr}
use bpmnos_engine.Values.Number.{has_value}
use bpmnos_engine.Engine.World.{
  created_state, ready_state, waiting_state, done_state, Status, LoopCharacteristics,
  multi_instance_parallel, Node, activity_node, scope_node, Call, World, put, put_token,
  enqueue_for_token,
}
use bpmnos_engine.Engine.Tokens.{update}
use bpmnos_engine.Engine.Performer.{await_entry_event}
use bpmnos_engine.Engine.Statuses.{merge_status}
use bpmnos_engine.Engine.Messages.{if_some}
use bpmnos_engine.Engine.Gateways.{copy_of, add_token}
use bpmnos_engine.Engine.Events.{set_status}
use bpmnos_engine.Engine.Destruction.{is_sequential, remove_token}
use bpmnos_engine.Engine.Withdrawal.{withdraw_compensation_tokens}
use bpmnos_engine.Engine.Expressions.{Expressions, add_to_objective}
use bpmnos_engine.Engine.Advance.Entered.{is_empty}
use bpmnos_engine.Engine.Advance.Ended.{set_owned, stays_compensable}
use bpmnos_engine.Engine.Interruption.{delete_tokens_awaiting_boundary_event}

-- `StateMachine::createChild`, the identifier of the instance being given; the new state machine has the next address.
unfoldable pub create_child : ℕ → Option ℕ → Option ℤ → World → World
create_child parent scope instance_id w = record w {
  machine = put w.machine w.next (record {
    tokens = [];
    parent_token = some parent;
    instance_id = instance_id;
    scope = scope;
    interrupting_event_sub_process = none;
    pending_event_sub_processes = [];
    non_interrupting_event_sub_processes = [];
    compensable_sub_processes = [];
    compensation_tokens = [];
    compensation_event_sub_processes = [];
  });
  alive = put w.alive w.next true;
  next = suc w.next;
  token = put w.token parent (set_owned (w.token parent) (some w.next));
}

abbrev pub list_or_empty {ℓ} : {A : Type ℓ} → Option (List A) → List A
list_or_empty none = []
list_or_empty (some as') = as'

-- The value of the loop index for an instance.
abbrev pub with_index : Option ℕ → ℕ → Status → Status
with_index none i s = s
with_index (some attribute) i s = record s {
  attributes = set s.attributes attribute (some (pos i));
}

-- What is known of the token of an instance, registered before its first update.
abbrev pub register_instance : ℕ → ℕ → World → World
register_instance main t w = record w {
  tokens_at_activity_instance =
      put w.tokens_at_activity_instance main
        (some (list_or_empty (w.tokens_at_activity_instance main) ++ t ∷ []));
  completion_status_at_activity_instance =
      put w.completion_status_at_activity_instance main (some []);
  token_at_multi_instance_activity = put w.token_at_multi_instance_activity t (some main);
}

module _ (node_of : ℕ → Node) (x : Expressions) where
  unfoldable pub make_ready : ℕ → World → Result World
  unfolding update await_entry_event
  make_ready t w = update node_of t ready_state w >>= await_entry_event node_of t

  -- The token of an instance of the activity of the main token, with the number given.
  unfoldable pub add_instance_token : ℕ → ℕ → ℕ → World → World
  unfolding create_child add_to_objective
  add_instance_token m main counter w =
      let t = w.next in
      let token =
        copy_of (w.token main)
          (with_index (x.loop_index_attribute (w.token main).node) counter (w.token main).status) in
      let is_scope = (node_of (w.token main).node).represents scope_node in
      let v =
        create_child t (if is_scope then some (w.token main).node else none)
          (some (x.instance_identity m main counter w)) (add_token m token w) in
      register_instance main t
        (if is_scope then add_to_objective (x.scope_value (suc t) v) v else v)

  -- Only the first instance of a sequential activity becomes ready at once, the others await their predecessors.
  unfoldable pub begin_instance : LoopCharacteristics → Option ℕ → ℕ → World → Result World
  unfolding make_ready
  begin_instance multi_instance_parallel previous t w = make_ready t w
  begin_instance _ none t w = make_ready t w
  begin_instance _ (some p) t w = ok (record w {
    token_awaiting_multi_instance_completion =
        put w.token_awaiting_multi_instance_completion p (some t);
  })

  unfoldable pub add_instances :
      ℕ → ℕ → LoopCharacteristics → Option ℕ → ℕ → ℕ → World → Result World
  unfolding add_instance_token update begin_instance
  add_instances m main kind previous zero counter w = ok w
  add_instances m main kind previous (suc rounds) counter w =
      update node_of w.next created_state (add_instance_token m main counter w)
      >>= begin_instance kind previous w.next
      >>= add_instances m main kind (some w.next) rounds (suc counter)

  -- The instances, of a cardinality that is not zero.
  unfoldable pub create_instances : ℕ → ℕ → LoopCharacteristics → ℕ → World → Result World
  unfolding add_instances update
  create_instances m t kind zero w = throw runtime_error
  create_instances m t kind (suc rounds) w =
      if has_value (w.tokens_at_activity_instance t)
      then throw failed_assert
      else if has_value (w.completion_status_at_activity_instance t)
      then throw failed_assert
      else if (node_of (w.token t).node).represents scope_node && not (has_value (w.token t).owned)
      then throw failed_assert
      else (add_instances m t kind none (suc rounds) 1 w >>= update node_of t waiting_state)

  -- `StateMachine::createMultiInstanceActivityTokens`
  unfoldable pub create_multi_instance_activity_tokens : ℕ → ℕ → World → Result World
  unfolding create_instances
  create_multi_instance_activity_tokens m t w =
      let n = (w.token t).node in
      if_some (x.loop_cardinality t w) (throw runtime_error) (λ cardinality.
        if x.loop_index_given n && not (has_value (x.loop_index_attribute n))
        then throw runtime_error
        else if_some (node_of n).loop_characteristics (throw failed_assert)
            (λ kind. create_instances m t kind cardinality w))

  -- The instance that waits for the completed one becomes ready.
  unfoldable pub advance_next_instance : ℕ → World → Result World
  unfolding make_ready
  advance_next_instance t w =
      if_some (w.token_awaiting_multi_instance_completion t) (ok w) (λ next_token.
        make_ready next_token w >>= λ v. ok (record v {
          token_awaiting_multi_instance_completion =
              put v.token_awaiting_multi_instance_completion t none;
        }))

  unfoldable pub merge_completions : ℕ → Option (List Status) → World → Result World
  unfolding merge_status
  merge_completions main none w = ok w
  merge_completions main (some statuses) w = merge_status w.next statuses >>= λ status.
      ok (record (put_token w main (set_status (w.token main) status)) {
        next = w.next + length status.objects;
        completion_status_at_activity_instance =
            put w.completion_status_at_activity_instance main none;
      })

  abbrev pub leave_main : ℕ → World → World
  leave_main main w =
      enqueue_for_token w
        (if is_empty (node_of (w.token main).node).outgoing
          then Call.advance_to_done main
          else Call.advance_to_departing main)
        main

  module _ (depth : ℕ) where
    -- The last instance has completed.
    unfoldable pub complete_main : ℕ → Node → ℕ → World → Result World
    unfolding delete_tokens_awaiting_boundary_event merge_completions
    complete_main m node main w =
        let v = record w {
          tokens_at_activity_instance = put w.tokens_at_activity_instance main none;
        } in
        (if is_empty node.boundary_events
          then ok v
          else delete_tokens_awaiting_boundary_event node_of depth m main v)
        >>= λ u. merge_completions main (u.completion_status_at_activity_instance main) u >>= λ s.
            ok (leave_main main s)

    -- The completion of an instance is recorded, and its token removed.
    unfoldable pub record_completion : ℕ → ℕ → ℕ → World → Result World
    unfolding erase_ptr remove_token
    record_completion m main t w =
        let statuses = list_or_empty (w.completion_status_at_activity_instance main) in
        erase_ptr (list_or_empty (w.tokens_at_activity_instance main)) t >>= λ instances.
        remove_token node_of m t (record w {
          completion_status_at_activity_instance =
              put w.completion_status_at_activity_instance main
                (some (statuses ++ (w.token t).status ∷ []));
          token_at_multi_instance_activity = put w.token_at_multi_instance_activity t none;
          tokens_at_activity_instance = put w.tokens_at_activity_instance main (some instances);
        })

    unfoldable pub withdraw_within : Node → ℕ → World → Result World
    unfolding withdraw_compensation_tokens
    withdraw_within node t w = if_some (w.token t).owned (ok w) (λ owned.
        if stays_compensable node_of node
        then ok w
        else withdraw_compensation_tokens node_of depth owned w)

    -- `StateMachine::deleteMultiInstanceActivityToken`
    unfoldable pub delete_multi_instance_activity_token : ℕ → ℕ → World → Result World
    unfolding withdraw_within update advance_next_instance record_completion complete_main
    delete_multi_instance_activity_token m t w =
        let node = node_of (w.token t).node in
        if_some (w.token_at_multi_instance_activity t) (throw out_of_range) (λ main.
          if not (node.represents activity_node)
          then throw failed_assert
          else (withdraw_within node t w >>= update node_of t done_state >>= λ a.
              (if is_sequential node.loop_characteristics then advance_next_instance t a else ok a)
              >>= λ b. record_completion m main t b >>= λ c.
                  if is_empty (list_or_empty (c.tokens_at_activity_instance main))
                  then complete_main m node main c
                  else ok c))
