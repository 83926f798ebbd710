-- ===== src/Engine/Advance/Ended.antt =====
-- execution/engine/src/Token.cpp: what a token does after it has completed a node, and how it ends.
use bpmnos_engine.Prelude.{
  ℕ, ◌-◌, Bool, true, false, not, ◌&&◌, Option, none, some, List, [], ◌∷◌, ◌==◌, if◌then◌else◌,
  Result, ok, throw, ◌>>=◌, runtime_error, failed_assert, take, length,
}
use bpmnos_engine.Engine.World.{
  ready_state, done_state, Status, Token, LoopCharacteristics, standard, multi_instance_sequential,
  multi_instance_parallel, Node, process_node, flow_node, activity_node, sub_process_node,
  compensate_boundary_event_node, Call, World, put_token, enqueue_for_token, enqueue_for_machine,
}
use bpmnos_engine.Engine.Tokens.{update}
use bpmnos_engine.Engine.Performer.{
  in_sequential_adhoc, await_entry_event, release_sequential_performer,
}
use bpmnos_engine.Engine.Messages.{if_some}
use bpmnos_engine.Engine.Gateways.{set_tokens}
use bpmnos_engine.Engine.Destruction.{destroy_machine, destroy_tokens}
use bpmnos_engine.Engine.Withdrawal.{for_each, withdraw_compensation_tokens}
use bpmnos_engine.Engine.Expressions.{Expressions, add_to_objective}
use bpmnos_engine.Engine.Events.{set_status}
use bpmnos_engine.Engine.Scopes.{set_pending_event_sub_processes}
use bpmnos_engine.Engine.Shutdown.{
  by_event_sub_process, set_non_interrupting, reset_interrupting, attempt_shutdown,
}
use bpmnos_engine.Engine.Advance.Departing.{leave}
use bpmnos_engine.Engine.Advance.Entered.{is_standard, is_multi_instance, is_empty, deref}

abbrev pub same_loop : Option LoopCharacteristics → Option LoopCharacteristics → Bool
same_loop none none = true
same_loop (some standard) (some standard) = true
same_loop (some multi_instance_sequential) (some multi_instance_sequential) = true
same_loop (some multi_instance_parallel) (some multi_instance_parallel) = true
same_loop _ _ = false

-- `status.attributes.resize( status.attributes.size() - extensionElements->attributes.size() )`, and so for the objects.
abbrev pub without : ℕ → ℕ → Status → Status
without attributes objects s = record s {
  attributes = take (length s.attributes - attributes) s.attributes;
  objects = take (length s.objects - objects) s.objects;
}

abbrev pub set_owned : Token → Option ℕ → Token
set_owned token m = record token { owned = m }

module _ (node_of : ℕ → Node) where
  -- The compensate boundary event of an activity.
  unfoldable pub find_compensate : List ℕ → Option ℕ
  find_compensate [] = none
  find_compensate (b ∷ bs) =
      if (node_of b).represents compensate_boundary_event_node then some b else find_compensate bs

  -- Whether an activity that compensates has other loop characteristics than the one it compensates.
  abbrev pub loops_otherwise : Node → Node → Bool
  loops_otherwise compensation node =
      compensation.represents activity_node
      && not (same_loop node.loop_characteristics compensation.loop_characteristics)

  -- Whether the compensations within the scope of a token may still be triggered after the token has completed.
  abbrev pub stays_compensable : Node → Bool
  stays_compensable node =
      node.represents sub_process_node && by_event_sub_process node_of node.compensated_by

module _ (node_of : ℕ → Node) (x : Expressions) (event_sub_process_of : ℕ → Option ℕ) where
  -- A compensation is created by a command, an event subprocess or a token at the boundary event.
  unfoldable pub create_compensation : ℕ → World → Result World
  unfolding find_compensate
  create_compensation t w =
      let node = node_of (w.token t).node in
      let own = (w.token t).owner in
      let status = (w.token t).status in
      if_some
        (if node.represents sub_process_node then event_sub_process_of (w.token t).node else none)
        (ok (
          if_some (find_compensate node_of node.boundary_events) w
            (λ b. enqueue_for_machine w (Call.create_compensation_token own b status) own)))
        (λ e. if_some (w.token t).owned (throw failed_assert) (λ m.
          if_some (w.machine m).parent_token (throw failed_assert) (λ copy.
            if copy == t
            then throw failed_assert
            else ok (
                enqueue_for_machine w (Call.create_compensation_event_sub_process own e status copy)
                  own))))

  -- `Token::awaitCompensation`, of a node compensated by the one given.
  unfoldable pub await_compensation : ℕ → ℕ → World → Result World
  unfolding create_compensation
  await_compensation compensated_by t w =
      if loops_otherwise node_of (node_of compensated_by) (node_of (w.token t).node)
      then throw runtime_error
      else create_compensation t w

  unfoldable pub clear_event_sub_processes : ℕ → World → Result World
  unfolding destroy_machine reset_interrupting
  clear_event_sub_processes m w = do
    a ← reset_interrupting node_of m w
    b ←
        for_each (destroy_machine node_of) (a.machine m).non_interrupting_event_sub_processes
          (set_non_interrupting a m [])
    for_each (destroy_machine node_of) (b.machine m).pending_event_sub_processes
        (set_pending_event_sub_processes b m [])

  -- `owned.reset()`: a state machine that a copy of the token owns as well stays.
  unfoldable pub release_owned : ℕ → ℕ → World → Result World
  unfolding destroy_machine
  release_owned t m w =
      let v = put_token w t (set_owned (w.token t) none) in
      if stays_compensable node_of (node_of (w.token t).node)
      then ok v
      else destroy_machine node_of m v

  -- The state machine that the token owns is cleared and let go of.
  unfoldable pub clear_owned : ℕ → ℕ → World → Result World
  unfolding withdraw_compensation_tokens destroy_tokens clear_event_sub_processes release_owned
  clear_owned depth t w = if_some (w.token t).owned (ok w) (λ m.
      (if stays_compensable node_of (node_of (w.token t).node)
        then ok w
        else withdraw_compensation_tokens node_of depth m w)
      >>= λ a. destroy_tokens node_of (a.machine m).tokens (set_tokens a m []) >>= λ b.
          clear_event_sub_processes m b >>= release_owned t m)

  abbrev pub delete_boundary_tokens : ℕ → World → World
  delete_boundary_tokens t w =
      let node = node_of (w.token t).node in
      let own = (w.token t).owner in
      if node.represents activity_node && not (is_empty node.boundary_events)
      then enqueue_for_machine w (Call.delete_tokens_awaiting_boundary_event own t) own
      else w

  -- The part of `advanceFromCompleted` for a token that does not loop.
  unfoldable pub end_activity : ℕ → ℕ → World → Result World
  unfolding clear_owned leave
  end_activity depth t w =
      let n = (w.token t).node in
      let v = put_token w t (
        set_status (w.token t)
          (without (x.attributes_declared n) (x.objects_declared n) (w.token t).status)) in
      if (node_of n).represents activity_node && is_multi_instance (node_of n).loop_characteristics
      then ok
          (enqueue_for_token v (Call.delete_multi_instance_activity_token (v.token t).owner t) t)
      else (clear_owned depth t (delete_boundary_tokens t v) >>= leave node_of x.gate t)

  -- A standard loop: the token becomes ready again.
  unfoldable pub loop_or_end : ℕ → ℕ → World → Result World
  unfolding update await_entry_event end_activity
  loop_or_end depth t w =
      let node = node_of (w.token t).node in
      if node.represents activity_node && is_standard node.loop_characteristics && x.loops t w
      then update node_of t ready_state w >>= await_entry_event node_of t
      else end_activity depth t w

  -- `Token::advanceFromCompleted`
  unfoldable pub advance_from_completed : ℕ → ℕ → World → Result World
  unfolding release_sequential_performer add_to_objective await_compensation loop_or_end
  advance_from_completed depth t w = do
    released ←
        if in_sequential_adhoc node_of w t then release_sequential_performer node_of t w else ok w
    let counted = add_to_objective (x.final_value t released) released
    let node = node_of (counted.token t).node
    awaited ←
        if node.represents activity_node
        then if_some node.compensated_by (ok counted) (λ c. await_compensation c t counted)
        else ok counted
    loop_or_end depth t awaited

module _ (node_of : ℕ → Node) where
  -- `Token::advanceToDone`
  unfoldable pub advance_to_done : ℕ → ℕ → World → Result World
  unfolding withdraw_compensation_tokens update attempt_shutdown
  advance_to_done depth t w =
      let node = node_of (w.token t).node in
      (if node.represents process_node
        then (deref (w.token t).owned >>= λ m. withdraw_compensation_tokens node_of depth m w)
        else ok w)
      >>= update node_of t done_state
      >>= λ v.
          if node.represents flow_node && in_sequential_adhoc node_of w t
          then ok (enqueue_for_token v (Call.delete_ad_hoc_sub_process_token (v.token t).owner t) t)
          else if node.represents process_node
          then ok (enqueue_for_token v (Call.delete_instance t) t)
          else attempt_shutdown node_of depth (v.token t).owner v
