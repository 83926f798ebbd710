-- ===== src/Engine/Failures.antt =====
-- execution/engine/src/StateMachine.cpp: how a failure or an escalation is handled. It is caught at the activity, or within its
-- scope, or handed on to the token whose scope it is.
pub mod Handled
use bpmnos_engine.Prelude.{
  ℕ, zero, suc, Bool, true, false, not, ◌&&◌, Option, none, some, List, [], ◌∷◌, if◌then◌else◌,
  Result, ok, throw, ◌>>=◌, undefined_behaviour, out_of_range,
}
use bpmnos_engine.Engine.World.{
  TokenState, waiting_state, Node, flow_node, activity_node, event_sub_process_node,
  compensate_start_event_node, compensate_boundary_event_node, Call, World, put_token,
  enqueue_for_token,
}
use bpmnos_engine.Engine.Messages.{if_some, set_content}
use bpmnos_engine.Engine.Catchers.{
  Definition, error_definition_of, escalation_definition_of, select_catcher,
}
use bpmnos_engine.Engine.Withdrawal.{clear_obsolete_tokens, withdraw_compensation_tokens}
use bpmnos_engine.Engine.Expressions.{Expressions}
use bpmnos_engine.Engine.Advance.Entered.{is_multi_instance, deref}
use bpmnos_engine.Engine.Advance.Completed.{advance_to_completed}
use bpmnos_engine.Engine.Advance.Failed.{advance_to_failed}

abbrev pub is_waiting : TokenState → Bool
is_waiting waiting_state = true
is_waiting _ = false

-- `other->content = std::exchange(token->content, std::nullopt)`
unfoldable pub hand_content : ℕ → ℕ → World → World
hand_content t other w =
    let v = put_token w t (set_content (w.token t) none) in
    put_token v other (set_content (v.token other) (w.token t).content)

-- `tokens.front()`
abbrev pub front : List ℕ → Result ℕ
front [] = throw undefined_behaviour
front (t ∷ ts) = ok t

module _ (node_of : ℕ → Node) (x : Expressions) where
  -- What a token at a boundary event, and an event subprocess that has not been triggered, catch.
  unfoldable pub error_at_token : World → ℕ → Definition
  unfolding error_definition_of
  error_at_token w t =
      error_definition_of (node_of (w.token t).node) (x.error_name (w.token t).node)

  unfoldable pub escalation_at_token : World → ℕ → Definition
  unfolding escalation_definition_of
  escalation_at_token w t =
      escalation_definition_of (node_of (w.token t).node) (x.escalation_name (w.token t).node)

  unfoldable pub error_at_start : World → ℕ → Definition
  unfolding error_definition_of
  error_at_start w e = if_some (w.machine e).scope none (λ scope.
      error_definition_of (node_of (node_of scope).start_event)
        (x.error_name (node_of scope).start_event))

  unfoldable pub escalation_at_start : World → ℕ → Definition
  unfolding escalation_definition_of
  escalation_at_start w e = if_some (w.machine e).scope none (λ scope.
      escalation_definition_of (node_of (node_of scope).start_event)
        (x.escalation_name (node_of scope).start_event))

  -- The token at an activity that catches what its boundary events or the event subprocesses can catch.
  unfoldable pub find_boundary : (World → ℕ → Definition) → ℕ → World → Option ℕ
  unfolding select_catcher
  find_boundary definition_at t w =
      if (node_of (w.token t).node).represents flow_node
      then select_catcher (definition_at w) (w.token t).content (w.tokens_awaiting_boundary_event t)
      else none

  unfoldable pub find_event_sub_process : (World → ℕ → Definition) → ℕ → ℕ → World → Option ℕ
  unfolding select_catcher
  find_event_sub_process definition_at m t w =
      select_catcher (definition_at w) (w.token t).content (w.machine m).pending_event_sub_processes

  -- The token whose scope it is; what a compensation event subprocess compensates has completed.
  unfoldable pub upper_token : ℕ → ℕ → World → Result ℕ
  upper_token m parent w = deref (w.machine m).scope >>= λ scope.
      if (node_of scope).represents event_sub_process_node
        && (node_of (node_of scope).start_event).represents compensate_start_event_node
      then deref (w.machine (w.token parent).owner).parent_token
      else ok parent

  -- What is not caught is handed on.
  unfoldable pub hand_on_escalation : ℕ → ℕ → ℕ → World → Result World
  unfolding upper_token hand_content
  hand_on_escalation m t parent w = upper_token m parent w >>= λ upper.
      let v = hand_content t upper w in
      ok (enqueue_for_token v (Call.handle_escalation (v.token upper).owner upper) upper)

  -- The token at a process that has failed is removed.
  unfoldable pub hand_on_failure : ℕ → ℕ → World → Result World
  unfolding upper_token hand_content
  hand_on_failure m t w =
      if_some (w.machine m).parent_token (ok (enqueue_for_token w (Call.delete_instance t) t))
        (λ parent. upper_token m parent w >>= λ upper.
          ok (enqueue_for_token (hand_content t upper w) (Call.advance_to_failed upper) upper))

  -- The compensations of a scope in which one has failed are withdrawn.
  abbrev pub is_compensation : Node → Bool
  is_compensation node =
      node.represents flow_node
      && (if node.represents activity_node
          then node.is_for_compensation
          else node.represents compensate_boundary_event_node)

  -- Whether the token is the one of an instance of a multi-instance activity.
  abbrev pub main_of : ℕ → World → Option ℕ
  main_of t w =
      let node = node_of (w.token t).node in
      if node.represents flow_node && node.represents activity_node && not node.is_for_compensation
      then w.token_at_multi_instance_activity t
      else none

  module _ (source : ℕ → ℕ) (depth : ℕ) where
    -- The token at the start event of the event subprocess is triggered, when all others have been withdrawn.
    unfoldable pub trigger_on_failure : ℕ → ℕ → ℕ → World → Result World
    unfolding hand_content clear_obsolete_tokens
    trigger_on_failure m t e w = front (w.machine e).tokens >>= λ event_token.
        clear_obsolete_tokens node_of depth m (hand_content t event_token w) >>= λ v.
        ok (enqueue_for_token v (Call.advance_to_completed event_token) event_token)

    unfoldable pub catch_failure : ℕ → ℕ → World → Result World
    unfolding find_boundary find_event_sub_process error_at_token error_at_start hand_content
        advance_to_completed trigger_on_failure hand_on_failure
    catch_failure m t w =
        if_some (find_boundary error_at_token t w)
          (if_some (find_event_sub_process error_at_start m t w) (hand_on_failure m t w)
            (λ e. trigger_on_failure m t e w))
          (λ event_token.
            advance_to_completed node_of x depth source event_token (hand_content t event_token w))

    -- `StateMachine::handleFailure`
    unfoldable pub handle_failure : ℕ → ℕ → World → Result World
    unfolding hand_content advance_to_failed withdraw_compensation_tokens catch_failure
    handle_failure m t w =
        if_some (main_of t w)
          ((if is_compensation (node_of (w.token t).node)
              then withdraw_compensation_tokens node_of depth m w
              else ok w)
            >>= catch_failure m t)
          (λ main. advance_to_failed node_of main (hand_content t main w))

    -- The token of an instance of a multi-instance activity hands the escalation to the main token.
    abbrev pub is_instance : ℕ → World → Bool
    is_instance t w =
        let node = node_of (w.token t).node in
        node.represents activity_node
        && not (is_waiting (w.token t).state)
        && is_multi_instance node.loop_characteristics

    unfoldable pub catch_escalation : ℕ → ℕ → ℕ → World → Result World
    unfolding find_boundary escalation_at_token hand_content advance_to_completed hand_on_escalation
    catch_escalation m t parent w =
        if_some (find_boundary escalation_at_token t w) (hand_on_escalation m t parent w)
          (λ event_token.
            advance_to_completed node_of x depth source event_token (hand_content t event_token w))

    -- `StateMachine::handleEscalation`; the main token waits, so that two rounds are enough.
    unfoldable pub handle_escalation : ℕ → ℕ → ℕ → World → Result World
    unfolding find_event_sub_process escalation_at_start hand_content advance_to_completed
        catch_escalation
    handle_escalation zero m t w = throw undefined_behaviour
    handle_escalation (suc fuel) m t w =
        let recurse = handle_escalation fuel m in
        if_some (w.machine m).parent_token (ok (put_token w t (set_content (w.token t) none)))
          (λ parent.
            if_some (find_event_sub_process escalation_at_start m t w)
              (if is_instance t w
                then if_some (w.token_at_multi_instance_activity t) (throw out_of_range)
                    (λ main. recurse main (hand_content t main w))
                else catch_escalation m t parent w)
              (λ e. front (w.machine e).tokens >>= λ event_token.
                advance_to_completed node_of x depth source event_token
                  (hand_content t event_token w)))
