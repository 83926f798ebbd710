-- ===== src/Engine/Destruction.antt =====
-- execution/engine/src: what the destructors of Token.cpp and StateMachine.cpp do to the system state. The tokens that a
-- state machine still holds when it is destroyed with the token that owns it are not followed.
pub mod Destroyed
use bpmnos_engine.Prelude.{
  ℕ, Bool, true, false, not, ◌&&◌, ◌||◌, Option, none, some, List, [], ◌∷◌, ◌==◌, if◌then◌else◌,
  ltb, length, Result, ok, throw, ◌>>=◌,
}
use bpmnos_engine.Utility.Erase.{erase_ptr}
use bpmnos_engine.Values.Number.{has_value}
use bpmnos_engine.Engine.World.{
  message_withdrawn, Token, LoopCharacteristics, multi_instance_sequential, Node, flow_node,
  activity_node, boundary_event_node, gateway_node, compensate_throw_event_node,
  compensate_boundary_event_node, compensate_start_event_node, event_based_gateway_node,
  catch_event_node, send_task_node, event_sub_process_node, Call, performer_notice, Map, World, put,
  put_token, destroy, notify, enqueue_for_token,
}
use bpmnos_engine.Engine.Performer.{set_performing}
use bpmnos_engine.Engine.Messages.{if_some, remove_message, withdraw_messages}
use bpmnos_engine.Engine.Gateways.{set_tokens}
use bpmnos_engine.Engine.Compensation.{set_compensation_tokens}
use bpmnos_engine.Engine.Advance.Entered.{is_empty, is_multi_instance}

-- `std::erase(tokens, token)`
abbrev pub erase_all : ℕ → List ℕ → List ℕ
erase_all t [] = []
erase_all t (u ∷ ts) = if u == t then erase_all t ts else u ∷ erase_all t ts

abbrev pub or_nothing : ℕ → List ℕ → Map ℕ (List ℕ) → Map ℕ (List ℕ)
or_nothing key [] map = map
or_nothing key ts map = (key, ts) ∷ map

-- The token is removed from those that wait at the gateway, and the gateway from the map if none is left.
unfoldable pub forget_arrival : ℕ → ℕ → Map ℕ (List ℕ) → Map ℕ (List ℕ)
forget_arrival gateway t [] = []
forget_arrival gateway t ((key, ts) ∷ map) =
    if key == gateway
    then or_nothing key (erase_all t ts) map
    else (key, ts) ∷ forget_arrival gateway t map

abbrev pub is_sequential : Option LoopCharacteristics → Bool
is_sequential (some multi_instance_sequential) = true
is_sequential _ = false

module _ (node_of : ℕ → Node) where
  -- The message of a send task that has not been delivered is withdrawn.
  unfoldable pub withdraw_sent : ℕ → World → Result World
  unfolding remove_message
  withdraw_sent t w = if_some (w.message_awaiting_delivery t) (ok w) (λ m.
      (if w.alive m then remove_message message_withdrawn m w else ok w) >>= λ v.
      ok (record v { message_awaiting_delivery = put v.message_awaiting_delivery t none }))

  -- A main token, or the token of an instance.
  unfoldable pub forget_instance : ℕ → World → World
  forget_instance t w =
      if has_value (w.tokens_at_activity_instance t)
      then record w {
        tokens_at_activity_instance = put w.tokens_at_activity_instance t none;
        completion_status_at_activity_instance =
            put w.completion_status_at_activity_instance t none;
      }
      else record w {
        token_at_multi_instance_activity = put w.token_at_multi_instance_activity t none;
        token_awaiting_multi_instance_completion =
            if is_sequential (node_of (w.token t).node).loop_characteristics
            then w.token_awaiting_multi_instance_completion
            else put w.token_awaiting_multi_instance_completion t none;
      }

  unfoldable pub forget_activity : ℕ → World → Result World
  unfolding withdraw_sent forget_instance
  forget_activity t w =
      let node = node_of (w.token t).node in
      (if node.represents send_task_node then withdraw_sent t w else ok w) >>= λ v. ok (
        if is_multi_instance node.loop_characteristics && not node.is_for_compensation
        then forget_instance t v
        else v)

  -- The entries of the maps of the system state.
  unfoldable pub forget_maps : ℕ → World → World
  unfolding forget_arrival
  forget_maps t w =
      let node = node_of (w.token t).node in
      record w {
        token_associated_to_boundary_event_token =
            if node.represents boundary_event_node
            then put w.token_associated_to_boundary_event_token t none
            else w.token_associated_to_boundary_event_token;
        tokens_awaiting_gateway_activation =
            if node.represents gateway_node && ltb 1 (length node.incoming)
            then put w.tokens_awaiting_gateway_activation (w.token t).owner (
                forget_arrival (w.token t).node t
                  (w.tokens_awaiting_gateway_activation (w.token t).owner))
            else w.tokens_awaiting_gateway_activation;
        token_awaiting_compensation_activity =
            if node.represents compensate_throw_event_node
              || node.represents compensate_boundary_event_node
              || node.represents compensate_start_event_node
              || node.represents activity_node
            then put w.token_awaiting_compensation_activity t none
            else w.token_awaiting_compensation_activity;
        tokens_awaiting_event =
            if node.represents event_based_gateway_node
            then put w.tokens_awaiting_event t []
            else w.tokens_awaiting_event;
        token_at_event_based_gateway =
            if node.represents catch_event_node
            then put w.token_at_event_based_gateway t none
            else w.token_at_event_based_gateway;
      }

  abbrev pub stop_performing : ℕ → World → World
  stop_performing t w =
      if has_value (w.token t).performing
      then notify (put_token w t (set_performing (w.token t) none)) (performer_notice t none)
      else w

  -- The command of the destructor is for a token that no longer exists.
  abbrev pub command_deletion : ℕ → World → World
  command_deletion t w =
      let node = node_of (w.token t).node in
      if node.represents activity_node && not (is_empty node.boundary_events)
      then enqueue_for_token w (Call.delete_tokens_awaiting_boundary_event (w.token t).owner t) t
      else w

  unfoldable pub forget : ℕ → World → Result World
  unfolding forget_maps forget_activity
  forget t w =
      let v = forget_maps t (command_deletion t w) in
      if (node_of (w.token t).node).represents activity_node then forget_activity t v else ok v

  -- `StateMachine::unregisterRecipient`, of a state machine with the scope.
  unfoldable pub unregister_recipient : ℕ → ℕ → World → Result World
  unfolding withdraw_messages
  unregister_recipient m scope w =
      if (node_of scope).represents event_sub_process_node
        && not (node_of (node_of scope).start_event).is_interrupting
      then withdraw_messages m w
      else ok w

  -- `StateMachine::~StateMachine`
  unfoldable pub destroy_machine : ℕ → World → Result World
  unfolding unregister_recipient
  destroy_machine m w =
      let v = record w {
        tokens_awaiting_gateway_activation = put w.tokens_awaiting_gateway_activation m [];
        token_awaiting_compensation_event_sub_process =
            put w.token_awaiting_compensation_event_sub_process m none;
      } in
      if_some (w.machine m).scope (ok v) (λ scope. unregister_recipient m scope v) >>= λ u.
      ok (destroy (set_compensation_tokens u m []) m)

  -- `Token::~Token`
  unfoldable pub destroy_token : ℕ → World → Result World
  unfolding forget destroy_machine
  destroy_token t w =
      (if (node_of (w.token t).node).represents flow_node
        then (forget t (destroy w t) >>= λ v. ok (stop_performing t v))
        else ok (destroy w t))
      >>= λ v. if_some (w.token t).owned (ok v) (λ m. destroy_machine m v)

  -- `erase_ptr<Token>(tokens, token)`
  unfoldable pub remove_token : ℕ → ℕ → World → Result World
  unfolding erase_ptr destroy_token
  remove_token m t w =
      erase_ptr (w.machine m).tokens t >>= λ ts. destroy_token t (set_tokens w m ts)

  unfoldable pub destroy_tokens : List ℕ → World → Result World
  unfolding destroy_token
  destroy_tokens [] w = ok w
  destroy_tokens (t ∷ ts) w = destroy_token t w >>= destroy_tokens ts
