-- ===== src/Engine/Destruction/Destroyed.antt =====
-- execution/engine/src: what is left of a token that has been destroyed.
use bpmnos_engine.Prelude.{
  ℕ, ◌≡◌, refl, ap, ◌∙◌, inl, inr, Bool, true, false, not, ◌&&◌, Option, none, some, List, [], ◌∷◌,
  ◌==◌, if◌then◌else◌, Bool-cases, ok, ◌>>=◌,
}
use bpmnos_engine.Utility.Expired.{Tuple}
use bpmnos_engine.Utility.Erase.{erase_ptr}
use bpmnos_engine.Values.Number.{has_value}
use bpmnos_engine.Engine.World.{
  MessageState, message_withdrawn, Token, Node, flow_node, activity_node, event_sub_process_node,
  send_task_node, World, put, put_self, destroy,
}
use bpmnos_engine.Engine.Performer.{set_performing, lock}
use bpmnos_engine.Engine.Messages.{
  if_some, remove_message, withdraw, withdraw_all, withdraw_messages,
}
use bpmnos_engine.Engine.Advance.Entered.{is_empty, is_multi_instance}
use bpmnos_engine.Engine.Destruction.{
  is_sequential, withdraw_sent, forget_instance, forget_activity, forget_maps, command_deletion,
  forget, stop_performing, unregister_recipient, destroy_machine, destroy_token,
}
use bpmnos_engine.Engine.Continuation.{Ends, ended, Ends-if, Ends->>=, Ends-if_some, Ends-ok, both}

still_gone : (alive : ℕ → Bool) (k t : ℕ) → alive t ≡ false → put alive k false t ≡ false
still_gone alive k t h = elim (Bool-cases (k == t)) [ inl e ↦ rw e refl | inr e ↦ rw e h ]

module _ (node_of : ℕ → Node) (t n : ℕ) (entry : Option ℕ) where
  -- The token is gone, and so far nothing has been done about the instance that waits for it.
  record Kept (v : World) : Type 0 where
    gone : v.alive t ≡ false
    node : (v.token t).node ≡ n
    waiting :
        is_sequential (node_of n).loop_characteristics ≡ true
        → v.token_awaiting_multi_instance_completion t ≡ entry

  remove_message-Kept :
      (s : MessageState) (m : ℕ) (w : World) → Kept w → Ends Kept (remove_message s m w)
  unfolding remove_message
  remove_message-Kept s m w k = Ends->>= _ (erase_ptr w.messages m) (λ messages r.
      ended _ (record { gone = still_gone w.alive m t k.gone; node = k.node; waiting = k.waiting }))

  withdraw-Kept : (o : Option ℕ) (w : World) → Kept w → Ends Kept (withdraw o w)
  withdraw-Kept none w k = ended _ k
  withdraw-Kept (some m) w k = remove_message-Kept message_withdrawn m w k

  withdraw_all-Kept : (es : List Tuple) (w : World) → Kept w → Ends Kept (withdraw_all es w)
  unfolding withdraw_all
  withdraw_all-Kept [] w k = ended _ k
  withdraw_all-Kept (e ∷ es) w k =
      Ends->>= _ (withdraw (lock w e) w)
        (λ v r. withdraw_all-Kept es v (Ends-ok _ (withdraw-Kept (lock w e) w k) r))

  withdraw_messages-Kept : (m : ℕ) (w : World) → Kept w → Ends Kept (withdraw_messages m w)
  unfolding withdraw_messages
  withdraw_messages-Kept m w k =
      Ends-if_some _ (w.inbox m) (λ e. ended _ k)
        (λ es e. Ends->>= _ (withdraw_all es w) (λ v r.
          let q = Ends-ok _ (withdraw_all-Kept es w k) r in
          ended _ (record { gone = q.gone; node = q.node; waiting = q.waiting })))

  unregister_recipient-Kept :
      (m scope : ℕ) (w : World) → Kept w → Ends Kept (unregister_recipient node_of m scope w)
  unfolding unregister_recipient
  unregister_recipient-Kept m scope w k =
      Ends-if _
        ((node_of scope).represents event_sub_process_node
          && not (node_of (node_of scope).start_event).is_interrupting)
        (λ e. withdraw_messages-Kept m w k) (λ e. ended _ k)

  destroy_machine-Kept : (m : ℕ) (w : World) → Kept w → Ends Kept (destroy_machine node_of m w)
  unfolding destroy_machine
  destroy_machine-Kept m w k =
      let v = record w {
        tokens_awaiting_gateway_activation = put w.tokens_awaiting_gateway_activation m [];
        token_awaiting_compensation_event_sub_process =
            put w.token_awaiting_compensation_event_sub_process m none;
      } in
      let kv : Kept v = record { gone = k.gone; node = k.node; waiting = k.waiting } in
      Ends->>= _
        (if_some (w.machine m).scope (ok v) (λ scope. unregister_recipient node_of m scope v))
        (λ u r.
          let q =
            Ends-ok _
              (Ends-if_some Kept (w.machine m).scope (λ e. ended _ kv)
                (λ scope e. unregister_recipient-Kept m scope v kv))
              r in
          ended _
            (record { gone = still_gone u.alive m t q.gone; node = q.node; waiting = q.waiting }))

  withdraw_sent-Kept : (w : World) → Kept w → Ends Kept (withdraw_sent node_of t w)
  unfolding withdraw_sent
  withdraw_sent-Kept w k =
      Ends-if_some _ (w.message_awaiting_delivery t) (λ e. ended _ k)
        (λ m e.
          Ends->>= _ (if w.alive m then remove_message message_withdrawn m w else ok w) (λ v r.
            let q =
              Ends-ok _
                (Ends-if Kept (w.alive m) (λ e. remove_message-Kept message_withdrawn m w k)
                  (λ e. ended _ k))
                r in
            ended _ (record { gone = q.gone; node = q.node; waiting = q.waiting })))

  forget_instance-Kept : (w : World) → Kept w → Kept (forget_instance node_of t w)
  unfolding forget_instance
  forget_instance-Kept w k = elim (Bool-cases (has_value (w.tokens_at_activity_instance t))) [
    | inl e ↦ rw e (record { gone = k.gone; node = k.node; waiting = k.waiting })
    | inr e ↦
        rw e (record { gone = k.gone; node = k.node; waiting = λ s. rw (k.node, s) (k.waiting s) })
  ]

  forget_activity-Kept : (w : World) → Kept w → Ends Kept (forget_activity node_of t w)
  unfolding forget_activity
  forget_activity-Kept w k =
      let node = node_of (w.token t).node in
      Ends->>= _ (if node.represents send_task_node then withdraw_sent node_of t w else ok w)
        (λ v r.
          let q =
            Ends-ok _
              (Ends-if Kept (node.represents send_task_node) (λ e. withdraw_sent-Kept w k)
                (λ e. ended _ k))
              r in
          ended _ (
            both Kept (is_multi_instance node.loop_characteristics && not node.is_for_compensation)
              (forget_instance-Kept v q) q))

  forget-Kept : (w : World) → Kept w → Ends Kept (forget node_of t w)
  unfolding forget forget_maps
  forget-Kept w k =
      let node = node_of (w.token t).node in
      let commanded : Kept (command_deletion node_of t w) =
        both Kept (node.represents activity_node && not (is_empty node.boundary_events))
          (record { gone = k.gone; node = k.node; waiting = k.waiting }) k in
      let forgotten : Kept (forget_maps node_of t (command_deletion node_of t w)) = record {
        gone = commanded.gone;
        node = commanded.node;
        waiting = commanded.waiting;
      } in
      Ends-if Kept (node.represents activity_node)
        (λ e. forget_activity-Kept (forget_maps node_of t (command_deletion node_of t w)) forgotten)
        (λ e. ended _ forgotten)

  stop_performing-Kept : (w : World) → Kept w → Kept (stop_performing node_of t w)
  stop_performing-Kept w k =
      both Kept (has_value (w.token t).performing)
        (record {
          gone = k.gone;
          node =
              ap (λ (token : Token). token.node)
                (put_self w.token t (set_performing (w.token t) none))
              ∙ k.node;
          waiting = k.waiting;
        })
        k

  forget_all-Kept :
      (w : World)
      → Kept w
      → Ends Kept (
          if (node_of (w.token t).node).represents flow_node
          then (forget node_of t w >>= λ v. ok (stop_performing node_of t v))
          else ok w)
  forget_all-Kept w k =
      Ends-if Kept ((node_of (w.token t).node).represents flow_node)
        (λ e.
          Ends->>= _ (forget node_of t w)
            (λ v r. ended _ (stop_performing-Kept v (Ends-ok _ (forget-Kept w k) r))))
        (λ e. ended _ k)

module _ (node_of : ℕ → Node) where
  destroy_token-Kept :
      (t : ℕ) (w : World)
      → Ends
          (Kept node_of t (w.token t).node (w.token_awaiting_multi_instance_completion t))
          (destroy_token node_of t w)
  unfolding destroy_token
  destroy_token-Kept t w =
      let n = (w.token t).node in
      let entry = w.token_awaiting_multi_instance_completion t in
      let gone : Kept node_of t n entry (destroy w t) = record {
        gone = put_self w.alive t false;
        node = refl;
        waiting = λ s. refl;
      } in
      Ends->>= _
        (if (node_of n).represents flow_node
          then (forget node_of t (destroy w t) >>= λ v. ok (stop_performing node_of t v))
          else ok (destroy w t))
        (λ v r.
          let kept = Ends-ok _ (forget_all-Kept node_of t n entry (destroy w t) gone) r in
          Ends-if_some _ (w.token t).owned (λ e. ended _ kept)
            (λ m e. destroy_machine-Kept node_of t n entry m v kept))

  -- When the token of an instance of a sequential multi-instance activity is destroyed, the entry that says which instance
  -- waits for its completion stays in the system state.
  pub destroy_token-stale :
      (t : ℕ) (w v : World)
      → is_sequential (node_of (w.token t).node).loop_characteristics ≡ true
      → destroy_token node_of t w ≡ ok v
      → v.token_awaiting_multi_instance_completion t ≡ w.token_awaiting_multi_instance_completion t
  destroy_token-stale t w v s h = (Ends-ok _ (destroy_token-Kept t w) h).waiting s
