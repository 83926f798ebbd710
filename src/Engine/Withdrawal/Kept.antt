-- ===== src/Engine/Withdrawal/Kept.antt =====
-- execution/engine/src: the functions that a withdrawal calls leave state machines nested as they are.
use bpmnos_engine.Prelude.{ℕ, ◌&&◌, not, Option, none, some, List, [], ◌∷◌}
use bpmnos_engine.Prelude.Int.{ℤ, ltb_ℤ}
use bpmnos_engine.Utility.Expired.{Tuple}
use bpmnos_engine.Utility.AutoList.{traverse}
use bpmnos_engine.Values.Number.{has_value}
use bpmnos_engine.Engine.World.{
  TokenState, Token, Node, flow_node, activity_node, send_task_node, event_sub_process_node,
  performer_notice, World, put, put_token, destroy, notify,
}
use bpmnos_engine.Engine.Tokens.{
  timestamp, may_be_ahead, updated, update, request_decision, notify_held,
}
use bpmnos_engine.Engine.Performer.{
  in_sequential_adhoc, get_sequential_performer_token, lock, is_ready, set_performing, set_pending,
  request_entry, renew_request, renew_requests, release,
}
use bpmnos_engine.Engine.Continuation.{Ends, ended, thrown, Ends-if, Ends->>=, Ends-if_some, both}
use bpmnos_engine.Engine.Destruction.{
  withdraw_sent, forget_instance, forget_activity, forget_maps, command_deletion, forget,
  unregister_recipient, destroy_machine, destroy_token, destroy_tokens,
}
use bpmnos_engine.Engine.Withdrawal.{is_performing, stop_conduct}
use bpmnos_engine.Engine.Withdrawal.Levels.{
  IsOver, IsNested, put_token-IsNested, remove_message-IsNested, withdraw_messages-IsNested,
  set_compensation_tokens-IsNested, Ends-then,
}

module _ (height : ℕ → ℕ) where
  module _ (node_of : ℕ → Node) where
    pub update-IsNested :
        (t : ℕ) (state : TokenState) (w : World)
        → IsNested height w
        → Ends (IsNested height) (update node_of t state w)
    unfolding update
    update-IsNested t state w n =
        Ends-then (λ a. IsOver height t a.owned) (IsNested height)
          (owned-updated (node_of (w.token t).node) w.current_time state (w.token t) (n.owned t))
          (λ a o. ended _ (put_token-IsNested height t a w n o))
      where
        owned-updated :
            (node : Node) (now : ℤ) (state : TokenState) (token : Token)
            → IsOver height t token.owned
            → Ends (λ a. IsOver height t a.owned) (updated node now state token)
        owned-updated node now state token o = Ends->>= _ (timestamp token.status) (λ time e.
            Ends-if _ (ltb_ℤ time now) (λ e. ended _ o)
              (λ e.
                Ends-if _ (ltb_ℤ now time && not (may_be_ahead node state)) (λ e. thrown _)
                  (λ e. ended _ o)))

    request_entry-IsNested :
        (t : ℕ) (w : World) → IsNested height w → Ends (IsNested height) (request_entry node_of t w)
    unfolding request_entry request_decision
    request_entry-IsNested t w n = held _ _ (
        put_token-IsNested height t (record (w.token t) { decision_request = some w.next }) w n
          (n.owned t))
      where
        held :
            (o : Option ℕ) (v : World)
            → IsNested height v
            → Ends (IsNested height) (notify_held o v)
        held none v k = thrown _
        held (some r) v k = ended _ k

    renew_request-IsNested :
        (o : Option ℕ) (w : World)
        → IsNested height w
        → Ends (IsNested height) (renew_request node_of o w)
    unfolding renew_request
    renew_request-IsNested none w n = ended w n
    renew_request-IsNested (some t) w n =
        Ends-if _ (is_ready (w.token t).state)
          (λ e.
            Ends-if _
              ((node_of (w.token t).node).represents activity_node
                && not (has_value (w.token t).decision_request))
              (λ e. request_entry-IsNested t w n) (λ e. thrown _))
          (λ e. ended w n)

    renew_requests-IsNested :
        (es : List Tuple) (w : World)
        → IsNested height w
        → Ends (IsNested height) (renew_requests node_of es w)
    unfolding renew_requests
    renew_requests-IsNested [] w n = ended w n
    renew_requests-IsNested (e ∷ es) w n =
        Ends-then (IsNested height) (IsNested height) (renew_request-IsNested (lock w e) w n)
          (λ v k. renew_requests-IsNested es v k)

    release-IsNested :
        (p : ℕ) (w : World) → IsNested height w → Ends (IsNested height) (release node_of p w)
    unfolding release
    release-IsNested p w n =
        let pending = traverse w.alive (w.token p).pending_sequential_entries in
        let idle = set_performing (set_pending (w.token p) pending) none in
        Ends-if _ (has_value (w.token p).performing)
          (λ e.
            renew_requests-IsNested pending (notify (put_token w p idle) (performer_notice p none))
              (put_token-IsNested height p idle w n (n.owned p)))
          (λ e. thrown _)

    pub stop_conduct-IsNested :
        (t : ℕ) (w : World) → IsNested height w → Ends (IsNested height) (stop_conduct node_of t w)
    unfolding stop_conduct
    stop_conduct-IsNested t w n =
        Ends-if _
          ((node_of (w.token t).node).represents flow_node && in_sequential_adhoc node_of w t)
          (λ e. Ends->>= _ (get_sequential_performer_token node_of t w) (λ p r.
            Ends-if _ (is_performing (w.token p).performing t) (λ e. release-IsNested p w n)
              (λ e. ended w n)))
          (λ e. ended w n)

    forget_activity-IsNested :
        (t : ℕ) (w : World)
        → IsNested height w
        → Ends (IsNested height) (forget_activity node_of t w)
    unfolding forget_activity withdraw_sent forget_instance
    forget_activity-IsNested t w n =
        Ends-then (IsNested height) (IsNested height)
          (Ends-if _ ((node_of (w.token t).node).represents send_task_node)
            (λ e.
              Ends-if_some _ (w.message_awaiting_delivery t) (λ e. ended w n)
                (λ m e.
                  Ends-then (IsNested height) (IsNested height)
                    (Ends-if _ (w.alive m) (λ e. remove_message-IsNested height _ m w n)
                      (λ e. ended w n))
                    (λ v k. ended _ k)))
            (λ e. ended w n))
          (λ v k. ended _ (
            both (IsNested height) _
              (both (IsNested height) (has_value (v.tokens_at_activity_instance t)) k k) k))

    forget-IsNested :
        (t : ℕ) (w : World) → IsNested height w → Ends (IsNested height) (forget node_of t w)
    unfolding forget forget_maps
    forget-IsNested t w n =
        let u = command_deletion node_of t w in
        let k : (IsNested height) u = both (IsNested height) _ n n in
        Ends-if _ ((node_of (w.token t).node).represents activity_node)
          (λ e. forget_activity-IsNested t (forget_maps node_of t u) k) (λ e. ended _ k)

    unregister_recipient-IsNested :
        (m scope : ℕ) (w : World)
        → IsNested height w
        → Ends (IsNested height) (unregister_recipient node_of m scope w)
    unfolding unregister_recipient
    unregister_recipient-IsNested m scope w n =
        Ends-if _
          ((node_of scope).represents event_sub_process_node
            && not (node_of (node_of scope).start_event).is_interrupting)
          (λ e. withdraw_messages-IsNested height m w n) (λ e. ended w n)

    destroy_machine-IsNested :
        (m : ℕ) (w : World)
        → IsNested height w
        → Ends (IsNested height) (destroy_machine node_of m w)
    unfolding destroy_machine
    destroy_machine-IsNested m w n =
        let v = record w {
          tokens_awaiting_gateway_activation = put w.tokens_awaiting_gateway_activation m [];
          token_awaiting_compensation_event_sub_process =
              put w.token_awaiting_compensation_event_sub_process m none;
        } in
        Ends-then (IsNested height) (IsNested height)
          (Ends-if_some _ (w.machine m).scope (λ e. ended v n)
            (λ scope e. unregister_recipient-IsNested m scope v n))
          (λ u k. ended _ (set_compensation_tokens-IsNested height m u k))

    destroy_token-IsNested :
        (t : ℕ) (w : World) → IsNested height w → Ends (IsNested height) (destroy_token node_of t w)
    unfolding destroy_token
    destroy_token-IsNested t w n =
        Ends-then (IsNested height) (IsNested height)
          (Ends-if _ ((node_of (w.token t).node).represents flow_node)
            (λ e.
              Ends-then (IsNested height) (IsNested height) (forget-IsNested t (destroy w t) n)
                (λ v k. ended _ (
                  both (IsNested height) (has_value (v.token t).performing)
                    (put_token-IsNested height t (set_performing (v.token t) none) v k (k.owned t))
                    k)))
            (λ e. ended _ n))
          (λ v k.
            Ends-if_some _ (w.token t).owned (λ e. ended v k)
              (λ m e. destroy_machine-IsNested m v k))

    pub destroy_tokens-IsNested :
        (ts : List ℕ) (w : World)
        → IsNested height w
        → Ends (IsNested height) (destroy_tokens node_of ts w)
    unfolding destroy_tokens
    destroy_tokens-IsNested [] w n = ended w n
    destroy_tokens-IsNested (t ∷ ts) w n =
        Ends-then (IsNested height) (IsNested height) (destroy_token-IsNested t w n)
          (λ v k. destroy_tokens-IsNested ts v k)
