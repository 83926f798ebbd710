-- ===== src/Engine/Performer.antt =====
-- execution/engine/src/Token.cpp: activities of sequential ad-hoc subprocesses, of which a performer performs one
-- at a time. The way from a token up to the token at its performer is bounded by the address of the token, a
-- token being allocated later than the token whose scope it is in.
pub mod Ascent
pub mod Exclusion
pub mod Renewal
use bpmnos_engine.Prelude.{
  ℕ, zero, suc, Bool, true, false, not, ◌&&◌, Option, none, some, List, [], ◌∷◌, ◌==◌,
  if◌then◌else◌, Result, ok, throw, ◌>>=◌, failed_assert, undefined_behaviour,
}
use bpmnos_engine.Utility.Expired.{weak_ptr, value, Tuple}
use bpmnos_engine.Utility.AutoList.{emplace_back, remove, traverse}
use bpmnos_engine.Values.Number.{has_value}
use bpmnos_engine.Engine.World.{
  TokenState, ready_state, entry_request, Token, Node, flow_node, activity_node,
  sequential_adhoc_subprocess_node, performer_notice, World, put_token, destroy, notify,
}
use bpmnos_engine.Engine.Tokens.{request_decision, notify_request, token_and_request}

abbrev pub is_ready : TokenState → Bool
is_ready ready_state = true
is_ready _ = false

abbrev pub set_request : Token → Option ℕ → Token
set_request token r = record token { decision_request = r }

abbrev pub set_performing : Token → Option ℕ → Token
set_performing token t = record token { performing = t }

abbrev pub set_pending : Token → List Tuple → Token
set_pending token ts = record token { pending_sequential_entries = ts }

-- `decisionRequest.reset()`: the token is the one owner of its request.
abbrev pub reset_held : Option ℕ → ℕ → World → World
reset_held none t w = w
reset_held (some r) t w = destroy (put_token w t (set_request (w.token t) none)) r

unfoldable pub reset_request : ℕ → World → World
reset_request t w = reset_held (w.token t).decision_request t w

-- `token_ptr.lock()`, of the only component of a tuple.
abbrev pub lock : World → Tuple → Option ℕ
lock w (weak_ptr t ∷ rest) = if w.alive t then some t else none
lock w _ = none

-- `owner->parentToken`
abbrev pub parent_of : World → ℕ → Option ℕ
parent_of w t = (w.machine (w.token t).owner).parent_token

module _ (node_of : ℕ → Node) where
  abbrev pub in_sequential_adhoc : World → ℕ → Bool
  in_sequential_adhoc w t =
      (node_of (node_of (w.token t).node).parent).represents sequential_adhoc_subprocess_node

  -- The loop of `getSequentialPerformerToken`.
  unfoldable pub ascend : ℕ → ℕ → Option ℕ → World → Result ℕ
  ascend fuel performer none w = throw undefined_behaviour
  ascend zero performer (some p) w = throw undefined_behaviour
  ascend (suc fuel) performer (some p) w =
      let rest = ascend fuel performer (parent_of w p) w in
      if (node_of (w.token p).node).represents flow_node && not ((w.token p).node == performer)
      then rest
      else ok p

  unfoldable pub get_sequential_performer_token : ℕ → World → Result ℕ
  unfolding ascend
  get_sequential_performer_token t w =
      if in_sequential_adhoc w t
      then ascend t (node_of (node_of (w.token t).node).parent).performer (parent_of w t) w
      else throw failed_assert

  -- The request for the decision on the entry.
  unfoldable pub request_entry : ℕ → World → Result World
  unfolding request_decision emplace_back
  request_entry t w =
      let v = request_decision node_of t entry_request [] w in
      notify_request t (record v {
        pending_entry_decisions =
            emplace_back v.alive v.pending_entry_decisions (token_and_request v t);
      })

  unfoldable pub await_entry_at : ℕ → ℕ → World → Result World
  unfolding request_entry emplace_back
  await_entry_at p t w =
      let v = put_token w p (
        set_pending (w.token p)
          (emplace_back w.alive (w.token p).pending_sequential_entries (weak_ptr t ∷ []))) in
      if has_value (v.token p).performing then ok v else request_entry t v

  unfoldable pub await_entry_event : ℕ → World → Result World
  unfolding await_entry_at get_sequential_performer_token request_entry
  await_entry_event t w =
      if in_sequential_adhoc w t
      then (get_sequential_performer_token t w >>= λ p. await_entry_at p t w)
      else request_entry t w

  -- An activity awaiting entry, when the performer becomes busy.
  unfoldable pub withdraw_request : Option ℕ → World → Result World
  unfolding reset_request
  withdraw_request none w = ok w
  withdraw_request (some t) w =
      if (node_of (w.token t).node).represents activity_node
        && is_ready (w.token t).state
        && has_value (w.token t).decision_request
      then ok (reset_request t w)
      else throw failed_assert

  unfoldable pub withdraw_requests : List Tuple → World → Result World
  unfolding withdraw_request
  withdraw_requests [] w = ok w
  withdraw_requests (e ∷ es) w = withdraw_request (lock w e) w >>= withdraw_requests es

  unfoldable pub occupy : ℕ → ℕ → World → Result World
  unfolding withdraw_requests remove traverse
  occupy p t w =
      let pending = remove w.alive 0 t (w.token p).pending_sequential_entries in
      let busy = set_performing (set_pending (w.token p) (traverse w.alive pending)) (some t) in
      if has_value (w.token p).performing
      then throw failed_assert
      else withdraw_requests (traverse w.alive pending)
          (notify (put_token w p busy) (performer_notice p (some t)))

  unfoldable pub occupy_sequential_performer : ℕ → World → Result World
  unfolding occupy get_sequential_performer_token
  occupy_sequential_performer t w = get_sequential_performer_token t w >>= λ p. occupy p t w

  -- An activity awaiting entry, when the performer becomes idle.
  unfoldable pub renew_request : Option ℕ → World → Result World
  unfolding request_entry
  renew_request none w = ok w
  renew_request (some t) w =
      if is_ready (w.token t).state
      then if (node_of (w.token t).node).represents activity_node
          && not (has_value (w.token t).decision_request)
        then request_entry t w
        else throw failed_assert
      else ok w

  unfoldable pub renew_requests : List Tuple → World → Result World
  unfolding renew_request
  renew_requests [] w = ok w
  renew_requests (e ∷ es) w = renew_request (lock w e) w >>= renew_requests es

  unfoldable pub release : ℕ → World → Result World
  unfolding renew_requests traverse
  release p w =
      let pending = traverse w.alive (w.token p).pending_sequential_entries in
      let idle = set_performing (set_pending (w.token p) pending) none in
      if has_value (w.token p).performing
      then renew_requests pending (notify (put_token w p idle) (performer_notice p none))
      else throw failed_assert

  unfoldable pub release_sequential_performer : ℕ → World → Result World
  unfolding release get_sequential_performer_token
  release_sequential_performer t w = get_sequential_performer_token t w >>= λ p. release p w
