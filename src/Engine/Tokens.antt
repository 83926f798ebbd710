-- ===== src/Engine/Tokens.antt =====
-- execution/engine/src/Token.cpp: the state and the timestamp of a token, and the containers of the tokens that
-- await something. The data of a token's scope is not part of the model, so that the assertions of `update` on
-- it are left out.
pub mod Time
use bpmnos_engine.Prelude.{
  ℕ, suc, Bool, true, false, not, ◌&&◌, ◌≡◌, refl, ◌||◌, Option, none, some, List, [], ◌∷◌, ◌++◌,
  ◌==◌, if◌then◌else◌, Result, ok, throw, ◌>>=◌, set, runtime_error, failed_assert,
  undefined_behaviour, bad_optional_access,
}
use bpmnos_engine.Prelude.Int.{ℤ, ltb_ℤ}
use bpmnos_engine.Utility.Expired.{weak_ptr, Tuple}
use bpmnos_engine.Utility.AutoList.{emplace_back}
use bpmnos_engine.Utility.AutoSet.{ascending, emplace}
use bpmnos_engine.Values.Number.{Value, number_eq, number_eq_iff}
use bpmnos_engine.Engine.World.{
  TokenState, busy_state, withdrawn_state, RequestType, choice_request, message_delivery_request,
  Status, Token, DecisionRequest, Node, task_node, receive_task_node, decision_task_node,
  token_notice, request_notice, Map, World, put, put_token, notify,
}

abbrev pub is_withdrawn : TokenState → Bool
is_withdrawn withdrawn_state = true
is_withdrawn _ = false

abbrev pub is_busy : TokenState → Bool
is_busy busy_state = true
is_busy _ = false

-- `status.attributes[Timestamp].value()`, after the assertions that there is such an attribute.
abbrev pub first_value : List Value → Result ℤ
first_value (some time ∷ rest) = ok time
first_value _ = throw failed_assert

abbrev pub timestamp : Status → Result ℤ
timestamp s = first_value s.attributes

abbrev pub set_timestamp : Status → ℤ → Status
set_timestamp s time = record s { attributes = set s.attributes 0 (some time) }

-- The states in which a timestamp may lie ahead of the current time.
unfoldable pub may_be_ahead : Node → TokenState → Bool
may_be_ahead node state =
    is_withdrawn state
    || (is_busy state
        && node.represents task_node
        && not (node.represents receive_task_node)
        && not (node.represents decision_task_node))

-- `Token::update`, on the token itself.
unfoldable pub updated : Node → ℤ → TokenState → Token → Result Token
unfolding may_be_ahead
updated node now state token = timestamp token.status >>= λ time.
    if ltb_ℤ time now
    then ok (record token { state = state; status = set_timestamp token.status now })
    else if ltb_ℤ now time && not (may_be_ahead node state)
    then throw runtime_error
    else ok (record token { state = state })

module _ (node_of : ℕ → Node) where
  -- `Token::update`
  unfoldable pub update : ℕ → TokenState → World → Result World
  unfolding updated
  update t state w = do
    token ← updated (node_of (w.token t).node) w.current_time state (w.token t)
    ok (notify (put_token w t token) (token_notice t state))

  -- `std::make_shared<DecisionRequest>`, assigned to the token.
  unfoldable pub request_decision : ℕ → RequestType → List Value → World → World
  request_decision t type header w =
      put_token
        (record w {
          request =
              put w.request w.next (record { token = t; type = type; recipient_header = header });
          alive = put w.alive w.next true;
          next = suc w.next;
        })
        t (record (w.token t) { decision_request = some w.next })

-- `engine->notify(decisionRequest.get())`
abbrev pub notify_held : Option ℕ → World → Result World
notify_held none w = throw undefined_behaviour
notify_held (some r) w = ok (notify w (request_notice r))

abbrev pub notify_request : ℕ → World → Result World
notify_request t w = notify_held (w.token t).decision_request w

unfoldable pub await_ready_event : ℕ → World → World
unfolding emplace_back
await_ready_event t w = record w {
  tokens_awaiting_ready_event =
      emplace_back w.alive w.tokens_awaiting_ready_event (weak_ptr t ∷ []);
}

-- The entry of a container for a token and the request it holds, at the time of the call.
abbrev pub token_and_request : World → ℕ → Tuple
token_and_request w t = elim ((w.token t).decision_request) [
  | some r ↦ weak_ptr t ∷ weak_ptr r ∷ []
  | none ↦ weak_ptr t ∷ []
]

module _ (node_of : ℕ → Node) where
  unfoldable pub await_choice_event : ℕ → World → Result World
  unfolding request_decision emplace_back
  await_choice_event t w =
      let v = request_decision node_of t choice_request [] w in
      notify_request t (record v {
        pending_choice_decisions =
            emplace_back v.alive v.pending_choice_decisions (token_and_request v t);
      })

  -- The header is the one that the message definition of the node gives when the token comes to wait.
  unfoldable pub await_message_delivery : List Value → ℕ → World → Result World
  unfolding request_decision emplace_back
  await_message_delivery header t w =
      let v = request_decision node_of t message_delivery_request header w in
      notify_request t (record v {
        pending_message_delivery_decisions =
            emplace_back v.alive v.pending_message_delivery_decisions (token_and_request v t);
      })

unfoldable pub await_task_completion_event : ℕ → World → Result World
unfolding emplace ascending
await_task_completion_event t w = do
  time ← timestamp (w.token t).status
  ok (record w {
    tokens_awaiting_completion_event =
        emplace ascending w.tokens_awaiting_completion_event (time, weak_ptr t ∷ []);
  })

unfoldable pub await_timer : ℤ → ℕ → World → World
unfolding emplace ascending
await_timer time t w = record w {
  tokens_awaiting_timer = emplace ascending w.tokens_awaiting_timer (time, weak_ptr t ∷ []);
}

-- `map[key].emplace_back(…)`
abbrev pub put_number {ℓ} : {A : Type ℓ} → (ℤ → A) → ℤ → A → ℤ → A
put_number map key a x = if number_eq key x then a else map x

pub put_number_self {ℓ} : {A : Type ℓ} (map : ℤ → A) (k : ℤ) (v : A) → put_number map k v k ≡ v
put_number_self map k v = rw ((number_eq_iff k k).1 refl) refl

unfoldable pub await_signal : ℤ → ℕ → World → World
unfolding emplace_back
await_signal name t w = record w {
  tokens_awaiting_signal =
      put_number w.tokens_awaiting_signal name
        (emplace_back w.alive (w.tokens_awaiting_signal name) (weak_ptr t ∷ []));
}

unfoldable pub await_conditions : ℤ → ℕ → World → World
unfolding emplace_back
await_conditions instance_id t w = record w {
  tokens_awaiting_condition =
      put_number w.tokens_awaiting_condition instance_id
        (emplace_back w.alive (w.tokens_awaiting_condition instance_id) (weak_ptr t ∷ []));
}

-- A map from nodes to the tokens waiting there, in the order of the nodes' first arrivals.
abbrev pub add_to : ℕ → ℕ → Map ℕ (List ℕ) → Map ℕ (List ℕ)
add_to key t [] = (key, t ∷ []) ∷ []
add_to key t ((k, ts) ∷ map) =
    if k == key then (k, ts ++ t ∷ []) ∷ map else (k, ts) ∷ add_to key t map

unfoldable pub await_gateway_activation : ℕ → World → World
await_gateway_activation t w =
    let token = w.token t in
    record w {
      tokens_awaiting_gateway_activation =
          put w.tokens_awaiting_gateway_activation token.owner
            (add_to token.node t (w.tokens_awaiting_gateway_activation token.owner));
    }
