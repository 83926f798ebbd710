-- ===== src/Engine/Gateways.antt =====
-- execution/engine/src/StateMachine.cpp: the activation of converging gateways and the split at diverging ones.
-- Which conditions of sequence flows are satisfied, and the predecessors of a gateway in the model, are parameters.
pub mod Joins
pub mod Splits
pub mod Activation
use bpmnos_engine.Prelude.{
  ℕ, zero, suc, ◌+◌, Bool, true, false, not, ◌&&◌, ◌||◌, Option, none, some, List, [], ◌∷◌, ◌++◌,
  ◌==◌, if◌then◌else◌, Result, ok, throw, ◌>>=◌, length, failed_assert, undefined_behaviour,
  out_of_range, runtime_error, logic_error,
}
use bpmnos_engine.Utility.Erase.{erase_ptr}
use bpmnos_engine.Values.Number.{has_value}
use bpmnos_engine.Engine.World.{
  TokenState, done_state, departed_state, Status, Token, StateMachine, Node, NodeType,
  boundary_event_node, parallel_gateway_node, inclusive_gateway_node, event_based_gateway_node,
  advance_to_entered, advance_to_departed, create_merged_token, Map, World, put, put_token, destroy,
  enqueue_for_machine, enqueue_for_token,
}
use bpmnos_engine.Engine.Statuses.{merge_status}

abbrev pub find_key {ℓ} : {A : Type ℓ} → ℕ → List (ℕ × A) → Option A
find_key key [] = none
find_key key ((k, a) ∷ map) = if k == key then some a else find_key key map

abbrev pub erase_key {ℓ} : {A : Type ℓ} → ℕ → List (ℕ × A) → List (ℕ × A)
erase_key key [] = []
erase_key key ((k, a) ∷ map) = if k == key then map else (k, a) ∷ erase_key key map

abbrev pub set_key {ℓ} : {A : Type ℓ} → ℕ → A → List (ℕ × A) → List (ℕ × A)
set_key key b [] = []
set_key key b ((k, a) ∷ map) = if k == key then (k, b) ∷ map else (k, a) ∷ set_key key b map

abbrev pub is_flow : Option ℕ → ℕ → Bool
is_flow none flow = false
is_flow (some f) flow = f == flow

-- The first of the arrived tokens that stands on the sequence flow, and the others.
unfoldable pub take_arrived : (ℕ → Option ℕ) → ℕ → List ℕ → Option ℕ × List ℕ
take_arrived flow_of flow [] = (none, [])
take_arrived flow_of flow (t ∷ arrived) =
    let (found, rest) = take_arrived flow_of flow arrived in
    if is_flow (flow_of t) flow then (some t, arrived) else (found, t ∷ rest)

abbrev pub consumed_with : Option ℕ → List ℕ × List ℕ → List ℕ × List ℕ
consumed_with none (consumed, rest) = (consumed, rest)
consumed_with (some t) (consumed, rest) = (t ∷ consumed, rest)

-- The loop over the incoming sequence flows: the consumed tokens, and those that await the next activation.
unfoldable pub consume : (ℕ → Option ℕ) → List ℕ → List ℕ → List ℕ × List ℕ
unfolding take_arrived
consume flow_of [] arrived = ([], arrived)
consume flow_of (flow ∷ incoming) arrived =
    let (found, rest) = take_arrived flow_of flow arrived in
    consumed_with found (consume flow_of incoming rest)

abbrev pub set_flow : Token → Option ℕ → Token
set_flow token flow = record token { sequence_flow = flow }

abbrev pub set_tokens : World → ℕ → List ℕ → World
set_tokens w m ts = record w { machine = put w.machine m (record (w.machine m) { tokens = ts }) }

-- `erase_ptr<Token>(tokens, token)`
unfoldable pub erase_token : ℕ → ℕ → World → Result World
unfolding erase_ptr
erase_token m t w = erase_ptr (w.machine m).tokens t >>= λ ts. ok (destroy (set_tokens w m ts) t)

unfoldable pub erase_tokens : ℕ → List ℕ → World → Result World
unfolding erase_token
erase_tokens m [] w = ok w
erase_tokens m (t ∷ ts) w = erase_token m t w >>= erase_tokens m ts

-- `std::make_shared<Token>(…)`, appended to the tokens of the state machine.
abbrev pub add_token : ℕ → Token → World → World
add_token m token w = record (set_tokens w m ((w.machine m).tokens ++ w.next ∷ [])) {
  token = put w.token w.next token;
  alive = put w.alive w.next true;
  next = suc w.next;
}

-- A token made from another one: everything but the owner, the node, the state and the status is new.
abbrev pub copy_of : Token → Status → Token
copy_of token status = record {
  owner = token.owner;
  owned = none;
  node = token.node;
  state = token.state;
  status = status;
  sequence_flow = none;
  decision_request = none;
  content = none;
  performing = none;
  pending_sequential_entries = [];
}

abbrev pub statuses_of : World → List ℕ → List Status
statuses_of w [] = []
statuses_of w (t ∷ ts) = (w.token t).status ∷ statuses_of w ts

-- The tokens that await the next activation of the gateway.
abbrev pub set_arrived : ℕ → ℕ → List ℕ → World → World
set_arrived m gateway rest w = record w {
  tokens_awaiting_gateway_activation = put w.tokens_awaiting_gateway_activation m (left rest);
}
  where
    left : List ℕ → Map ℕ (List ℕ)
    left [] = erase_key gateway (w.tokens_awaiting_gateway_activation m)
    left (t ∷ ts) = set_key gateway (t ∷ ts) (w.tokens_awaiting_gateway_activation m)

-- The consumed tokens become one: a single one is released without being merged.
unfoldable pub merge_tokens : ℕ → List ℕ → World → Result World
unfolding merge_status erase_tokens
merge_tokens m [] w = throw failed_assert
merge_tokens m (t ∷ []) w =
    ok (enqueue_for_token (put_token w t (set_flow (w.token t) none)) (advance_to_entered t) t)
merge_tokens m (t ∷ u ∷ ts) w = merge_status w.next (statuses_of w (t ∷ u ∷ ts)) >>= λ status.
    erase_tokens m (t ∷ u ∷ ts) (record w { next = w.next + length status.objects }) >>= λ v.
    let added = add_token m (copy_of (w.token t) status) v in
    ok (enqueue_for_token added (advance_to_entered v.next) v.next)

module _ (node_of : ℕ → Node) where
  -- The tokens that have arrived, if the map has an entry for the gateway.
  abbrev pub merge_found : ℕ → ℕ → Option (List ℕ) → World → Result World
  merge_found m gateway none w = throw undefined_behaviour
  merge_found m gateway (some arrived) w =
      let (consumed, rest) =
        consume (λ t. (w.token t).sequence_flow) (node_of gateway).incoming arrived in
      merge_tokens m consumed (set_arrived m gateway rest w)

  -- `StateMachine::createMergedToken`
  unfoldable pub merge_at : ℕ → ℕ → World → Result World
  unfolding consume merge_tokens
  merge_at m gateway w =
      merge_found m gateway (find_key gateway (w.tokens_awaiting_gateway_activation m)) w

  -- Whether a token of the state machine may still come to the inclusive gateway.
  unfoldable pub may_arrive : (ℕ → ℕ) → (ℕ → Bool) → ℕ → ℕ → World → Result Bool
  may_arrive target is_predecessor gateway t w =
      let token = w.token t in
      if token.node == gateway
        || is_done token.state
        || (node_of token.node).represents boundary_event_node
      then ok false
      else position token.state token.node token.sequence_flow
    where
      is_done : TokenState → Bool
      is_done done_state = true
      is_done _ = false

      position : TokenState → ℕ → Option ℕ → Result Bool
      position departed_state node (some flow) = ok (is_predecessor (target flow))
      position departed_state node none = throw undefined_behaviour
      position _ node flow = ok (is_predecessor node)

  unfoldable pub any_may_arrive : (ℕ → ℕ) → (ℕ → Bool) → ℕ → List ℕ → World → Result Bool
  unfolding may_arrive
  any_may_arrive target is_predecessor gateway [] w = ok false
  any_may_arrive target is_predecessor gateway (t ∷ ts) w =
      may_arrive target is_predecessor gateway t w >>= λ waits.
      let rest = any_may_arrive target is_predecessor gateway ts w in
      if waits then ok true else rest

  -- The branch for a parallel gateway.
  abbrev pub attempt_parallel : ℕ → ℕ → Option (List ℕ) → World → Result World
  attempt_parallel m gateway none w = throw undefined_behaviour
  attempt_parallel m gateway (some arrived) w =
      if length arrived == length (node_of gateway).incoming
      then ok (enqueue_for_machine w (create_merged_token m gateway) m)
      else ok w

  -- `StateMachine::attemptGatewayActivation`
  unfoldable pub attempt_gateway_activation :
      (ℕ → ℕ) → (ℕ → ℕ → Bool) → ℕ → ℕ → World → Result World
  unfolding any_may_arrive
  attempt_gateway_activation target is_predecessor m gateway w =
      if (node_of gateway).represents parallel_gateway_node
      then attempt_parallel m gateway (find_key gateway (w.tokens_awaiting_gateway_activation m)) w
      else if (node_of gateway).represents inclusive_gateway_node
      then (any_may_arrive target (is_predecessor gateway) gateway (w.machine m).tokens w
          >>= λ waits.
              ok (if waits then w else enqueue_for_machine w (create_merged_token m gateway) m))
      else throw runtime_error

-- `createTokenCopies`: the copies, and the commands that advance them, one for each sequence flow.
unfoldable pub make_copies : ℕ → Token → List ℕ → World → List ℕ × World
make_copies m token [] w = ([], w)
make_copies m token (flow ∷ flows) w =
    let (copies, v) = make_copies m token flows (add_token m (copy_of token token.status) w) in
    (w.next ∷ copies, v)

unfoldable pub advance_copies : List ℕ → List ℕ → World → World
advance_copies (t ∷ copies) (flow ∷ flows) w =
    advance_copies copies flows (enqueue_for_token w (advance_to_departed t flow) t)
advance_copies _ _ w = w

unfoldable pub create_token_copies : ℕ → ℕ → List ℕ → World → List ℕ × World
unfolding make_copies advance_copies
create_token_copies m t flows w =
    let (copies, v) = make_copies m (w.token t) flows w in (copies, advance_copies copies flows v)

-- `tokenAtEventBasedGateway[copy] = token; tokensAwaitingEvent[token].push_back(copy)`
unfoldable pub await_events : ℕ → List ℕ → World → World
await_events t [] w = w
await_events t (copy ∷ copies) w = await_events t copies (record w {
  token_at_event_based_gateway = put w.token_at_event_based_gateway copy (some t);
  tokens_awaiting_event = put w.tokens_awaiting_event t (w.tokens_awaiting_event t ++ copy ∷ []);
})

abbrev pub add_if : Option Bool → ℕ → Result (List ℕ) → Result (List ℕ)
add_if none flow rest = throw logic_error
add_if (some condition) flow rest =
    rest >>= λ others. ok (if condition then flow ∷ others else others)

-- The sequence flows out of an inclusive gateway whose conditions are satisfied. A flow other than the default
-- has a gatekeeper, or the model is rejected here.
unfoldable pub satisfied_flows : (ℕ → Option Bool) → Option ℕ → List ℕ → Result (List ℕ)
satisfied_flows satisfied default_flow [] = ok []
satisfied_flows satisfied default_flow (flow ∷ flows) =
    let rest = satisfied_flows satisfied default_flow flows in
    if is_flow default_flow flow then rest else add_if (satisfied flow) flow rest

-- The default flow, where no condition is satisfied.
abbrev pub or_default : Option ℕ → List ℕ → Result (List ℕ)
or_default default_flow (flow ∷ flows) = ok (flow ∷ flows)
or_default none [] = throw runtime_error
or_default (some flow) [] = ok (flow ∷ [])

-- The copies replace the token.
unfoldable pub split_token : ℕ → ℕ → List ℕ → World → Result World
unfolding create_token_copies erase_token
split_token m t flows w = erase_token m t (create_token_copies m t flows w).1

-- `StateMachine::handleDivergingGateway`
unfoldable pub handle_diverging_gateway :
    (ℕ → Node) → (World → ℕ → ℕ → Option Bool) → ℕ → ℕ → World → Result World
unfolding split_token create_token_copies await_events satisfied_flows
handle_diverging_gateway node_of satisfied m t w =
    let node = node_of (w.token t).node in
    if node.represents parallel_gateway_node
    then split_token m t node.outgoing w
    else if node.represents event_based_gateway_node
    then (let (copies, v) = create_token_copies m t node.outgoing w in ok (await_events t copies v))
    else if node.represents inclusive_gateway_node
    then (satisfied_flows (satisfied w t) node.default_flow node.outgoing >>= λ flows.
        or_default node.default_flow flows >>= λ chosen. split_token m t chosen w)
    else throw runtime_error
