-- ===== src/Engine/Advance/Departing.antt =====
-- execution/engine/src/Token.cpp: how a token leaves a node and arrives at the next.
use bpmnos_engine.Prelude.{
  ℕ, Bool, true, false, not, ◌&&◌, Option, none, some, List, [], ◌∷◌, if◌then◌else◌, ltb, length,
  Result, ok, throw, ◌>>=◌, runtime_error, logic_error, undefined_behaviour,
}
use bpmnos_engine.Engine.World.{
  departed_state, arrived_state, waiting_state, Token, Node, activity_node, gateway_node,
  exclusive_gateway_node, inclusive_gateway_node, Call, World, put_token, enqueue_for_token,
}
use bpmnos_engine.Engine.Tokens.{update, await_ready_event, await_gateway_activation}
use bpmnos_engine.Engine.Gateways.{is_flow, attempt_gateway_activation}

abbrev pub set_sequence_flow : Token → Option ℕ → Token
set_sequence_flow token flow = record token { sequence_flow = flow }

abbrev pub set_node : Token → ℕ → Token
set_node token node = record token { node = node }

-- A flow other than the default one has a gatekeeper, or the model is rejected here.
abbrev pub take_if : Option Bool → ℕ → Result ℕ → Result ℕ
take_if none flow rest = throw logic_error
take_if (some true) flow rest = ok flow
take_if (some false) flow rest = rest

-- The flow out of an exclusive gateway: the first whose conditions are satisfied, or else the default flow.
unfoldable pub choose_flow : (ℕ → Option Bool) → Option ℕ → List ℕ → Result ℕ
choose_flow satisfied none [] = throw runtime_error
choose_flow satisfied (some flow) [] = ok flow
choose_flow satisfied default_flow (flow ∷ flows) =
    let rest = choose_flow satisfied default_flow flows in
    if is_flow default_flow flow then rest else take_if (satisfied flow) flow rest

module _ (node_of : ℕ → Node) (gate : World → ℕ → ℕ → Option Bool) where
  unfoldable pub depart_from_gateway : ℕ → Node → List ℕ → World → Result World
  unfolding choose_flow
  depart_from_gateway t node flows w =
      if not (node.represents gateway_node)
      then throw runtime_error
      else if node.represents exclusive_gateway_node
      then (choose_flow (gate w t) node.default_flow flows >>= λ flow.
          ok (enqueue_for_token w (Call.advance_to_departed t flow) t))
      else if ltb 1 (length flows)
      then ok (enqueue_for_token w (Call.handle_diverging_gateway (w.token t).owner t) t)
      else ok w

  unfoldable pub depart_along : ℕ → Node → List ℕ → World → Result World
  unfolding depart_from_gateway
  depart_along t node (flow ∷ []) w = ok (enqueue_for_token w (Call.advance_to_departed t flow) t)
  depart_along t node flows w = depart_from_gateway t node flows w

  -- `Token::advanceToDeparting`
  unfoldable pub advance_to_departing : ℕ → World → Result World
  unfolding depart_along
  advance_to_departing t w =
      depart_along t (node_of (w.token t).node) (node_of (w.token t).node).outgoing w

  -- How a token leaves a node: it is done where nothing follows.
  unfoldable pub leave_along : ℕ → List ℕ → World → Result World
  unfolding advance_to_departing
  leave_along t [] w = ok (enqueue_for_token w (Call.advance_to_done t) t)
  leave_along t (flow ∷ flows) w = advance_to_departing t w

  unfoldable pub leave : ℕ → World → Result World
  unfolding leave_along
  leave t w = leave_along t (node_of (w.token t).node).outgoing w

module _ (node_of : ℕ → Node) where
  -- `Token::advanceToDeparted`
  unfoldable pub advance_to_departed : ℕ → ℕ → World → Result World
  unfolding update
  advance_to_departed t flow w =
      update node_of t departed_state (put_token w t (set_sequence_flow (w.token t) (some flow)))
      >>= λ v. ok (enqueue_for_token v (Call.advance_to_arrived t) t)

  module _ (target : ℕ → ℕ) (is_predecessor : ℕ → ℕ → Bool) where
    -- A token at a converging gateway waits for its activation; an inclusive one is activated by `processCommands`.
    unfoldable pub await_activation : ℕ → World → Result World
    unfolding update await_gateway_activation attempt_gateway_activation
    await_activation t w =
        if not ((node_of (w.token t).node).represents gateway_node)
        then throw runtime_error
        else (update node_of t waiting_state w >>= λ v.
            let u = await_gateway_activation t v in
            if (node_of (u.token t).node).represents inclusive_gateway_node
            then ok u
            else attempt_gateway_activation node_of target is_predecessor (u.token t).owner
                (u.token t).node u)

    unfoldable pub arrive : ℕ → World → Result World
    unfolding await_activation await_ready_event
    arrive t w =
        let node = node_of (w.token t).node in
        if ltb 1 (length node.incoming) && not (node.represents exclusive_gateway_node)
        then await_activation t w
        else if node.represents activity_node
        then ok (await_ready_event t w)
        else (let v = put_token w t (set_sequence_flow (w.token t) none) in
            ok (enqueue_for_token v (Call.advance_to_entered t) t))

    unfoldable pub arrive_along : ℕ → Option ℕ → World → Result World
    unfolding update arrive
    arrive_along t none w = throw undefined_behaviour
    arrive_along t (some flow) w =
        update node_of t arrived_state (put_token w t (set_node (w.token t) (target flow)))
        >>= arrive t

    -- `Token::advanceToArrived`
    unfoldable pub advance_to_arrived : ℕ → World → Result World
    unfolding arrive_along
    advance_to_arrived t w = arrive_along t (w.token t).sequence_flow w
