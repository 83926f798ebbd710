-- ===== src/Engine/Compensation.antt =====
-- execution/engine/src/StateMachine.cpp: compensation. The tokens at the compensate events of what has completed are
-- compensated one after the other, beginning with the last: each is awaited by the one before it, and the first by
-- the token that waits for all of them. A token that is moved from one container to another stays alive.
pub mod Chain
pub mod Stuck
use bpmnos_engine.Prelude.{
  ℕ, zero, suc, Bool, true, false, not, ◌&&◌, ◌||◌, Option, none, some, List, [], ◌∷◌, ◌++◌, ◌==◌,
  if◌then◌else◌, Result, ok, throw, ◌>>=◌, failed_assert, undefined_behaviour, out_of_range,
}
use bpmnos_engine.Utility.Erase.{erase_ptr}
use bpmnos_engine.Engine.World.{
  TokenState, created_state, entered_state, busy_state, failing_state, Status, Token, StateMachine,
  Node, NodeType, boundary_event_node, compensate_boundary_event_node, compensate_start_event_node,
  activity_node, advance_to_completed, update_failed, handle_failure, World, put, enqueue_for_token,
}
use bpmnos_engine.Engine.Tokens.{update, is_busy}
use bpmnos_engine.Engine.Gateways.{set_tokens, erase_token}

abbrev pub set_compensation_tokens : World → ℕ → List ℕ → World
set_compensation_tokens w m ts = record w {
  machine = put w.machine m (record (w.machine m) { compensation_tokens = ts });
}

-- `tokens.push_back(token)`
abbrev pub push_token : ℕ → ℕ → World → World
push_token m t w = set_tokens w m ((w.machine m).tokens ++ t ∷ [])

-- `erase_ptr<Token>(compensationTokens, token)`
unfoldable pub erase_compensation_token : ℕ → ℕ → World → Result World
unfolding erase_ptr
erase_compensation_token m t w =
    erase_ptr (w.machine m).compensation_tokens t >>= λ ts. ok (set_compensation_tokens w m ts)

abbrev pub is_failing : TokenState → Bool
is_failing failing_state = true
is_failing _ = false

-- The order of reverse iteration.
abbrev pub onto : List ℕ → List ℕ → List ℕ
onto reversed [] = reversed
onto reversed (t ∷ ts) = onto (t ∷ reversed) ts

module _ (node_of : ℕ → Node) where
  abbrev pub at_start_event : World → ℕ → Bool
  at_start_event w t = (node_of (w.token t).node).represents compensate_start_event_node

  abbrev pub at_boundary_event : World → ℕ → Bool
  at_boundary_event w t = (node_of (w.token t).node).represents compensate_boundary_event_node

  -- Whether the token compensates the activity: the one its boundary event is attached to, or the one that contains
  -- the event subprocess of its start event.
  abbrev pub compensates : ℕ → Node → Result Bool
  compensates activity node =
      if node.represents boundary_event_node
      then ok (node.attached_to == activity)
      else if node.represents compensate_start_event_node
      then ok (
          (node_of (node_of node.parent).parent).represents activity_node
          && (node_of node.parent).parent == activity)
      else throw failed_assert

  unfoldable pub select_compensations : ℕ → List ℕ → World → Result (List ℕ)
  select_compensations activity [] w = ok []
  select_compensations activity (t ∷ ts) w =
      compensates activity (node_of (w.token t).node) >>= λ selected.
      select_compensations activity ts w >>= λ rest. ok (if selected then t ∷ rest else rest)

  -- `StateMachine::getCompensationTokens`
  unfoldable pub get_compensation_tokens : ℕ → Option ℕ → World → Result (List ℕ)
  unfolding select_compensations
  get_compensation_tokens m none w = ok (w.machine m).compensation_tokens
  get_compensation_tokens m (some activity) w =
      select_compensations activity (w.machine m).compensation_tokens w

  -- A token at a start event is awaited through the state machine of its event subprocess, any other through itself.
  abbrev pub set_awaiter : ℕ → ℕ → World → World
  set_awaiter t waiting w = record w {
    token_awaiting_compensation_activity =
        if at_start_event w t
        then w.token_awaiting_compensation_activity
        else put w.token_awaiting_compensation_activity t (some waiting);
    token_awaiting_compensation_event_sub_process =
        if at_start_event w t
        then put w.token_awaiting_compensation_event_sub_process (w.token t).owner (some waiting)
        else w.token_awaiting_compensation_event_sub_process;
  }

  -- The loop over the compensations behind the given one, and the awaiter of the last.
  unfoldable pub set_awaiters : ℕ → List ℕ → ℕ → World → World
  set_awaiters t [] waiting w = set_awaiter t waiting w
  set_awaiters t (next ∷ rest) waiting w = set_awaiters next rest waiting (set_awaiter t next w)

  -- `compensate`, the compensations being in the order of their reverse iteration.
  unfoldable pub compensate_reversed : ℕ → List ℕ → ℕ → World → Result World
  unfolding erase_compensation_token set_awaiters
  compensate_reversed m [] waiting w = throw undefined_behaviour
  compensate_reversed m (t ∷ rest) waiting w =
      let v = push_token (if at_start_event w t then (w.token t).owner else m) t w in
      erase_compensation_token m t v >>= λ u.
      ok (set_awaiters t rest waiting (enqueue_for_token u (advance_to_completed t) t))

  -- `StateMachine::compensate`
  unfoldable pub compensate : ℕ → List ℕ → ℕ → World → Result World
  unfolding compensate_reversed
  compensate m compensations waiting w = compensate_reversed m (onto [] compensations) waiting w

  -- A waiting token that is a compensation itself moves to the tokens.
  unfoldable pub move_waiting : ℕ → ℕ → World → Result World
  unfolding erase_compensation_token
  move_waiting m t w =
      if at_boundary_event w t
      then erase_compensation_token m t (push_token m t w)
      else if at_start_event w t
      then erase_compensation_token m t (push_token (w.token t).owner t w)
      else ok w

  -- `StateMachine::advanceTokenWaitingForCompensation`
  unfoldable pub advance_token_waiting_for_compensation : ℕ → ℕ → World → Result World
  unfolding move_waiting
  advance_token_waiting_for_compensation m t w =
      if is_busy (w.token t).state
      then (move_waiting m t w >>= λ v. ok (enqueue_for_token v (advance_to_completed t) t))
      else if is_failing (w.token t).state && (w.token t).owner == m
      then ok (enqueue_for_token (enqueue_for_token w (update_failed t) t) (handle_failure m t) t)
      else throw failed_assert

  -- `StateMachine::completeCompensationActivity`
  unfoldable pub complete_compensation_activity : ℕ → ℕ → World → Result World
  unfolding advance_token_waiting_for_compensation erase_token
  complete_compensation_activity m t w = complete (w.token_awaiting_compensation_activity t)
    where
      complete : Option ℕ → Result World
      complete none = throw out_of_range
      complete (some waiting) =
          advance_token_waiting_for_compensation (w.token waiting).owner waiting w >>= λ v.
          erase_token m t (record v {
            token_awaiting_compensation_activity =
                put v.token_awaiting_compensation_activity t none;
          })

  -- The three updates of a token made for a compensation.
  unfoldable pub make_busy : ℕ → World → Result World
  unfolding update
  make_busy t w = update node_of t created_state w >>= λ u.
      update node_of t entered_state u >>= λ v. update node_of t busy_state v

  abbrev pub new_token : ℕ → ℕ → Status → Token
  new_token owner node status = record {
    owner = owner;
    owned = none;
    node = node;
    state = created_state;
    status = status;
    sequence_flow = none;
    decision_request = none;
    content = none;
    performing = none;
    pending_sequential_entries = [];
  }

  -- `createCompensationTokenForBoundaryEvent`
  unfoldable pub create_compensation_token : ℕ → ℕ → Status → World → Result World
  unfolding make_busy
  create_compensation_token m boundary_event status w =
      let t = w.next in
      make_busy t (record w {
        token = put w.token t (new_token m boundary_event status);
        alive = put w.alive t true;
        next = suc w.next;
      })
      >>= λ v. ok (set_compensation_tokens v m ((v.machine m).compensation_tokens ++ t ∷ []))

  -- `createCompensationEventSubProcess`, the status with its initial values being given, and the data and the
  -- objective left out: the state machine of the event subprocess owns the token, and the state machine in which the
  -- subprocess has completed holds it.
  unfoldable pub create_compensation_event_sub_process : ℕ → ℕ → ℕ → Status → World → Result World
  unfolding make_busy
  create_compensation_event_sub_process m event_sub_process compensable status w =
      let machine = w.next in
      let t = suc w.next in
      make_busy t (record w {
        machine =
            put
              (put w.machine m (record (w.machine m) {
                compensation_event_sub_processes =
                    (w.machine m).compensation_event_sub_processes ++ machine ∷ [];
              }))
              machine
              (record {
                tokens = [];
                parent_token = some compensable;
                instance_id = none;
                scope = some event_sub_process;
                interrupting_event_sub_process = none;
                pending_event_sub_processes = [];
                non_interrupting_event_sub_processes = [];
                compensable_sub_processes = [];
                compensation_tokens = [];
                compensation_event_sub_processes = [];
              });
        token = put w.token t (new_token machine (node_of event_sub_process).start_event status);
        alive = put (put w.alive machine true) t true;
        next = suc (suc w.next);
      })
      >>= λ v. ok (set_compensation_tokens v m ((v.machine m).compensation_tokens ++ t ∷ []))
