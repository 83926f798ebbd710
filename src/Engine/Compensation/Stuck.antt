-- ===== src/Engine/Compensation/Stuck.antt =====
-- execution/engine/src/StateMachine.cpp: a compensation event subprocess that has to wait for another compensation.
use bpmnos_engine.Prelude.{
  ℕ, ◌≡◌, refl, ap, inl, inr, true, false, List, [], ◌∷◌, ◌++◌, arith, ◌==◌, Bool-cases, Result, ok,
  throw, logic_error,
}
use bpmnos_engine.Engine.World.{World, Node, busy_state, Token, TokenState, StateMachine, put_self}
use bpmnos_engine.Utility.Erase.{erase_ptr, map_ok, count}
use bpmnos_engine.Engine.Compensation.{
  at_start_event, at_boundary_event, push_token, erase_compensation_token, move_waiting,
  advance_token_waiting_for_compensation,
}

not_erased : (ts : List ℕ) (t : ℕ) → count t ts ≡ 0 → erase_ptr ts t ≡ throw logic_error
unfolding erase_ptr
not_erased [] t h = refl
not_erased (u ∷ ts) t h = elim (Bool-cases (u == t)) [
  | inl e ↦ absurd (ground arith)
  | inr e ↦ rw e (ap_throw (not_erased ts t (ground arith)))
]
  where
    ap_throw :
        erase_ptr ts t ≡ throw logic_error → map_ok (◌∷◌ u) (erase_ptr ts t) ≡ throw logic_error
    ap_throw h = rw h refl

module _ (node_of : ℕ → Node) where
  -- A token at a compensate start event that awaits another compensation cannot be advanced when that compensation
  -- has been made: it is advanced by the state machine of its event subprocess, which owns it, and which does not
  -- hold it among its compensation tokens, so that `std::logic_error` is thrown.
  pub advance_token_waiting_for_compensation-start_event :
      (t : ℕ) (w : World)
      → at_start_event node_of w t ≡ true
      → at_boundary_event node_of w t ≡ false
      → (w.token t).state ≡ busy_state
      → count t (w.machine (w.token t).owner).compensation_tokens ≡ 0
      → advance_token_waiting_for_compensation node_of (w.token t).owner t w ≡ throw logic_error
  unfolding advance_token_waiting_for_compensation move_waiting erase_compensation_token
  advance_token_waiting_for_compensation-start_event t w s b busy none_held =
      let o = (w.token t).owner in
      let same : ((push_token o t w).machine o).compensation_tokens
          ≡ (w.machine o).compensation_tokens =
        ap (λ (x : StateMachine). x.compensation_tokens)
          (put_self w.machine o
            (record (w.machine o) { tokens = (w.machine o).tokens ++ t ∷ [] })) in
      rw (busy, b, s) (rw same (rw (not_erased (w.machine o).compensation_tokens t none_held) refl))

  -- What an update leaves as it is.
  record Framed (t : ℕ) (state : TokenState) (w v : World) : Type 0 where
    machine : v.machine ≡ w.machine
    owner : (v.token t).owner ≡ (w.token t).owner
    node : (v.token t).node ≡ (w.token t).node
    state_of : (v.token t).state ≡ state

  abbrev IsUpdate : TokenState → Token → Result Token → Type 0
  IsUpdate state token (throw e) = Unit
  IsUpdate state token (ok u) = (u.owner ≡ token.owner) × (u.node ≡ token.node) × (u.state ≡ state)
