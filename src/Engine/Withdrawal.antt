-- ===== src/Engine/Withdrawal.antt =====
-- execution/engine/src: `Token::withdraw`, and `clearObsoleteTokens` and `withdrawCompensationTokens` of StateMachine.cpp. The
-- scopes within a scope are withdrawn first; fuel bounds how deep scopes lie within one another.
pub mod Levels
pub mod Kept
pub mod Depth
use bpmnos_engine.Prelude.{
  ℕ, zero, suc, Bool, true, false, ◌&&◌, Option, none, some, List, [], ◌∷◌, ◌==◌, if◌then◌else◌,
  Result, ok, throw, ◌>>=◌, undefined_behaviour,
}
use bpmnos_engine.Values.Number.{has_value}
use bpmnos_engine.Engine.World.{
  TokenState, done_state, failed_state, withdrawn_state, Node, flow_node, World,
}
use bpmnos_engine.Engine.Tokens.{update}
use bpmnos_engine.Engine.Performer.{in_sequential_adhoc, get_sequential_performer_token, release}
use bpmnos_engine.Engine.Messages.{if_some}
use bpmnos_engine.Engine.Gateways.{set_tokens}
use bpmnos_engine.Engine.Compensation.{set_compensation_tokens}
use bpmnos_engine.Engine.Advance.Entered.{deref}
use bpmnos_engine.Engine.Destruction.{destroy_tokens}

-- The loop over pointers to tokens or state machines.
unfoldable pub for_each : (ℕ → World → Result World) → List ℕ → World → Result World
for_each f [] w = ok w
for_each f (p ∷ ps) w = f p w >>= for_each f ps

abbrev pub has_ended : TokenState → Bool
has_ended done_state = true
has_ended failed_state = true
has_ended _ = false

abbrev pub is_performing : Option ℕ → ℕ → Bool
is_performing none t = false
is_performing (some u) t = u == t

module _ (node_of : ℕ → Node) where
  -- A token that fails or is withdrawn no longer performs.
  unfoldable pub stop_conduct : ℕ → World → Result World
  unfolding get_sequential_performer_token release
  stop_conduct t w =
      if (node_of (w.token t).node).represents flow_node && in_sequential_adhoc node_of w t
      then (get_sequential_performer_token node_of t w >>= λ p.
          if is_performing (w.token p).performing t then release node_of p w else ok w)
      else ok w

  -- What is withdrawn within a scope, given how tokens and compensations of a state machine are.
  unfoldable pub withdraw_scope :
      (ℕ → World → Result World) → (ℕ → World → Result World) → ℕ → World → Result World
  unfolding for_each
  withdraw_scope clear withdraw_compensations m w =
      let machine = w.machine m in
      let clear_both = λ (e : ℕ) (v : World). clear e v >>= withdraw_compensations e in
      for_each clear machine.pending_event_sub_processes w >>= λ a.
      for_each clear_both machine.non_interrupting_event_sub_processes a >>= λ b.
      if_some machine.interrupting_event_sub_process (ok b) (λ e. clear_both e b) >>= λ c.
      clear_both m c

  unfoldable mutual
    unfolding for_each stop_conduct withdraw_scope update destroy_tokens

    -- `Token::withdraw`
    pub withdraw : ℕ → ℕ → World → Result World
    withdraw zero t w = throw undefined_behaviour
    withdraw (suc depth) t w =
        let clear = clear_obsolete_tokens depth in
        let compensations = withdraw_compensation_tokens depth in
        if has_ended (w.token t).state
        then ok w
        else (stop_conduct t w >>= λ v.
            if_some (v.token t).owned (ok v) (λ m.
              if has_value (v.machine m).scope
              then withdraw_scope clear compensations m v
              else ok v)
            >>= λ u. update node_of t withdrawn_state u)

    -- `StateMachine::clearObsoleteTokens`
    pub clear_obsolete_tokens : ℕ → ℕ → World → Result World
    clear_obsolete_tokens zero m w = throw undefined_behaviour
    clear_obsolete_tokens (suc depth) m w =
        for_each (withdraw depth) (w.machine m).tokens w >>= λ v.
        destroy_tokens node_of (v.machine m).tokens (set_tokens v m [])

    -- `StateMachine::withdrawCompensationTokens`
    pub withdraw_compensation_tokens : ℕ → ℕ → World → Result World
    withdraw_compensation_tokens zero m w = throw undefined_behaviour
    withdraw_compensation_tokens (suc depth) m w =
        for_each (λ t v. deref (v.token t).owned >>= λ n. withdraw_compensation_tokens depth n v)
          (w.machine m).compensable_sub_processes w
        >>= λ a. for_each (withdraw depth) (a.machine m).compensation_tokens a >>= λ b.
            destroy_tokens node_of (b.machine m).compensation_tokens
              (set_compensation_tokens b m [])
