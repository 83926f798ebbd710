-- ===== src/Engine/Withdrawal/Levels.antt =====
-- execution/engine/src: how deep state machines lie within one another, which the functions that a withdrawal calls
-- leave as it is.
use mathlib.Core.Path.{subst}
use bpmnos_engine.Prelude.{
  ℕ, ◌<◌, ◌≤◌, ◌≡◌, inl, inr, arith, ◌==◌, Option, none, some, List, [], ◌∷◌, All, Bool-cases,
  Result, ◌>>=◌,
}
use bpmnos_engine.Utility.Erase.{erase_ptr}
use bpmnos_engine.Utility.Expired.{Tuple}
use bpmnos_engine.Engine.World.{MessageState, Token, StateMachine, World, put, put_token}
use bpmnos_engine.Engine.Performer.{lock}
use bpmnos_engine.Engine.Messages.{remove_message, withdraw_all, withdraw_messages}
use bpmnos_engine.Engine.Gateways.{set_tokens}
use bpmnos_engine.Engine.Compensation.{set_compensation_tokens}
use bpmnos_engine.Engine.Continuation.{Ends, ended, thrown, Ends->>=, Ends-if_some}

-- What holds of everything in a store still holds when something of which it holds is put there.
pub put-all {ℓ κ} :
    {A : Type ℓ} (P : ℕ → A → Type κ) (store : ℕ → A) (k : ℕ) (a : A)
    → ((q : ℕ) → P q (store q))
    → P k a
    → (q : ℕ) → P q (put store k a q)
put-all P store k a h p q = elim (Bool-cases (k == q)) [
  | inl e ↦ let s : k ≡ q = ground arith in rw e (subst (λ r. P r a) s p)
  | inr e ↦ rw e (h q)
]

-- The first computation keeps what the second relies on.
pub Ends-then {ℓ κ μ ν} :
    {A : Type ℓ} {B : Type μ} (P : A → Type κ) (Q : B → Type ν) {r : Result A} {f : A → Result B}
    → Ends P r
    → ((a : A) → P a → Ends Q (f a))
    → Ends Q (r >>= f)
Ends-then P Q (ended a p) h = h a p
Ends-then P Q (thrown e) h = thrown e

module _ (height : ℕ → ℕ) where
  abbrev pub IsOver : ℕ → Option ℕ → Type 0
  IsOver p none = Unit
  IsOver p (some q) = height q < height p

  abbrev pub IsBeside : ℕ → Option ℕ → Type 0
  IsBeside p none = Unit
  IsBeside p (some q) = height q ≤ height p

  -- The tokens of a state machine lie below it, and its event subprocesses not above it.
  pub record IsAbove (m : ℕ) (machine : StateMachine) : Type 0 where
    pub tokens : All (λ t. height t < height m) machine.tokens
    pub compensations : All (λ t. height t < height m) machine.compensation_tokens
    pub activities : All (λ t. height t < height m) machine.compensable_sub_processes
    pub pending : All (λ e. height e ≤ height m) machine.pending_event_sub_processes
    pub running : All (λ e. height e ≤ height m) machine.non_interrupting_event_sub_processes
    pub interrupting : IsBeside m machine.interrupting_event_sub_process

  pub record AreNested (token : ℕ → Token) (machine : ℕ → StateMachine) : Type 0 where
    pub owned : (t : ℕ) → IsOver t (token t).owned
    pub within : (m : ℕ) → IsAbove m (machine m)

  -- Each token is above the state machine that it owns, and each state machine above its tokens.
  abbrev pub IsNested : World → Type 0
  IsNested w = AreNested w.token w.machine

  pub put_token-IsNested :
      (t : ℕ) (a : Token) (w : World) → IsNested w → IsOver t a.owned → IsNested (put_token w t a)
  put_token-IsNested t a w n o = record {
    owned = put-all (λ q (b : Token). IsOver q b.owned) w.token t a n.owned o;
    within = n.within;
  }

  pub set_tokens-IsNested : (m : ℕ) (w : World) → IsNested w → IsNested (set_tokens w m [])
  set_tokens-IsNested m w n = record {
    owned = n.owned;
    within =
        put-all IsAbove w.machine m (record (w.machine m) { tokens = [] }) n.within
          (let a = n.within m in
            record {
              tokens = tt;
              compensations = a.compensations;
              activities = a.activities;
              pending = a.pending;
              running = a.running;
              interrupting = a.interrupting;
            });
  }

  pub set_compensation_tokens-IsNested :
      (m : ℕ) (w : World) → IsNested w → IsNested (set_compensation_tokens w m [])
  set_compensation_tokens-IsNested m w n = record {
    owned = n.owned;
    within =
        put-all IsAbove w.machine m (record (w.machine m) { compensation_tokens = [] }) n.within
          (let a = n.within m in
            record {
              tokens = a.tokens;
              compensations = tt;
              activities = a.activities;
              pending = a.pending;
              running = a.running;
              interrupting = a.interrupting;
            });
  }

  pub remove_message-IsNested :
      (state : MessageState) (m : ℕ) (w : World)
      → IsNested w
      → Ends IsNested (remove_message state m w)
  unfolding remove_message
  remove_message-IsNested state m w n = Ends->>= _ (erase_ptr w.messages m) (λ ms e. ended _ n)

  withdraw_all-IsNested :
      (es : List Tuple) (w : World) → IsNested w → Ends IsNested (withdraw_all es w)
  unfolding withdraw_all
  withdraw_all-IsNested [] w n = ended w n
  withdraw_all-IsNested (e ∷ es) w n =
      Ends-then IsNested IsNested (withdrawn (lock w e)) (λ v k. withdraw_all-IsNested es v k)
    where
      withdrawn : (o : Option ℕ) → Ends IsNested (bpmnos_engine.Engine.Messages.withdraw o w)
      withdrawn none = ended w n
      withdrawn (some m) = remove_message-IsNested _ m w n

  pub withdraw_messages-IsNested :
      (m : ℕ) (w : World) → IsNested w → Ends IsNested (withdraw_messages m w)
  unfolding withdraw_messages
  withdraw_messages-IsNested m w n =
      Ends-if_some _ (w.inbox m) (λ e. ended w n)
        (λ es e. Ends-then IsNested IsNested (withdraw_all-IsNested es w n) (λ v k. ended _ k))
