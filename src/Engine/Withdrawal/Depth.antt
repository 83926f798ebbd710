-- ===== src/Engine/Withdrawal/Depth.antt =====
-- execution/engine/src: how deep the withdrawal of a token goes, where `Token::withdraw` has no bound.
use bpmnos_engine.Prelude.{
  ℕ, zero, suc, ◌+◌, ◌<◌, ◌≤◌, ◌≡◌, refl, ◌∙◌, sym, arith, Bool, true, false, Option, none, some,
  List, [], ◌∷◌, if◌then◌else◌, All, Error, Result, ok, throw, ◌>>=◌,
}
use bpmnos_engine.Values.Number.{has_value}
use bpmnos_engine.Engine.World.{withdrawn_state, Node, World}
use bpmnos_engine.Engine.Messages.{if_some}
use bpmnos_engine.Engine.Gateways.{set_tokens}
use bpmnos_engine.Engine.Compensation.{set_compensation_tokens}
use bpmnos_engine.Engine.Advance.Entered.{deref}
use bpmnos_engine.Engine.Continuation.{Ends, ended, thrown}
use bpmnos_engine.Engine.Withdrawal.{
  for_each, has_ended, withdraw_scope, withdraw, clear_obsolete_tokens,
  withdraw_compensation_tokens,
}
use bpmnos_engine.Engine.Withdrawal.Levels.{
  IsOver, IsBeside, IsNested, set_tokens-IsNested, set_compensation_tokens-IsNested,
}
use bpmnos_engine.Engine.Withdrawal.Kept.{
  update-IsNested, destroy_tokens-IsNested, stop_conduct-IsNested,
}

-- Both end in the same way, and what holds of the result, if it is one.
data Agree {ℓ κ} {A : Type ℓ} (P : A → Type κ) : Result A → Result A → Type (ℓ ⊔ κ) where
  agreed : (a : A) → P a → Agree P (ok a) (ok a)
  neither : (e : Error) → Agree P (throw e) (throw e)

module _ {ℓ κ} {A : Type ℓ} (P : A → Type κ) where
  Agree-eq : {r s : Result A} → Agree P r s → r ≡ s
  Agree-eq (agreed a p) = refl
  Agree-eq (neither e) = refl

  Agree-same : {r : Result A} → Ends P r → Agree P r r
  Agree-same (ended a p) = agreed a p
  Agree-same (thrown e) = neither e

  Agree-then :
      {r s : Result A} {f g : A → Result A}
      → Agree P r s
      → ((a : A) → P a → Agree P (f a) (g a))
      → Agree P (r >>= f) (s >>= g)
  Agree-then (agreed a p) h = h a p
  Agree-then (neither e) h = neither e

module _ (height : ℕ → ℕ) where
  abbrev Agrees : Result World → Result World → Type 0
  Agrees = Agree (IsNested height)

  -- On each of the pointers.
  for_each-Agrees :
      (P : ℕ → Type 0) (f g : ℕ → World → Result World)
      → ((p : ℕ) (w : World) → P p → IsNested height w → Agrees (f p w) (g p w))
      → (ps : List ℕ) (w : World) → All P ps
      → IsNested height w
      → Agrees (for_each f ps w) (for_each g ps w)
  unfolding for_each
  for_each-Agrees P f g h [] w a n = agreed w n
  for_each-Agrees P f g h (p ∷ ps) w (i, is) n =
      Agree-then _ (h p w i n) (λ v k. for_each-Agrees P f g h ps v is k)

  module _ (node_of : ℕ → Node) where
    -- One more level of depth changes nothing for what lies below the bound.
    record IsSettled (d : ℕ) : Type 0 where
      tokens :
          (t : ℕ) (w : World)
          → height t < d
          → IsNested height w
          → Agrees (withdraw node_of d t w) (withdraw node_of (suc d) t w)
      scopes :
          (m : ℕ) (w : World)
          → height m < d
          → IsNested height w
          → Agrees (clear_obsolete_tokens node_of d m w) (clear_obsolete_tokens node_of (suc d) m w)
      compensations :
          (m : ℕ) (w : World)
          → height m < d
          → IsNested height w
          → Agrees
              (withdraw_compensation_tokens node_of d m w)
              (withdraw_compensation_tokens node_of (suc d) m w)

    withdraw_scope-Agrees :
        (d m : ℕ) (w : World)
        → IsSettled d
        → height m < d
        → IsNested height w
        → Agrees
            (withdraw_scope node_of
              (clear_obsolete_tokens node_of d)
              (withdraw_compensation_tokens node_of d)
              m
              w)
            (withdraw_scope node_of
              (clear_obsolete_tokens node_of (suc d))
              (withdraw_compensation_tokens node_of (suc d))
              m
              w)
    unfolding withdraw_scope
    withdraw_scope-Agrees d m w ih b n =
        let above = n.within m in
        let clear_both = λ (e : ℕ) (v : World) (i : height e ≤ height m) (k : IsNested height v).
          Agree-then _ (ih.scopes e v (omega (arith, i, b)) k)
            (λ u l. ih.compensations e u (omega (arith, i, b)) l) in
        Agree-then _
          (for_each-Agrees (λ e. height e ≤ height m) _ _
            (λ e v i k. ih.scopes e v (omega (arith, i, b)) k) _ w above.pending n)
          (λ v k.
            Agree-then _
              (for_each-Agrees (λ e. height e ≤ height m) _ _ clear_both _ v above.running k)
              (λ u l.
                Agree-then _
                  (interrupting (w.machine m).interrupting_event_sub_process u above.interrupting l
                    clear_both)
                  (λ x o. clear_both m x (omega arith) o)))
      where
        interrupting :
            {f g : ℕ → World → Result World} (o : Option ℕ) (u : World)
            → IsBeside height m o
            → IsNested height u
            → ((e : ℕ) (v : World)
                → height e ≤ height m
                → IsNested height v
                → Agrees (f e v) (g e v))
            → Agrees (if_some o (ok u) (λ e. f e u)) (if_some o (ok u) (λ e. g e u))
        interrupting none u i l h = agreed u l
        interrupting (some e) u i l h = h e u i l

    withdraw-Agrees :
        (d t : ℕ) (w : World)
        → IsSettled d
        → height t < suc d
        → IsNested height w
        → Agrees (withdraw node_of (suc d) t w) (withdraw node_of (suc (suc d)) t w)
    unfolding withdraw
    withdraw-Agrees d t w ih b n = whether (has_ended (w.token t).state) (agreed w n) (
        Agree-then _ (Agree-same _ (stop_conduct-IsNested height node_of t w n)) (λ v k.
          Agree-then _ (owned (v.token t).owned v (k.owned t) k)
            (λ u l. Agree-same _ (update-IsNested height node_of t withdrawn_state u l))))
      where
        whether :
            (c : Bool) {r s r' s' : Result World}
            → Agrees r s
            → Agrees r' s'
            → Agrees (if c then r else r') (if c then s else s')
        whether true h k = h
        whether false h k = k

        scope_of : ℕ → ℕ → World → Result World
        scope_of n m v =
            if has_value (v.machine m).scope
            then withdraw_scope node_of (clear_obsolete_tokens node_of n)
                (withdraw_compensation_tokens node_of n) m v
            else ok v

        owned :
            (o : Option ℕ) (v : World)
            → IsOver height t o
            → IsNested height v
            → Agrees
                (if_some o (ok v) (λ m. scope_of d m v))
                (if_some o (ok v) (λ m. scope_of (suc d) m v))
        owned none v i k = agreed v k
        owned (some m) v i k =
            whether (has_value (v.machine m).scope)
              (withdraw_scope-Agrees d m v ih (omega (arith, i, b)) k) (agreed v k)

    clear_obsolete_tokens-Agrees :
        (d m : ℕ) (w : World)
        → IsSettled d
        → height m < suc d
        → IsNested height w
        → Agrees
            (clear_obsolete_tokens node_of (suc d) m w)
            (clear_obsolete_tokens node_of (suc (suc d)) m w)
    unfolding clear_obsolete_tokens
    clear_obsolete_tokens-Agrees d m w ih b n =
        Agree-then _
          (for_each-Agrees (λ t. height t < height m) _ _
            (λ t v i k. ih.tokens t v (omega (arith, i, b)) k) _ w (n.within m).tokens n)
          (λ v k. Agree-same _ (
            destroy_tokens-IsNested height node_of (v.machine m).tokens (set_tokens v m [])
              (set_tokens-IsNested height m v k)))

    withdraw_compensation_tokens-Agrees :
        (d m : ℕ) (w : World)
        → IsSettled d
        → height m < suc d
        → IsNested height w
        → Agrees
            (withdraw_compensation_tokens node_of (suc d) m w)
            (withdraw_compensation_tokens node_of (suc (suc d)) m w)
    unfolding withdraw_compensation_tokens
    withdraw_compensation_tokens-Agrees d m w ih b n =
        Agree-then _
          (for_each-Agrees (λ t. height t < height m) _ _
            (λ t v i k. within t (v.token t).owned v i (k.owned t) k) _ w (n.within m).activities n)
          (λ v k.
            Agree-then _
              (for_each-Agrees (λ t. height t < height m) _ _
                (λ t u i l. ih.tokens t u (omega (arith, i, b)) l) _ v (k.within m).compensations k)
              (λ u l. Agree-same _ (
                destroy_tokens-IsNested height node_of (u.machine m).compensation_tokens
                  (set_compensation_tokens u m [])
                  (set_compensation_tokens-IsNested height m u l))))
      where
        within :
            (t : ℕ) (o : Option ℕ) (v : World)
            → height t < height m
            → IsOver height t o
            → IsNested height v
            → Agrees
                (deref o >>= λ q. withdraw_compensation_tokens node_of d q v)
                (deref o >>= λ q. withdraw_compensation_tokens node_of (suc d) q v)
        within t none v i j k = neither _
        within t (some q) v i j k = ih.compensations q v (omega (arith, i, j, b)) k

    all-IsSettled : (d : ℕ) → IsSettled d
    all-IsSettled zero = record {
      tokens = λ t w b n. absurd (omega (arith, b));
      scopes = λ m w b n. absurd (omega (arith, b));
      compensations = λ m w b n. absurd (omega (arith, b));
    }
    all-IsSettled (suc d) =
        let ih = all-IsSettled d in
        record {
          tokens = λ t w b n. withdraw-Agrees d t w ih b n;
          scopes = λ m w b n. clear_obsolete_tokens-Agrees d m w ih b n;
          compensations = λ m w b n. withdraw_compensation_tokens-Agrees d m w ih b n;
        }

    -- If every token lies above the state machine that it owns, and every state machine above its tokens and not below
    -- its event subprocesses, then the withdrawal of a token goes no deeper than the height of the token: with every
    -- larger bound it ends in the same way, be it with a state or an error.
    pub withdraw-depth :
        (d more t : ℕ) (w : World)
        → height t < d
        → IsNested height w
        → withdraw node_of (more + d) t w ≡ withdraw node_of d t w
    withdraw-depth d zero t w b n = let e : zero + d ≡ d = omega arith in rw e refl
    withdraw-depth d (suc more) t w b n =
        let e : suc more + d ≡ suc (more + d) = omega arith in
        let c : height t < more + d = omega (arith, b) in
        rw e (
          sym (Agree-eq _ ((all-IsSettled (more + d)).tokens t w c n))
          ∙ withdraw-depth d more t w b n)
