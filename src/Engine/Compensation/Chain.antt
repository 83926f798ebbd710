-- ===== src/Engine/Compensation/Chain.antt =====
-- execution/engine/src/StateMachine.cpp: the order in which compensations are made.
use bpmnos_engine.Prelude.{
  ℕ, ◌++◌, ◌≡◌, ◌≢◌, refl, ap, ◌∙◌, inl, inr, Option, some, List, [], ◌∷◌, arith, if◌then◌else◌,
  Bool-cases, All, Result, ok, >>=-eq-ok, ok-injective, Result-cases,
}
use bpmnos_engine.Utility.Erase.{erase_ptr}
use bpmnos_engine.Engine.World.{
  World, Node, put_self, put_other, enqueue_for_token, advance_to_completed, completion_of,
}
use bpmnos_engine.Engine.Compensation.{
  at_start_event, set_awaiter, set_awaiters, compensate_reversed, compensate, onto, push_token,
  erase_compensation_token, set_compensation_tokens,
}

erase_compensation_token-eq :
    (m t : ℕ) (w u : World)
    → erase_compensation_token m t w ≡ ok u
    → (ts : List ℕ) × (set_compensation_tokens w m ts ≡ u)
unfolding erase_compensation_token
erase_compensation_token-eq m t w u h =
    elim (Result-cases (erase_ptr (w.machine m).compensation_tokens t)) [
      | inr (x, e) ↦ absurd (ground arith)
      | inl (ts, e) ↦ (ts, ground arith)
    ]

module _ (node_of : ℕ → Node) where
  -- The token that waits for the compensation of the given one.
  abbrev pub awaiter : World → ℕ → Option ℕ
  awaiter w t =
      if at_start_event node_of w t
      then w.token_awaiting_compensation_event_sub_process (w.token t).owner
      else w.token_awaiting_compensation_activity t

  -- Each token is awaited by the next, and the last by the waiting token.
  abbrev pub IsChain : World → ℕ → List ℕ → ℕ → Type 0
  IsChain w t [] waiting = awaiter w t ≡ some waiting
  IsChain w t (next ∷ rest) waiting = (awaiter w t ≡ some next) × IsChain w next rest waiting

  -- What a token is awaited through: itself, or the state machine of its event subprocess.
  abbrev pub slot : World → ℕ → ℕ
  slot w t = if at_start_event node_of w t then (w.token t).owner else t

  -- The tokens are awaited through different objects.
  abbrev pub AreApart : World → ℕ → ℕ → Type 0
  AreApart w t u = slot w t ≢ slot w u

  abbrev pub AllApart : World → List ℕ → Type 0
  AllApart w [] = Unit
  AllApart w (t ∷ ts) = All (AreApart w t) ts × AllApart w ts

  set_awaiter_self :
      (t waiting : ℕ) (w : World) → awaiter (set_awaiter node_of t waiting w) t ≡ some waiting
  set_awaiter_self t waiting w = elim (Bool-cases (at_start_event node_of w t)) [
    | inl e ↦
        rw e (
          put_self w.token_awaiting_compensation_event_sub_process (w.token t).owner (some waiting))
    | inr e ↦ rw e (put_self w.token_awaiting_compensation_activity t (some waiting))
  ]

  set_awaiter_other :
      (t u waiting : ℕ) (w : World)
      → AreApart w t u
      → awaiter (set_awaiter node_of u waiting w) t ≡ awaiter w t
  set_awaiter_other t u waiting w n = elim (Bool-cases (at_start_event node_of w t)) [
    | inl e ↦ elim (Bool-cases (at_start_event node_of w u)) [
      | inl f ↦
          rw (e, f)
            (put_other w.token_awaiting_compensation_event_sub_process (w.token u).owner
              (w.token t).owner (some waiting) (λ q. n (rw (e, f) q)))
      | inr f ↦ rw (e, f) refl
    ]
    | inr e ↦ elim (Bool-cases (at_start_event node_of w u)) [
      | inl f ↦ rw (e, f) refl
      | inr f ↦
          rw (e, f)
            (put_other w.token_awaiting_compensation_activity u t (some waiting)
              (λ q. n (rw (e, f) q)))
    ]
  ]

  set_awaiters_other :
      (t u : ℕ) (rest : List ℕ) (waiting : ℕ) (w : World)
      → All (AreApart w t) (u ∷ rest)
      → awaiter (set_awaiters node_of u rest waiting w) t ≡ awaiter w t
  unfolding set_awaiters
  set_awaiters_other t u [] waiting w (n, h) = set_awaiter_other t u waiting w n
  set_awaiters_other t u (next ∷ rest) waiting w (n, h) =
      set_awaiters_other t next rest waiting (set_awaiter node_of u next w) h
      ∙ set_awaiter_other t u next w n

  set_awaiters-IsChain :
      (t : ℕ) (rest : List ℕ) (waiting : ℕ) (w : World)
      → AllApart w (t ∷ rest)
      → IsChain (set_awaiters node_of t rest waiting w) t rest waiting
  unfolding set_awaiters
  set_awaiters-IsChain t [] waiting w h = set_awaiter_self t waiting w
  set_awaiters-IsChain t (next ∷ rest) waiting w (n, h) =
      let v = set_awaiter node_of t next w in
      (
        set_awaiters_other t next rest waiting v n ∙ set_awaiter_self t next w,
        set_awaiters-IsChain next rest waiting v h,
      )

  set_awaiters-commands :
      (t : ℕ) (rest : List ℕ) (waiting : ℕ) (w : World)
      → (set_awaiters node_of t rest waiting w).commands ≡ w.commands
  unfolding set_awaiters
  set_awaiters-commands t [] waiting w = refl
  set_awaiters-commands t (next ∷ rest) waiting w =
      set_awaiters-commands next rest waiting (set_awaiter node_of t next w)

  -- What compensating promises of the compensations in the order in which they are made.
  abbrev pub Compensates : List ℕ → ℕ → World → World → Type 0
  Compensates [] waiting w v = ⊥
  Compensates (t ∷ rest) waiting w v =
      (v.commands ≡ w.commands ++ completion_of w t ∷ []) × IsChain v t rest waiting

  compensate_reversed-Compensates :
      (m : ℕ) (ts : List ℕ) (waiting : ℕ) (w v : World)
      → AllApart w ts
      → compensate_reversed node_of m ts waiting w ≡ ok v
      → Compensates ts waiting w v
  unfolding compensate_reversed erase_compensation_token
  compensate_reversed-Compensates m [] waiting w v h q = cc
  compensate_reversed-Compensates m (t ∷ rest) waiting w v h q =
      let pushed = push_token (if at_start_event node_of w t then (w.token t).owner else m) t w in
      let finish : World → Result World = λ u.
        ok (set_awaiters node_of t rest waiting (enqueue_for_token u (advance_to_completed t) t)) in
      let (u, run, done) = >>=-eq-ok (erase_compensation_token m t pushed) finish q in
      let (ts, same) = erase_compensation_token-eq m t pushed u run in
      let x = enqueue_for_token (set_compensation_tokens pushed m ts) (advance_to_completed t) t in
      let eq : set_awaiters node_of t rest waiting x ≡ v =
        ap
          (λ u.
            set_awaiters node_of t rest waiting (enqueue_for_token u (advance_to_completed t) t))
          same
        ∙ ok-injective done in
      rw (← eq) (set_awaiters-commands t rest waiting x, set_awaiters-IsChain t rest waiting x h)

  -- The compensations are made one after the other in the reverse of the order given: the last is advanced at once,
  -- each of the others awaits the one behind it, and the token that waits for the compensations awaits the first. The
  -- compensations are awaited through different objects.
  pub compensate-Compensates :
      (m : ℕ) (compensations : List ℕ) (waiting : ℕ) (w v : World)
      → AllApart w (onto [] compensations)
      → compensate node_of m compensations waiting w ≡ ok v
      → Compensates (onto [] compensations) waiting w v
  unfolding compensate
  compensate-Compensates m compensations waiting w v h q =
      compensate_reversed-Compensates m (onto [] compensations) waiting w v h q
