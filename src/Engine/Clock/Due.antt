-- ===== src/Engine/Clock/Due.antt =====
-- execution/engine/src/Engine.cpp: which timers a clock tick triggers.
use mathlib.Core.Path.{subst}
use bpmnos_engine.Prelude.{
  ℕ, zero, suc, ◌<◌, ◌≡◌, refl, sym, ap, ◌∙◌, inl, inr, true, List, [], ◌∷◌, ◌++◌, arith,
  Bool-cases, ok, length, All, append_nil,
}
use bpmnos_engine.Prelude.Int.{ℤ, ltb_ℤ}
use bpmnos_engine.Utility.Expired.{weak_ptr, value, Tuple, expired}
use bpmnos_engine.Utility.AutoSet.{Entry, skip_expired, live_entries}
use bpmnos_engine.Utility.AutoSet.Order.{IsAscending}
use bpmnos_engine.Engine.World.{World, completion_of}
use bpmnos_engine.Engine.Clock.{set_timers, trigger, fire, increase_time_to, clock_tick}
use bpmnos_engine.Engine.Clock.Fired.{
  HoldsToken, due, later, completions, Fired, alive-expired, fire-expired, fire-later, fire-due,
  Fired-expired, Fired-due, Fired-later,
}

-- The outcome of the loop, once more than the tuples that there are rounds may be made.
abbrev Fires : ℕ → List Entry → World → Type 0
Fires fuel es w = (v : World) × (fire fuel es w ≡ ok v) × Fired es w v

fire-Fires :
    (fuel : ℕ) (es : List Entry) (w : World)
    → length es < fuel
    → IsAscending es
    → All HoldsToken es
    → Fires fuel es w
fire-Fires (suc fuel) [] w n asc h = (
  set_timers w [],
  (unfold fire skip_expired in refl),
  record {
    commands = unfold live_entries in sym (append_nil w.commands);
    timers = refl;
    time = refl;
  },
)
fire-Fires (suc fuel) ((time, p) ∷ es) w n (first, asc) ((t, eq), h) =
    subst (λ (q : Tuple). Fires (suc fuel) ((time, q) ∷ es) w) (sym eq)
      (elim (Bool-cases (w.alive t)) [
        | inr a ↦
            let gone : expired w.alive (weak_ptr t ∷ []) ≡ true = unfold expired in rw a refl in
            let (v, run, f) = fire-Fires (suc fuel) es w (omega (arith, n)) asc h in
            (
              v,
              fire-expired fuel (time, weak_ptr t ∷ []) es w gone ∙ run,
              Fired-expired (time, weak_ptr t ∷ []) es w v gone f,
            )
        | inl a ↦ elim (Bool-cases (ltb_ℤ w.current_time time)) [
          | inl l ↦ (
            set_timers w ((time, weak_ptr t ∷ []) ∷ es),
            fire-later fuel (time, weak_ptr t ∷ []) es w (alive-expired w.alive t a) l,
            Fired-later (time, weak_ptr t ∷ []) es w l first,
          )
          | inr l ↦
              let (v, run, f) = fire-Fires fuel es (trigger t w) (omega (arith, n)) asc h in
              (v, fire-due fuel time t es w a l ∙ run, Fired-due time t es w v a l f)
        ]
      ])
fire-Fires zero es w n asc h = absurd (omega (arith, n))

-- What a clock tick promises.
pub record Ticked (time : ℤ) (w v : World) : Type 0 where
  pub time_reached : v.current_time ≡ time
  pub commands :
      v.commands
      ≡ w.commands ++ completions w (live_entries w.alive (due time w.tokens_awaiting_timer))
  pub timers :
      live_entries w.alive v.tokens_awaiting_timer
      ≡ live_entries w.alive (later time w.tokens_awaiting_timer)

completions-time :
    (time : ℤ) (w : World) (es : List Entry)
    → completions (record w { current_time = time }) es ≡ completions w es
completions-time time w [] = refl
completions-time time w ((x, weak_ptr s ∷ rest) ∷ es) =
    ap (◌∷◌ (completion_of w s)) (completions-time time w es)
completions-time time w ((x, value y ∷ rest) ∷ es) = completions-time time w es
completions-time time w ((x, []) ∷ es) = completions-time time w es

-- A clock tick to a later time ends: it sets the time, enqueues the completion of every token still awaiting a timer
-- that is due at that time, from the earliest to the latest timer and tokens of equal timers in the order in which
-- they came to wait, and leaves exactly the timers that are not due. The container is ascending, and each of its
-- tuples holds one token.
pub clock_tick-Ticked :
    (time : ℤ) (w : World)
    → ltb_ℤ w.current_time time ≡ true
    → IsAscending w.tokens_awaiting_timer
    → All HoldsToken w.tokens_awaiting_timer
    → (v : World) × (clock_tick time w ≡ ok v) × Ticked time w v
unfolding clock_tick increase_time_to
clock_tick-Ticked time w l asc h =
    let u : World = record w { current_time = time } in
    let es = w.tokens_awaiting_timer in
    let (v, run, f) = fire-Fires (suc (length es)) es u (omega arith) asc h in
    (
      v,
      rw l run,
      record {
        time_reached = f.time;
        commands =
            f.commands
            ∙ ap (λ c. w.commands ++ c)
                (completions-time time w (live_entries w.alive (due time es)));
        timers = f.timers;
      },
    )
