-- ===== src/Engine/Clock.antt =====
-- execution/engine/src/Engine.cpp: the advance of time, `process(const ClockTickEvent*)`. Every round of the loop
-- takes a tuple off the container, so that as many rounds as there are tuples, and one, are enough.
pub mod Fired
pub mod Due
use bpmnos_engine.Prelude.{
  ℕ, zero, suc, Bool, true, false, Option, none, some, List, [], ◌∷◌, ◌++◌, if◌then◌else◌, Result,
  ok, throw, length, failed_assert, undefined_behaviour, ◌>>=◌,
}
use bpmnos_engine.Prelude.Int.{ℤ, ltb_ℤ}
use bpmnos_engine.Utility.AutoSet.{Entry, skip_expired, remove}
use bpmnos_engine.Engine.World.{
  World, Call, advance_to_completed, timer_notice, notify, enqueue_for_token,
}
use bpmnos_engine.Engine.Performer.{lock}

-- `SystemState::increaseTimeTo`
unfoldable pub increase_time_to : ℤ → World → Result World
increase_time_to time w =
    if ltb_ℤ w.current_time time then ok (record w { current_time = time }) else throw failed_assert

abbrev pub set_timers : World → List Entry → World
set_timers w entries = record w { tokens_awaiting_timer = entries }

-- A token whose timer is due.
abbrev pub trigger : ℕ → World → World
trigger t w = enqueue_for_token (notify w (timer_notice t)) (advance_to_completed t) t

-- The token of the first tuple, the rest of the loop being given.
abbrev pub fire_token :
    (List Entry → World → Result World) → Option ℕ → List Entry → World → Result World
fire_token rest none entries w = throw failed_assert
fire_token rest (some t) entries w = rest (remove w.alive 0 t entries) (trigger t w)

-- A round, the expired tuples before the first having been erased.
abbrev pub fire_first : (List Entry → World → Result World) → List Entry → World → Result World
fire_first rest [] w = ok (set_timers w [])
fire_first rest (e ∷ es) w =
    if ltb_ℤ w.current_time e.0
    then ok (set_timers w (e ∷ es))
    else fire_token rest (lock w e.1) (e ∷ es) w

-- The loop, the container being the entries given.
unfoldable pub fire : ℕ → List Entry → World → Result World
unfolding skip_expired remove
fire zero entries w = throw undefined_behaviour
fire (suc fuel) entries w = fire_first (fire fuel) (skip_expired w.alive entries) w

-- The whole handler, up to the processing of the commands.
unfoldable pub clock_tick : ℤ → World → Result World
unfolding increase_time_to fire
clock_tick time w = increase_time_to time w >>= λ v.
    fire (suc (length v.tokens_awaiting_timer)) v.tokens_awaiting_timer v
