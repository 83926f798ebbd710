-- ===== src/Engine/Clock/Fired.antt =====
-- execution/engine/src/Engine.cpp: the rounds of the loop of a clock tick.
use bpmnos_engine.Prelude.{
  ℕ, suc, ◌≡◌, refl, sym, ap, ◌∙◌, inl, inr, Bool, true, false, List, [], ◌∷◌, ◌++◌, arith,
  if◌then◌else◌, Bool-cases, ok, All, append_nil, append_assoc, ◌==◌,
}
use bpmnos_engine.Prelude.Int.{ℤ, ltb_ℤ, ◌≤ℤ◌}
use bpmnos_engine.Utility.Expired.{weak_ptr, value, expired}
use bpmnos_engine.Utility.AutoList.{points_to}
use bpmnos_engine.Utility.AutoSet.{Entry, skip_expired, live_entries, find, erase_tuple, remove}
use bpmnos_engine.Engine.World.{World, Command, completion_of}
use bpmnos_engine.Engine.Clock.{set_timers, trigger, fire_first, fire}

-- An entry holding a token and nothing else.
abbrev pub HoldsToken : Entry → Type 0
HoldsToken e = (t : ℕ) × (e.1 ≡ weak_ptr t ∷ [])

-- The entries whose time has come, and the others.
abbrev pub due : ℤ → List Entry → List Entry
due now [] = []
due now (e ∷ es) = if ltb_ℤ now e.0 then due now es else e ∷ due now es

abbrev pub later : ℤ → List Entry → List Entry
later now [] = []
later now (e ∷ es) = if ltb_ℤ now e.0 then e ∷ later now es else later now es

-- The commands completing the tokens of the entries.
abbrev pub completions : World → List Entry → List Command
completions w [] = []
completions w ((time, weak_ptr t ∷ rest) ∷ es) = completion_of w t ∷ completions w es
completions w (_ ∷ es) = completions w es

-- What the loop leaves.
pub record Fired (entries : List Entry) (w v : World) : Type 0 where
  pub commands :
      v.commands ≡ w.commands ++ completions w (live_entries w.alive (due w.current_time entries))
  pub timers :
      live_entries w.alive v.tokens_awaiting_timer
      ≡ live_entries w.alive (later w.current_time entries)
  pub time : v.current_time ≡ w.current_time

every_later :
    (now : ℤ) (es : List Entry)
    → All (λ (y : Entry). ltb_ℤ now y.0 ≡ true) es
    → (due now es ≡ []) × (later now es ≡ es)
every_later now [] h = (refl, refl)
every_later now (e ∷ es) (h, hs) =
    let (d, l) = every_later now es hs in (rw h d, rw h (ap (◌∷◌ e) l))

ascending_later :
    (now : ℤ) (e : Entry) (es : List Entry)
    → ltb_ℤ now e.0 ≡ true
    → All (λ (y : Entry). e.0 ≤ℤ y.0) es
    → All (λ (y : Entry). ltb_ℤ now y.0 ≡ true) es
ascending_later now e [] h a = tt
ascending_later now e (y ∷ es) h (a, rest) = (ground arith, ascending_later now e es h rest)

remove_first_entry :
    (alive : ℕ → Bool) (time : ℤ) (t : ℕ) (es : List Entry)
    → alive t ≡ true
    → remove alive 0 t ((time, weak_ptr t ∷ []) ∷ es) ≡ es
unfolding remove find erase_tuple points_to skip_expired expired
remove_first_entry alive time t es a = rw a (rw (self t) refl)
  where
    self : (t : ℕ) → (t == t) ≡ true
    self t = ground arith

skip-expired :
    (alive : ℕ → Bool) (e : Entry) (es : List Entry)
    → expired alive e.1 ≡ true
    → skip_expired alive (e ∷ es) ≡ skip_expired alive es
unfolding skip_expired
skip-expired alive e es x = rw x refl

skip-kept :
    (alive : ℕ → Bool) (e : Entry) (es : List Entry)
    → expired alive e.1 ≡ false
    → skip_expired alive (e ∷ es) ≡ e ∷ es
unfolding skip_expired
skip-kept alive e es x = rw x refl

pub alive-expired :
    (alive : ℕ → Bool) (t : ℕ) → alive t ≡ true → expired alive (weak_ptr t ∷ []) ≡ false
unfolding expired
alive-expired alive t a = rw a refl

pub fire-expired :
    (fuel : ℕ) (e : Entry) (es : List Entry) (w : World)
    → expired w.alive e.1 ≡ true
    → fire (suc fuel) (e ∷ es) w ≡ fire (suc fuel) es w
unfolding fire
fire-expired fuel e es w x = ap (λ l. fire_first (fire fuel) l w) (skip-expired w.alive e es x)

pub fire-later :
    (fuel : ℕ) (e : Entry) (es : List Entry) (w : World)
    → expired w.alive e.1 ≡ false
    → ltb_ℤ w.current_time e.0 ≡ true
    → fire (suc fuel) (e ∷ es) w ≡ ok (set_timers w (e ∷ es))
unfolding fire
fire-later fuel e es w x l =
    ap (λ l. fire_first (fire fuel) l w) (skip-kept w.alive e es x) ∙ rw l refl

pub fire-due :
    (fuel : ℕ) (time : ℤ) (t : ℕ) (es : List Entry) (w : World)
    → w.alive t ≡ true
    → ltb_ℤ w.current_time time ≡ false
    → fire (suc fuel) ((time, weak_ptr t ∷ []) ∷ es) w ≡ fire fuel es (trigger t w)
unfolding fire
fire-due fuel time t es w a l =
    ap (λ l. fire_first (fire fuel) l w)
      (skip-kept w.alive (time, weak_ptr t ∷ []) es (alive-expired w.alive t a))
    ∙ rw l
        (rw a (ap (λ rest. fire fuel rest (trigger t w)) (remove_first_entry w.alive time t es a)))

live-expired :
    (alive : ℕ → Bool) (e : Entry) (es : List Entry)
    → expired alive e.1 ≡ true
    → live_entries alive (e ∷ es) ≡ live_entries alive es
unfolding live_entries
live-expired alive e es x = rw x refl

live-kept :
    (alive : ℕ → Bool) (e : Entry) (es : List Entry)
    → expired alive e.1 ≡ false
    → live_entries alive (e ∷ es) ≡ e ∷ live_entries alive es
unfolding live_entries
live-kept alive e es x = rw x refl

due-expired :
    (alive : ℕ → Bool) (now : ℤ) (e : Entry) (es : List Entry)
    → expired alive e.1 ≡ true
    → (live_entries alive (due now (e ∷ es)) ≡ live_entries alive (due now es))
      × (live_entries alive (later now (e ∷ es)) ≡ live_entries alive (later now es))
due-expired alive now e es x = elim (Bool-cases (ltb_ℤ now e.0)) [
  | inl l ↦ rw l (refl, live-expired alive e (later now es) x)
  | inr l ↦ rw l (live-expired alive e (due now es) x, refl)
]

pub Fired-expired :
    (e : Entry) (es : List Entry) (w v : World)
    → expired w.alive e.1 ≡ true
    → Fired es w v
    → Fired (e ∷ es) w v
Fired-expired e es w v x f =
    let (d, l) = due-expired w.alive w.current_time e es x in
    record {
      commands = f.commands ∙ ap (λ c. w.commands ++ completions w c) (sym d);
      timers = f.timers ∙ sym l;
      time = f.time;
    }

completions-trigger :
    (t : ℕ) (w : World) (es : List Entry) → completions (trigger t w) es ≡ completions w es
completions-trigger t w [] = refl
completions-trigger t w ((time, weak_ptr s ∷ rest) ∷ es) =
    ap (◌∷◌ (completion_of w s)) (completions-trigger t w es)
completions-trigger t w ((time, value x ∷ rest) ∷ es) = completions-trigger t w es
completions-trigger t w ((time, []) ∷ es) = completions-trigger t w es

pub Fired-due :
    (time : ℤ) (t : ℕ) (es : List Entry) (w v : World)
    → w.alive t ≡ true
    → ltb_ℤ w.current_time time ≡ false
    → Fired es (trigger t w) v
    → Fired ((time, weak_ptr t ∷ []) ∷ es) w v
Fired-due time t es w v a l f = record {
  commands =
      f.commands
      ∙ append_assoc w.commands (completion_of w t ∷ [])
          (completions (trigger t w) (live_entries w.alive (due w.current_time es)))
      ∙ ap (λ c. w.commands ++ completion_of w t ∷ c)
          (completions-trigger t w (live_entries w.alive (due w.current_time es)))
      ∙ ap (λ c. w.commands ++ completions w c) (sym first);
  timers = rw l f.timers;
  time = f.time;
}
  where
    first :
        live_entries w.alive (due w.current_time ((time, weak_ptr t ∷ []) ∷ es))
        ≡ (time, weak_ptr t ∷ []) ∷ live_entries w.alive (due w.current_time es)
    first = rw l (
        live-kept w.alive (time, weak_ptr t ∷ []) (due w.current_time es)
          (alive-expired w.alive t a))

pub Fired-later :
    (e : Entry) (es : List Entry) (w : World)
    → ltb_ℤ w.current_time e.0 ≡ true
    → All (λ (y : Entry). e.0 ≤ℤ y.0) es
    → Fired (e ∷ es) w (set_timers w (e ∷ es))
unfolding live_entries
Fired-later e es w l first =
    let (d, k) =
      every_later w.current_time (e ∷ es) (l, ascending_later w.current_time e es l first) in
    record {
      commands =
          sym (append_nil w.commands)
          ∙ ap (λ c. w.commands ++ completions w (live_entries w.alive c)) (sym d);
      timers = ap (live_entries w.alive) (sym k);
      time = refl;
    }
