-- ===== src/Tests/UtilityTests.antt =====
-- Runs of the containers.
use bpmnos_engine.Prelude.{ℕ, ◌≡◌, refl, Bool, true, false, List, [], ◌∷◌, arith, ltb}
use bpmnos_engine.Prelude.Int.{pos}
use bpmnos_engine.Utility.Erase.{erase_ptr, Erases, erase_ptr-Erases}
use bpmnos_engine.Utility.Expired.{weak_ptr, Tuple, expired, live}
use bpmnos_engine.Utility.AutoList.{remove, points_to}
use bpmnos_engine.Utility.AutoList.Live.{remove_stale}
use bpmnos_engine.Utility.AutoSet.{Entry, ascending, emplace}
use bpmnos_engine.Utility.AutoSet.Order.{IsAscending, Placed, emplace-Placed}

erase_ptr-Erases_example : Erases (4 ∷ 5 ∷ 4 ∷ []) 4 (erase_ptr (4 ∷ 5 ∷ 4 ∷ []) 4)
erase_ptr-Erases_example = erase_ptr-Erases (4 ∷ 5 ∷ 4 ∷ []) 4

-- The objects 0 to 9 are alive.
abbrev alive : ℕ → Bool
alive p = ltb p 10

abbrev three : List Tuple
three = (weak_ptr 11 ∷ []) ∷ (weak_ptr 2 ∷ []) ∷ (weak_ptr 3 ∷ []) ∷ []

-- No object is pointed to by a tuple holding anything else.
abbrev everything : ℕ → Bool
everything p = true

points : points_to alive 0 2 (weak_ptr 2 ∷ weak_ptr 12 ∷ []) ≡ true
unfolding points_to
points = refl

stale : expired alive (weak_ptr 2 ∷ weak_ptr 12 ∷ []) ≡ true
unfolding expired
stale = refl

fresh : expired alive (weak_ptr 3 ∷ weak_ptr 4 ∷ []) ≡ false
unfolding expired
fresh = refl

remove_stale_example :
    live alive
      (remove alive 0 2 ((weak_ptr 2 ∷ weak_ptr 12 ∷ []) ∷ (weak_ptr 3 ∷ weak_ptr 4 ∷ []) ∷ []))
    ≡ live alive []
remove_stale_example =
    remove_stale alive 0 2 (weak_ptr 2 ∷ weak_ptr 12 ∷ []) (weak_ptr 3 ∷ weak_ptr 4 ∷ []) [] points
      stale fresh

abbrev timers : List Entry
timers = (pos 3, weak_ptr 1 ∷ []) ∷ (pos 5, weak_ptr 2 ∷ []) ∷ []

timers-IsAscending : IsAscending timers
timers-IsAscending = ((omega arith, tt), (tt, tt))

emplace-Placed_example :
    Placed timers (pos 3, weak_ptr 4 ∷ []) (emplace ascending timers (pos 3, weak_ptr 4 ∷ []))
emplace-Placed_example = emplace-Placed timers (pos 3, weak_ptr 4 ∷ []) timers-IsAscending
