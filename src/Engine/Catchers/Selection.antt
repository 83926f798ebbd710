-- ===== src/Engine/Catchers/Selection.antt =====
-- execution/engine/src/StateMachine.cpp: the candidate that is selected.
use bpmnos_engine.Prelude.{
  ◌≡◌, refl, inl, inr, Bool, true, false, Option, none, some, List, [], ◌∷◌, if◌then◌else◌,
  Bool-cases,
}
use bpmnos_engine.Engine.World.{Content}
use bpmnos_engine.Engine.Catchers.{
  Definition, is_named, or_candidate, select_step, select_from, select_catcher,
}

-- The first element that passes a test.
abbrev pub find_first {ℓ} : {A : Type ℓ} → (A → Bool) → List A → Option A
find_first test [] = none
find_first test (a ∷ list) = if test a then some a else find_first test list

abbrev pub or_else {ℓ} : {A : Type ℓ} → Option A → Option A → Option A
or_else none b = b
or_else (some a) b = some a

-- Whether a candidate states the name of the content, and whether it states no definition.
abbrev pub catches_named : Option Content → Definition → Bool
catches_named content (some (some name)) = is_named content name
catches_named content _ = false

abbrev pub catches_all : Definition → Bool
catches_all (some none) = true
catches_all _ = false

module _ {ℓ} {A : Type ℓ} (definition_of : A → Definition) (content : Option Content) where
  abbrev pub named : A → Bool
  named a = catches_named content (definition_of a)

  abbrev pub unnamed : A → Bool
  unnamed a = catches_all (definition_of a)

  -- One candidate of the given definition.
  step :
      (d : Definition) (candidate : A) (candidates : List A) (all : Option A)
      → select_from definition_of content all candidates
        ≡ or_else (find_first named candidates) (or_else all (find_first unnamed candidates))
      → select_from definition_of content
          (or_candidate definition_of content all candidate)
          candidates
        ≡ or_else (find_first named candidates) (
            or_else
              (or_candidate definition_of content all candidate)
              (find_first unnamed candidates))
      → select_step definition_of content d all candidate
          (λ all. select_from definition_of content all candidates)
        ≡ or_else
            (if catches_named content d then some candidate else find_first named candidates)
            (or_else all (if catches_all d then some candidate else find_first unnamed candidates))
  step none candidate candidates all h k = h
  step (some none) candidate candidates none h k = k
  step (some none) candidate candidates (some a) h k = k
  step (some (some name)) candidate candidates all h k = elim (Bool-cases (is_named content name)) [
    | inl e ↦ rw e refl
    | inr e ↦ rw e h
  ]

  select_from-eq :
      (all : Option A) (candidates : List A)
      → select_from definition_of content all candidates
        ≡ or_else (find_first named candidates) (or_else all (find_first unnamed candidates))
  unfolding select_from
  select_from-eq none [] = refl
  select_from-eq (some a) [] = refl
  select_from-eq all (candidate ∷ candidates) =
      step (definition_of candidate) candidate candidates all (select_from-eq all candidates)
        (select_from-eq (or_candidate definition_of content all candidate) candidates)

  -- The candidate selected is the first whose node states the name of the content or, where there is none, the first
  -- whose node states no definition; where there is neither, nothing is caught.
  pub select_catcher-eq :
      (candidates : List A)
      → select_catcher definition_of content candidates
        ≡ or_else (find_first named candidates) (find_first unnamed candidates)
  unfolding select_catcher
  select_catcher-eq candidates = select_from-eq none candidates
