-- ===== src/Engine/Tokens/Time.antt =====
-- execution/engine/src/Token.cpp: the timestamp that `update` leaves.
use bpmnos_engine.Prelude.{
  ◌≡◌, refl, true, false, inl, inr, ok, throw, arith, none, some, List, [], ◌∷◌, Result, Bool-cases,
  if◌then◌else◌, set, runtime_error, ◌⊎◌,
}
use bpmnos_engine.Prelude.Int.{ℤ, ltb_ℤ}
use bpmnos_engine.Values.Number.{Value}
use bpmnos_engine.Engine.World.{TokenState, Token, Node}
use bpmnos_engine.Engine.Tokens.{first_value, timestamp, updated, may_be_ahead}

-- What `update` promises: the token has the new state, and a timestamp that is the later of the current time and
-- the one it had; only a token in a state that allows it is left ahead of the current time.
pub record Updated (node : Node) (now time : ℤ) (state : TokenState) (token : Token) : Type 0 where
  pub has_state : token.state ≡ state
  pub stamped : timestamp token.status ≡ ok (if ltb_ℤ time now then now else time)
  pub ahead : (ltb_ℤ now time ≡ false) ⊎ (may_be_ahead node state ≡ true)

abbrev pub UpdatedOr : Node → ℤ → ℤ → TokenState → Result Token → Type 0
UpdatedOr node now time state (ok token) = Updated node now time state token
UpdatedOr node now time state (throw e) =
    (e ≡ runtime_error) × (ltb_ℤ now time ≡ true) × (may_be_ahead node state ≡ false)

first_value-set :
    (vs : List Value) (time now : ℤ)
    → first_value vs ≡ ok time
    → first_value (set vs 0 (some now)) ≡ ok now
first_value-set (some t ∷ rest) time now h = refl
first_value-set (none ∷ rest) time now h = cc
first_value-set [] time now h = cc

not_earlier : (time now : ℤ) → ltb_ℤ time now ≡ true → ltb_ℤ now time ≡ false
not_earlier time now h = ground arith

-- `update`, of a token with a timestamp, gives the token the state, raises its timestamp to the current time
-- if it is earlier and leaves it otherwise, and fails with `std::runtime_error` exactly when the timestamp lies
-- ahead of the current time in a state that does not allow it.
pub updated-Updated :
    (node : Node) (now time : ℤ) (state : TokenState) (token : Token)
    → timestamp token.status ≡ ok time
    → UpdatedOr node now time state (updated node now state token)
unfolding updated
updated-Updated node now time state token h = rw h (elim (Bool-cases (ltb_ℤ time now)) [
  | inl e ↦ rw e (record {
    has_state = refl;
    stamped = rw e (first_value-set token.status.attributes time now h);
    ahead = inl (not_earlier time now e);
  })
  | inr e ↦ rw e (elim (Bool-cases (ltb_ℤ now time)) [
    | inl a ↦ rw a (elim (Bool-cases (may_be_ahead node state)) [
      | inl m ↦ rw m (record { has_state = refl; stamped = rw e h; ahead = inr m })
      | inr m ↦ rw m (refl, a, m)
    ])
    | inr a ↦ rw a (record { has_state = refl; stamped = rw e h; ahead = inl a })
  ])
])
