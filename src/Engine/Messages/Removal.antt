-- ===== src/Engine/Messages/Removal.antt =====
-- execution/engine/src: what becomes of a message that is withdrawn or delivered.
use bpmnos_engine.Prelude.{
  ℕ, ◌≡◌, refl, sym, ap, ◌∙◌, inl, inr, true, false, none, List, [], ◌∷◌, arith, ◌==◌, All,
  Bool-cases, Option-cases, ok, >>=-eq-ok, ok-injective, Result-cases,
}
use bpmnos_engine.Utility.Expired.{weak_ptr, value, Tuple}
use bpmnos_engine.Utility.Erase.{erase_ptr}
use bpmnos_engine.Engine.World.{
  MessageState, message_withdrawn, World, put, Message, destroy, notify, put_self, put_message,
  message_notice,
}
use bpmnos_engine.Engine.Performer.{lock}
use bpmnos_engine.Engine.Messages.{
  set_state, remove_message, withdraw, withdraw_all, withdraw_messages, tuples_of,
}

-- A message that has left the system in a state.
abbrev pub HasLeft : MessageState → World → ℕ → Type 0
HasLeft state v m = (v.alive m ≡ false) × ((v.message m).state ≡ state)

-- What removing messages leaves: a message that is gone stays gone, in the state it had, one that leaves is in the
-- given state, and one that remains is unchanged.
pub record Removed (state : MessageState) (w v : World) : Type 0 where
  pub gone : (m : ℕ) → w.alive m ≡ false → (v.alive m ≡ false) × (v.message m ≡ w.message m)
  pub lost : (m : ℕ) → w.alive m ≡ true → v.alive m ≡ false → (v.message m).state ≡ state
  pub kept : (m : ℕ) → v.alive m ≡ true → (w.alive m ≡ true) × (v.message m ≡ w.message m)

true_absurd : false ≡ true → ⊥
true_absurd h = cc

Removed-refl : (state : MessageState) (w : World) → Removed state w w
Removed-refl state w = record {
  gone = λ m h. (h, refl);
  lost = λ m h k. absurd (true_absurd (sym k ∙ h));
  kept = λ m h. (h, refl);
}

Removed-trans :
    (state : MessageState) (u v w : World)
    → Removed state u v
    → Removed state v w
    → Removed state u w
Removed-trans state u v w a b = record {
  gone = λ m h. let (x, p) = a.gone m h in let (y, q) = b.gone m x in (y, q ∙ p);
  lost = λ m h k. elim (Bool-cases (v.alive m)) [
    | inl x ↦ b.lost m x k
    | inr x ↦ ap (λ (z : Message). z.state) (b.gone m x).1 ∙ a.lost m h x
  ];
  kept = λ m h. let (x, p) = b.kept m h in let (y, q) = a.kept m x in (y, p ∙ q);
}

abbrev pub left : MessageState → ℕ → List ℕ → World → World
left state m rest w =
    destroy
      (record (notify (put_message w m (set_state (w.message m) state)) (message_notice m state)) {
        messages = rest;
      })
      m

left-Removed :
    (state : MessageState) (m : ℕ) (rest : List ℕ) (w : World)
    → w.alive m ≡ true
    → Removed state w (left state m rest w)
left-Removed state m rest w a = record {
  gone = λ q h. elim (Bool-cases (m == q)) [
    | inl e ↦
        let eq : m ≡ q = ground arith in absurd (true_absurd (sym h ∙ sym (ap w.alive eq) ∙ a))
    | inr e ↦ rw e (h, refl)
  ];
  lost = λ q h k. elim (Bool-cases (m == q)) [ inl e ↦ rw e refl | inr e ↦ absurd (ground arith) ];
  kept = λ q h. elim (Bool-cases (m == q)) [
    | inl e ↦ absurd (ground arith)
    | inr e ↦ rw e (ground arith, refl)
  ];
}

pub remove_message-left :
    (state : MessageState) (m : ℕ) (w v : World)
    → remove_message state m w ≡ ok v
    → (rest : List ℕ) × (left state m rest w ≡ v)
unfolding remove_message
remove_message-left state m w v h = elim (Result-cases (erase_ptr w.messages m)) [
  | inr (x, e) ↦ absurd (ground arith)
  | inl (rest, e) ↦ (rest, ground arith)
]

pub left-HasLeft :
    (state : MessageState) (m : ℕ) (rest : List ℕ) (w : World)
    → HasLeft state (left state m rest w) m
left-HasLeft state m rest w = (
  put_self w.alive m false,
  ap (λ (x : Message). x.state) (put_self w.message m (set_state (w.message m) state)),
)

pub remove_message-Removed :
    (state : MessageState) (m : ℕ) (w v : World)
    → w.alive m ≡ true
    → remove_message state m w ≡ ok v
    → Removed state w v × HasLeft state v m × (v.inbox ≡ w.inbox)
remove_message-Removed state m w v a h =
    let (rest, eq) = remove_message-left state m w v h in
    rw (← eq) (left-Removed state m rest w a, left-HasLeft state m rest w, refl)

-- The message of the tuple does not exist.
abbrev pub IsGone : World → Tuple → Type 0
IsGone v e = (m : ℕ) → e ≡ weak_ptr m ∷ [] → v.alive m ≡ false

withdraw-Removed :
    (e : Tuple) (w v : World)
    → withdraw (lock w e) w ≡ ok v
    → Removed message_withdrawn w v × IsGone v e
withdraw-Removed (weak_ptr m ∷ rest) w v h = elim (Bool-cases (w.alive m)) [
  | inl a ↦
      let run : remove_message message_withdrawn m w ≡ ok v = ground arith in
      let (r, x, i) = remove_message-Removed message_withdrawn m w v a run in
      (r, λ q e. let eq : m ≡ q = cc in ap v.alive (sym eq) ∙ x.0)
  | inr a ↦
      let eq : w ≡ v = ground arith in
      rw (← eq)
        (Removed-refl message_withdrawn w, λ q e. let eq : m ≡ q = cc in ap w.alive (sym eq) ∙ a)
]
withdraw-Removed (value x ∷ rest) w v h =
    let eq : w ≡ v = cc in rw (← eq) (Removed-refl message_withdrawn w, λ q e. cc)
withdraw-Removed [] w v h =
    let eq : w ≡ v = cc in rw (← eq) (Removed-refl message_withdrawn w, λ q e. cc)

withdraw_all-Removed :
    (es : List Tuple) (w v : World)
    → withdraw_all es w ≡ ok v
    → Removed message_withdrawn w v × All (IsGone v) es
unfolding withdraw_all
withdraw_all-Removed [] w v h =
    let eq : w ≡ v = cc in rw (← eq) (Removed-refl message_withdrawn w, tt)
withdraw_all-Removed (e ∷ es) w v h =
    let (u, first, rest) = >>=-eq-ok (withdraw (lock w e) w) (withdraw_all es) h in
    let (a, here) = withdraw-Removed e w u first in
    let (b, all) = withdraw_all-Removed es u v rest in
    (Removed-trans message_withdrawn w u v a b, ((λ m x. (b.gone m (here m x)).0), all))

-- When a recipient is gone, every message of its inbox that still existed has been withdrawn, the messages that
-- remain are unchanged, and the state machine has no inbox any more.
pub withdraw_messages-Removed :
    (machine : ℕ) (w v : World)
    → withdraw_messages machine w ≡ ok v
    → Removed message_withdrawn w v
      × All (IsGone v) (tuples_of (w.inbox machine))
      × (v.inbox machine ≡ none)
unfolding withdraw_messages
withdraw_messages-Removed machine w v h = elim (Option-cases (w.inbox machine)) [
  | inl e ↦
      let eq : w ≡ v = ground arith in rw (← eq) (rw e (Removed-refl message_withdrawn w, tt, refl))
  | inr (es, e) ↦
      let (u, run, done) =
        >>=-eq-ok (withdraw_all es w) (λ u. ok (record u { inbox = put u.inbox machine none }))
          (ground arith) in
      let (r, all) = withdraw_all-Removed es w u run in
      let eq : record u { inbox = put u.inbox machine none } ≡ v = ok-injective done in
      rw (← eq) (
        rw e (
          record { gone = r.gone; lost = r.lost; kept = r.kept },
          all,
          put_self u.inbox machine none,
        ))
]
