-- ===== src/Engine/Messages/Lifecycle.antt =====
-- execution/engine/src: what becomes of a message until it is received or withdrawn.
use mathlib.Core.Path.{subst}
use bpmnos_engine.Prelude.{
  ℕ, ◌≡◌, refl, sym, ap, ◌∙◌, inl, inr, Bool, true, false, Option, none, some, List, [], ◌∷◌, ◌++◌,
  All, Bool-cases, Option-cases, append_nil, append_assoc,
}
use bpmnos_engine.Prelude.Int.{ℤ}
use bpmnos_engine.Utility.Expired.{weak_ptr, Tuple, expired, live}
use bpmnos_engine.Utility.AutoList.{emplace_back}
use bpmnos_engine.Utility.AutoList.Live.{live-emplace_back}
use bpmnos_engine.Engine.World.{World, put_self}
use bpmnos_engine.Engine.Tokens.{put_number_self}
use bpmnos_engine.Engine.Performer.{lock}
use bpmnos_engine.Engine.Messages.{
  tuples_of, find_machine, add_inbox, add_outbox, add_unsent, receive, route_to, receive_unsent,
  register_recipient,
}

-- A tuple holding a message and nothing else.
abbrev pub HoldsMessage : Tuple → Type 0
HoldsMessage e = (m : ℕ) × (e ≡ weak_ptr m ∷ [])

-- The messages of a state machine's inbox, and those that wait for the recipient, that still exist.
abbrev pub inbox_of : World → ℕ → List Tuple
inbox_of w machine = live w.alive (tuples_of (w.inbox machine))

abbrev pub unsent_to : World → ℤ → List Tuple
unsent_to w id = live w.alive (tuples_of (w.unsent id))

receive-alive : (o : Option ℕ) (machine : ℕ) (w : World) → (receive o machine w).alive ≡ w.alive
unfolding add_inbox add_outbox
receive-alive none machine w = refl
receive-alive (some m) machine w = refl

abbrev one : ℕ → List Tuple
one m = (weak_ptr m ∷ []) ∷ []

inbox_of-add :
    (machine m : ℕ) (w : World)
    → inbox_of (receive (some m) machine w) machine ≡ inbox_of w machine ++ live w.alive (one m)
unfolding add_inbox add_outbox
inbox_of-add machine m w =
    ap (λ o. live w.alive (tuples_of o))
      (put_self w.inbox machine
        (some (emplace_back w.alive (tuples_of (w.inbox machine)) (weak_ptr m ∷ []))))
    ∙ live-emplace_back w.alive (tuples_of (w.inbox machine)) (weak_ptr m ∷ [])

-- A message of the list is received if it exists, and passed over if it does not.
inbox_of-receive :
    (machine m : ℕ) (w : World)
    → inbox_of (receive (lock w (weak_ptr m ∷ [])) machine w) machine
      ≡ inbox_of w machine ++ live w.alive (one m)
inbox_of-receive machine m w = elim (Bool-cases (w.alive m)) [
  | inl a ↦ rw a (inbox_of-add machine m w)
  | inr a ↦
      rw a
        (sym (append_nil (inbox_of w machine)) ∙ ap (λ l. inbox_of w machine ++ l) (sym (dead a)))
]
  where
    dead : w.alive m ≡ false → live w.alive (one m) ≡ []
    dead a = unfold live expired in rw a refl

live-cons :
    (alive : ℕ → Bool) (e : Tuple) (es : List Tuple)
    → live alive (e ∷ es) ≡ live alive (e ∷ []) ++ live alive es
unfolding live
live-cons alive e es = elim (Bool-cases (expired alive e)) [ inl x ↦ rw x refl | inr x ↦ rw x refl ]

receive_unsent-inbox :
    (machine : ℕ) (es : List Tuple) (w : World)
    → All HoldsMessage es
    → (inbox_of (receive_unsent machine es w) machine ≡ inbox_of w machine ++ live w.alive es)
      × ((receive_unsent machine es w).alive ≡ w.alive)
unfolding receive_unsent live
receive_unsent-inbox machine [] w h = (sym (append_nil (inbox_of w machine)), refl)
receive_unsent-inbox machine (e ∷ es) w ((m, eq), hs) =
    let v = receive (lock w e) machine w in
    let same : v.alive ≡ w.alive = receive-alive (lock w e) machine w in
    let (ih, kept) = receive_unsent-inbox machine es v hs in
    let first : inbox_of v machine ≡ inbox_of w machine ++ live w.alive (e ∷ []) =
      subst
        (λ (t : Tuple).
          inbox_of (receive (lock w t) machine w) machine
          ≡ inbox_of w machine ++ live w.alive (t ∷ []))
        (sym eq) (inbox_of-receive machine m w) in
    (
      ih
          ∙ ap (λ l. l ++ live v.alive es) first
          ∙ ap (λ a. (inbox_of w machine ++ live w.alive (e ∷ [])) ++ live a es) same
          ∙ append_assoc (inbox_of w machine) (live w.alive (e ∷ [])) (live w.alive es)
          ∙ ap (λ l. inbox_of w machine ++ l) (sym (live-cons w.alive e es)),
      kept ∙ same,
    )

-- When a recipient is registered, its inbox receives the messages that were sent to it before it existed and have
-- not been withdrawn since, in the order in which they were sent, and none of them waits any longer.
pub register_recipient-inbox :
    (machine : ℕ) (id : ℤ) (w : World)
    → All HoldsMessage (tuples_of (w.unsent id))
    → (inbox_of (register_recipient machine id w) machine ≡ inbox_of w machine ++ unsent_to w id)
      × (unsent_to (register_recipient machine id w) id ≡ [])
unfolding register_recipient
register_recipient-inbox machine id w h = elim (Option-cases (w.unsent id)) [
  | inl n ↦ rw n (rw n (unfold live in (sym (append_nil (inbox_of w machine)), refl)))
  | inr (es, e) ↦
      let (all, kept) =
        receive_unsent-inbox machine es w (subst (λ o. All HoldsMessage (tuples_of o)) e h) in
      let v = receive_unsent machine es w in
      rw e (
        all,
        ap (λ o. live v.alive (tuples_of o)) (put_number_self v.unsent id none)
            ∙ (unfold live in refl),
      )
]

-- A message sent to a recipient that is not registered waits behind the messages that already wait for it.
pub route_to-unsent :
    (id : ℤ) (node m : ℕ) (w : World)
    → find_machine w.archive id ≡ none
    → w.alive m ≡ true
    → unsent_to (route_to id node m w) id ≡ unsent_to w id ++ one m
unfolding route_to add_unsent
route_to-unsent id node m w h a = rw h (
    ap (λ o. live w.alive (tuples_of o))
      (put_number_self w.unsent id
        (some (emplace_back w.alive (tuples_of (w.unsent id)) (weak_ptr m ∷ []))))
    ∙ live-emplace_back w.alive (tuples_of (w.unsent id)) (weak_ptr m ∷ [])
    ∙ ap (λ l. unsent_to w id ++ l) kept)
  where
    kept : live w.alive (one m) ≡ one m
    kept = unfold live expired in rw a refl
