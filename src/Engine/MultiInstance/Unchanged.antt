-- ===== src/Engine/MultiInstance/Unchanged.antt =====
-- execution/engine/src/StateMachine.cpp: what leaves the instances of multi-instance activities as they are.
use bpmnos_engine.Prelude.{
  ℕ, ◌≤◌, ◌≡◌, refl, ◌∙◌, inl, inr, arith, Option, none, some, [], ◌∷◌, Bool-cases,
}
use bpmnos_engine.Prelude.Int.{ℤ, pos}
use bpmnos_engine.Utility.Expired.{weak_ptr}
use bpmnos_engine.Utility.AutoList.{emplace_back}
use bpmnos_engine.Values.Number.{has_value, number_eq}
use bpmnos_engine.Engine.World.{TokenState, ready_state, Node, World, put_token}
use bpmnos_engine.Engine.Tokens.{update, updated, request_decision, notify_held}
use bpmnos_engine.Engine.Performer.{
  in_sequential_adhoc, get_sequential_performer_token, request_entry, await_entry_at,
  await_entry_event, set_pending,
}
use bpmnos_engine.Engine.Expressions.{Expressions, add_to_objective}
use bpmnos_engine.Engine.MultiInstance.{make_ready}
use bpmnos_engine.Engine.Continuation.{Ends, ended, thrown, Ends-if, Ends->>=, Ends-map, Ends-ok}

-- Nothing has changed about the instances of multi-instance activities.
pub record Same (w v : World) : Type 0 where
  pub at_activity : v.tokens_at_activity_instance ≡ w.tokens_at_activity_instance
  pub at_instance : v.token_at_multi_instance_activity ≡ w.token_at_multi_instance_activity
  pub awaiting :
      v.token_awaiting_multi_instance_completion ≡ w.token_awaiting_multi_instance_completion
  pub later : w.next ≤ v.next

pub Same-trans : (u v w : World) → Same u v → Same v w → Same u w
Same-trans u v w a b = record {
  at_activity = b.at_activity ∙ a.at_activity;
  at_instance = b.at_instance ∙ a.at_instance;
  awaiting = b.awaiting ∙ a.awaiting;
  later = omega (arith, a.later, b.later);
}

pub Same-refl : (w : World) → Same w w
Same-refl w = record {
  at_activity = refl;
  at_instance = refl;
  awaiting = refl;
  later = omega arith;
}

pub add_to_objective-Same : (change : ℤ) (w : World) → Same w (add_to_objective change w)
unfolding add_to_objective
add_to_objective-Same change w = elim (Bool-cases (number_eq change (pos 0))) [
  | inl e ↦ rw e (Same-refl w)
  | inr e ↦
      rw e (record { at_activity = refl; at_instance = refl; awaiting = refl; later = omega arith })
]

module _ (node_of : ℕ → Node) where
  pub update-Same :
      (t : ℕ) (state : TokenState) (w : World) → Ends (Same w) (update node_of t state w)
  unfolding update
  update-Same t state w =
      Ends->>= _ (updated (node_of (w.token t).node) w.current_time state (w.token t)) (λ token r.
        ended _
          (record { at_activity = refl; at_instance = refl; awaiting = refl; later = omega arith }))

  pub notify_held-Same : (o : Option ℕ) (w u : World) → Same w u → Ends (Same w) (notify_held o u)
  notify_held-Same none w u s = thrown _
  notify_held-Same (some r) w u s = ended _ (record {
    at_activity = s.at_activity;
    at_instance = s.at_instance;
    awaiting = s.awaiting;
    later = s.later;
  })

  pub request_entry-Same : (t : ℕ) (w : World) → Ends (Same w) (request_entry node_of t w)
  unfolding request_entry request_decision
  request_entry-Same t w =
      notify_held-Same _ w _
        (record { at_activity = refl; at_instance = refl; awaiting = refl; later = omega arith })

  pub await_entry_event-Same : (t : ℕ) (w : World) → Ends (Same w) (await_entry_event node_of t w)
  unfolding await_entry_event await_entry_at
  await_entry_event-Same t w =
      Ends-if _ (in_sequential_adhoc node_of w t)
        (λ e. Ends->>= _ (get_sequential_performer_token node_of t w) (λ p r.
          let v = put_token w p (
            set_pending (w.token p)
              (emplace_back w.alive (w.token p).pending_sequential_entries (weak_ptr t ∷ []))) in
          let s : Same w v = record {
            at_activity = refl;
            at_instance = refl;
            awaiting = refl;
            later = omega arith;
          } in
          Ends-if _ (has_value (v.token p).performing) (λ e. ended _ s)
            (λ e. Ends-map _ _ (request_entry-Same t v) (λ u z. Same-trans w v u s z))))
        (λ e. request_entry-Same t w)

  module _ (x : Expressions) where
    pub make_ready-Same : (t : ℕ) (w : World) → Ends (Same w) (make_ready node_of x t w)
    unfolding make_ready
    make_ready-Same t w = Ends->>= _ (update node_of t ready_state w) (λ v r.
        Ends-map _ _ (await_entry_event-Same t v)
          (λ u z. Same-trans w v u (Ends-ok _ (update-Same t ready_state w) r) z))
