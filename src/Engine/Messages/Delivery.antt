-- ===== src/Engine/Messages/Delivery.antt =====
-- execution/engine/src/Engine.cpp: the delivery of a message.
use mathlib.Core.Path.{ap₂}
use bpmnos_engine.Prelude.{
  ℕ, ◌≡◌, refl, ap, ◌∙◌, inl, inr, Bool, ◌&&◌, Option, none, some, List, [], ◌∷◌, ◌++◌, arith,
  Bool-cases, Result, ok, ◌>>=◌, >>=-eq-ok, ok-injective, append_assoc,
}
use bpmnos_engine.Prelude.Int.{ℤ}
use bpmnos_engine.Engine.World.{
  message_delivered, World, Message, Content, Command, advance_to_completed, put_token, put_self,
  enqueue_for_token, Token, completion_of,
}
use bpmnos_engine.Engine.Performer.{reset_request, reset_held}
use bpmnos_engine.Engine.Messages.{remove_message, complete_send_task, receiving, deliver}
use bpmnos_engine.Engine.Messages.Removal.{HasLeft, left, left-HasLeft, remove_message-left}

-- The commands of the tokens that a delivery completes: of the send task waiting for it, and of the recipient.
abbrev pub completions : World → Option ℕ → ℕ → List Command
completions w none t = completion_of w t ∷ []
completions w (some s) t = completion_of w s ∷ completion_of w t ∷ []

-- What a delivery promises.
pub record Delivered (t m : ℕ) (w v : World) : Type 0 where
  pub left : HasLeft message_delivered v m
  pub content : (v.token t).content ≡ some (w.message m).content
  pub request : (v.token t).decision_request ≡ none
  pub commands : v.commands ≡ w.commands ++ completions w (w.message m).waiting_token t

-- The state that the functions called by `deliver` leave, the vector of messages apart.
abbrev delivered_to : ℕ → ℕ → List ℕ → World → World
delivered_to t m rest w =
    let v = reset_request t w in
    left message_delivered m rest
      (put_token v t (receiving (v.token t) v.current_time (w.message m).content))

reset_request-frame :
    (t : ℕ) (w : World)
    → ((reset_request t w).commands ≡ w.commands)
      × ((reset_request t w).message ≡ w.message)
      × ((q : ℕ) → ((reset_request t w).token q).owner ≡ (w.token q).owner)
unfolding reset_request
reset_request-frame t w = frame (w.token t).decision_request
  where
    frame :
        (o : Option ℕ)
        → ((reset_held o t w).commands ≡ w.commands)
          × ((reset_held o t w).message ≡ w.message)
          × ((q : ℕ) → ((reset_held o t w).token q).owner ≡ (w.token q).owner)
    frame none = (refl, refl, λ q. refl)
    frame (some r) = (refl, refl, λ q. ground arith)

receiving-owner :
    (v : World) (t : ℕ) (now : ℤ) (c : Content) (q : ℕ)
    → ((put_token v t (receiving (v.token t) now c)).token q).owner ≡ (v.token q).owner
receiving-owner v t now c q = ground arith

completion-same :
    (u w : World) (t : ℕ)
    → (u.token t).owner ≡ (w.token t).owner
    → completion_of u t ≡ completion_of w t
completion-same u w t h =
    ap
      (λ m. record {
        call = advance_to_completed t;
        state_machine_ptr = some m;
        token_ptr = some t;
      })
      h

complete_send_task-commands :
    (o : Option ℕ) (t : ℕ) (w u : World)
    → u.commands ≡ w.commands
    → ((q : ℕ) → (u.token q).owner ≡ (w.token q).owner)
    → (enqueue_for_token (complete_send_task o u) (advance_to_completed t) t).commands
      ≡ w.commands ++ completions w o t
unfolding complete_send_task
complete_send_task-commands none t w u c own =
    ap₂ (λ cs x. cs ++ x ∷ []) c (completion-same u w t (own t))
complete_send_task-commands (some s) t w u c own =
    append_assoc u.commands (completion_of u s ∷ []) (completion_of u t ∷ [])
    ∙ ap (λ cs. cs ++ completion_of u s ∷ completion_of u t ∷ []) c
    ∙ ap₂ (λ x y. w.commands ++ x ∷ y ∷ []) (completion-same u w s (own s))
        (completion-same u w t (own t))

complete_send_task-rest :
    (o : Option ℕ) (t : ℕ) (u : World)
    → ((enqueue_for_token (complete_send_task o u) (advance_to_completed t) t).token ≡ u.token)
      × ((enqueue_for_token (complete_send_task o u) (advance_to_completed t) t).alive ≡ u.alive)
      × ((enqueue_for_token (complete_send_task o u) (advance_to_completed t) t).message
          ≡ u.message)
unfolding complete_send_task
complete_send_task-rest none t u = (refl, refl, refl)
complete_send_task-rest (some s) t u = (refl, refl, refl)

-- The delivery of a message to a token: the message leaves the system as delivered, the token holds its content
-- and awaits no decision any more, and the commands that follow complete first the send task waiting for the
-- delivery, if there is one, and then the token.
pub deliver-Delivered : (t m : ℕ) (w v : World) → deliver t m w ≡ ok v → Delivered t m w v
unfolding deliver
deliver-Delivered t m w v h = elim (Bool-cases (w.alive t && w.alive m)) [
  | inr a ↦ absurd (ground arith)
  | inl a ↦
      let r = reset_request t w in
      let received = put_token r t (receiving (r.token t) r.current_time (w.message m).content) in
      let o = (w.message m).waiting_token in
      let finish : World → Result World =
        λ u. ok (enqueue_for_token (complete_send_task o u) (advance_to_completed t) t) in
      let start : (remove_message message_delivered m received >>= finish) ≡ ok v = ground arith in
      let (u, run, done) = >>=-eq-ok (remove_message message_delivered m received) finish start in
      let (rest, eq) = remove_message-left message_delivered m received u run in
      let (cs, ms, own) = reset_request-frame t w in
      let last : enqueue_for_token (complete_send_task o (left message_delivered m rest received))
            (advance_to_completed t) t
          ≡ v =
        rw eq (ok-injective done) in
      let l = left message_delivered m rest received in
      let (ts, al, me) = complete_send_task-rest o t l in
      let (gone, st) = left-HasLeft message_delivered m rest received in
      let token : l.token t ≡ receiving (r.token t) r.current_time (w.message m).content =
        put_self r.token t (receiving (r.token t) r.current_time (w.message m).content) in
      rw (← last) (record {
        left =
            (ap (λ (f : ℕ → Bool). f m) al ∙ gone, ap (λ (f : ℕ → Message). (f m).state) me ∙ st);
        content = ap (λ (f : ℕ → Token). (f t).content) ts ∙ ap (λ (x : Token). x.content) token;
        request =
            ap (λ (f : ℕ → Token). (f t).decision_request) ts
            ∙ ap (λ (x : Token). x.decision_request) token;
        commands =
            complete_send_task-commands o t w l cs
              (λ q. receiving-owner r t r.current_time (w.message m).content q ∙ own q);
      })
]
