-- ===== src/Engine/Signals/Broadcast.antt =====
-- execution/engine/src/Engine.cpp: who receives a signal.
use mathlib.Core.Path.{ap₂, subst}
use bpmnos_engine.Prelude.{
  ℕ, ◌≡◌, refl, sym, ap, ◌∙◌, inl, inr, Bool, true, false, Option, none, some, List, [], ◌∷◌, ◌++◌,
  arith, Bool-cases, ok, ◌>>=◌, All, All-map, append_nil, append_assoc,
}
use bpmnos_engine.Prelude.Int.{ℤ}
use bpmnos_engine.Utility.Expired.{weak_ptr, value, Tuple, expired, live}
use bpmnos_engine.Utility.AutoList.{traverse}
use bpmnos_engine.Utility.AutoList.Live.{traverse-eq-live}
use bpmnos_engine.Engine.Tokens.{put_number, put_number_self}
use bpmnos_engine.Engine.World.{
  World, Token, Content, Command, trigger_instance, signal_notice, put_token, notify, completion_of,
  advance_to_completed, enqueue_for_token,
}
use bpmnos_engine.Engine.Performer.{lock}
use bpmnos_engine.Engine.Messages.{set_content}
use bpmnos_engine.Engine.Signals.{
  receive_signal, receive_signals, trigger_process, broadcast_signal,
}

-- A tuple holding a token and nothing else.
abbrev pub HoldsToken : Tuple → Type 0
HoldsToken e = (t : ℕ) × (e ≡ weak_ptr t ∷ [])

-- The commands completing the tokens of the tuples.
abbrev pub completions : World → List Tuple → List Command
completions w [] = []
completions w ((weak_ptr t ∷ rest) ∷ es) = completion_of w t ∷ completions w es
completions w (_ ∷ es) = completions w es

-- The token of the tuple holds the content.
abbrev pub HasContent : Content → World → Tuple → Type 0
HasContent content v e = (t : ℕ) → e ≡ weak_ptr t ∷ [] → (v.token t).content ≡ some content

-- What the loop over the waiting tokens leaves.
record Received (content : Content) (es : List Tuple) (w v : World) : Type 0 where
  commands : v.commands ≡ w.commands ++ completions w es
  contents : All (HasContent content v) es
  kept : (t : ℕ) → (w.token t).content ≡ some content → (v.token t).content ≡ some content
  owner : (t : ℕ) → (v.token t).owner ≡ (w.token t).owner

abbrev received : Content → ℕ → World → World
received content t w =
    enqueue_for_token (put_token w t (set_content (w.token t) (some content)))
      (advance_to_completed t) t

completions-owner :
    (v w : World) (es : List Tuple)
    → ((t : ℕ) → (v.token t).owner ≡ (w.token t).owner)
    → completions v es ≡ completions w es
completions-owner v w [] h = refl
completions-owner v w ((weak_ptr t ∷ rest) ∷ es) h =
    ap₂ (◌∷◌)
      (ap
        (λ m. record {
          call = advance_to_completed t;
          state_machine_ptr = some m;
          token_ptr = some t;
        })
        (h t))
      (completions-owner v w es h)
completions-owner v w ((value x ∷ rest) ∷ es) h = completions-owner v w es h
completions-owner v w ([] ∷ es) h = completions-owner v w es h

same_owner :
    (content : Content) (t q : ℕ) (w : World)
    → ((received content t w).token q).owner ≡ (w.token q).owner
same_owner content t q w = ground arith

keeps :
    (content : Content) (t q : ℕ) (w : World)
    → (w.token q).content ≡ some content
    → ((received content t w).token q).content ≡ some content
keeps content t q w h = ground arith

gets :
    (content : Content) (t : ℕ) (w : World)
    → ((received content t w).token t).content ≡ some content
gets content t w = ground arith

enqueued :
    (content : Content) (t : ℕ) (w : World)
    → (received content t w).commands ≡ w.commands ++ completion_of w t ∷ []
enqueued content t w =
    ap
      (λ m.
        w.commands
        ++ record { call = advance_to_completed t; state_machine_ptr = some m; token_ptr = some t }
          ∷ [])
      (same_owner content t t w)

-- All tokens of the tuples exist.
abbrev AllAlive : (ℕ → Bool) → List Tuple → Type 0
AllAlive alive es = All (λ e. (t : ℕ) × (e ≡ weak_ptr t ∷ []) × (alive t ≡ true)) es

receive_signals-Received :
    (content : Content) (es : List Tuple) (w : World)
    → AllAlive w.alive es
    → (v : World) × (receive_signals content es w ≡ ok v) × Received content es w v
unfolding receive_signals
receive_signals-Received content [] w h = (
  w,
  refl,
  record {
    commands = sym (append_nil w.commands);
    contents = tt;
    kept = λ t k. k;
    owner = λ t. refl;
  },
)
receive_signals-Received content (e ∷ es) w ((t, eq, a), h) =
    let u = received content t w in
    let (v, run, r) = receive_signals-Received content es u h in
    let step : receive_signal content (lock w (weak_ptr t ∷ [])) w ≡ ok u = rw a refl in
    let all : receive_signals content ((weak_ptr t ∷ []) ∷ es) w ≡ ok v =
      ap (λ m. m >>= receive_signals content es) step ∙ run in
    subst
      (λ (x : Tuple).
        (v : World) × (receive_signals content (x ∷ es) w ≡ ok v) × Received content (x ∷ es) w v)
      (sym eq)
      (
        v,
        all,
        record {
          commands =
              r.commands
              ∙ ap (λ c. c ++ completions u es) (enqueued content t w)
              ∙ append_assoc w.commands (completion_of w t ∷ []) (completions u es)
              ∙ ap (λ c. w.commands ++ completion_of w t ∷ c)
                  (completions-owner u w es (λ q. same_owner content t q w));
          contents = (
            (λ q e.
                let same : t ≡ q = cc in
                subst (λ x. (v.token x).content ≡ some content) same (r.kept t (gets content t w))),
            r.contents,
          );
          kept = λ q k. r.kept q (keeps content t q w k);
          owner = λ q. r.owner q ∙ same_owner content t q w;
        },
      )

-- The tuples that the iteration meets.
expired-alive :
    (alive : ℕ → Bool) (t : ℕ) → expired alive (weak_ptr t ∷ []) ≡ false → alive t ≡ true
unfolding expired
expired-alive alive t x = ground arith

traverse-AllAlive :
    (alive : ℕ → Bool) (es : List Tuple) → All HoldsToken es → AllAlive alive (traverse alive es)
traverse-AllAlive alive [] h = unfold traverse in tt
traverse-AllAlive alive (e ∷ es) ((t, eq), h) = elim (Bool-cases (expired alive e)) [
  | inl x ↦ subst (AllAlive alive) (sym (dropped x)) (traverse-AllAlive alive es h)
  | inr x ↦ subst (AllAlive alive) (sym (stays x)) ((t, eq, living x), traverse-AllAlive alive es h)
]
  where
    dropped : expired alive e ≡ true → traverse alive (e ∷ es) ≡ traverse alive es
    dropped x = unfold traverse in rw x refl

    stays : expired alive e ≡ false → traverse alive (e ∷ es) ≡ e ∷ traverse alive es
    stays x = unfold traverse in rw x refl

    living : expired alive e ≡ false → alive t ≡ true
    living x = expired-alive alive t (sym (ap (expired alive) eq) ∙ x)

-- The command that instantiates the process which the signal triggers, if there is one.
abbrev pub instantiation : Content → Option ℕ → List Command
instantiation content none = []
instantiation content (some process) =
    record { call = trigger_instance process content; state_machine_ptr = none; token_ptr = none }
    ∷ []

-- What the broadcast of a signal promises.
pub record Broadcast (content : Content) (process : Option ℕ) (w v : World) : Type 0 where
  pub commands :
      v.commands
      ≡ (w.commands ++ completions w (live w.alive (w.tokens_awaiting_signal content.name)))
        ++ instantiation content process
  pub contents : All (HasContent content v) (live w.alive (w.tokens_awaiting_signal content.name))
  pub waiting : v.tokens_awaiting_signal content.name ≡ []

triggered :
    (content : Content) (o : Option ℕ) (u : World)
    → ((trigger_process content o u).commands ≡ u.commands ++ instantiation content o)
      × ((trigger_process content o u).token ≡ u.token)
      × ((trigger_process content o u).tokens_awaiting_signal ≡ u.tokens_awaiting_signal)
triggered content none u = (sym (append_nil u.commands), refl, refl)
triggered content (some process) u = (refl, refl, refl)

contents_kept :
    (content : Content) (v u : World) (es : List Tuple)
    → v.token ≡ u.token
    → All (HasContent content u) es
    → All (HasContent content v) es
contents_kept content v u es e h =
    All-map (HasContent content u) (HasContent content v) es
      (λ x k t q. ap (λ (f : ℕ → Token). (f t).content) e ∙ k t q) h

-- The broadcast of a signal succeeds: every token that awaits a signal of its name and still exists holds the content
-- of the signal, the commands enqueued complete these tokens, in the order in which they came to wait, and then
-- instantiate the process that the signal triggers, if there is one, and no token awaits the signal any more. Each
-- tuple of the container holds one token.
pub broadcast_signal-Broadcast :
    (processes_triggered_by_signal : ℤ → Option ℕ) (content : Content) (w : World)
    → All HoldsToken (w.tokens_awaiting_signal content.name)
    → (v : World) × (broadcast_signal processes_triggered_by_signal content w ≡ ok v)
      × Broadcast content (processes_triggered_by_signal content.name) w v
unfolding broadcast_signal
broadcast_signal-Broadcast processes content w h =
    let es = w.tokens_awaiting_signal content.name in
    let start = notify w (signal_notice content) in
    let living = traverse-AllAlive w.alive es h in
    let (u, run, r) = receive_signals-Received content (traverse w.alive es) start living in
    let cleared : World = record u {
      tokens_awaiting_signal = put_number u.tokens_awaiting_signal content.name [];
    } in
    let o = processes content.name in
    let (cs, ts, ws) = triggered content o cleared in
    let same : traverse w.alive es ≡ live w.alive es = traverse-eq-live w.alive es in
    (
      trigger_process content o cleared,
      ap
          (λ m. m >>= λ u. ok (
            trigger_process content o (record u {
              tokens_awaiting_signal = put_number u.tokens_awaiting_signal content.name [];
            })))
          run,
      record {
        commands =
            cs
            ∙ ap (λ c. c ++ instantiation content o)
                (r.commands
                  ∙ ap (λ l. w.commands ++ l)
                      (completions-owner start w (traverse w.alive es) (λ t. refl))
                  ∙ ap (λ l. w.commands ++ completions w l) same);
        contents = subst (All (HasContent content (trigger_process content o cleared))) same (
            contents_kept content (trigger_process content o cleared) u (traverse w.alive es) ts
              r.contents);
        waiting =
            ap (λ (f : ℤ → List Tuple). f content.name) ws
            ∙ put_number_self u.tokens_awaiting_signal content.name [];
      },
    )
