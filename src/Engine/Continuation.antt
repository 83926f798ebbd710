-- ===== src/Engine/Continuation.antt =====
-- execution/engine/src/Token.cpp: how a token that has advanced goes on, by a command for it or by what it awaits.
pub mod Leaving
pub mod Awaiting
pub mod Busy
pub mod Entering
pub mod Completing
pub mod Ending
use mathlib.Core.Path.{subst}
use bpmnos_engine.Prelude.{
  ℕ, ◌++◌, ◌≡◌, refl, ◌⊎◌, Bool, true, false, not, ◌&&◌, ◌||◌, Option, none, some, List, [], ◌∷◌,
  if◌then◌else◌, Result, ok, throw, ◌>>=◌, Error, append_assoc,
}
use bpmnos_engine.Prelude.Int.{ℤ}
use bpmnos_engine.Utility.Expired.{weak_ptr, Tuple}
use bpmnos_engine.Utility.AutoSet.{Entry}
use bpmnos_engine.Engine.World.{
  Status, Node, process_node, activity_node, catch_event_node, throw_event_node, gateway_node,
  sub_process_node, sequential_adhoc_subprocess_node, adhoc_sub_process_node,
  event_based_gateway_node, untyped_start_event_node, typed_start_event_node,
  timer_catch_event_node, signal_catch_event_node, conditional_catch_event_node,
  message_catch_event_node, task_node, Call, Command, World, enqueue, enqueue_for_token,
}
use bpmnos_engine.Engine.Messages.{if_some}
use bpmnos_engine.Engine.Gateways.{find_key}

-- A tuple for the token is in the container.
pub data Waiting (t : ℕ) (tuples : List Tuple) : Type 0 where
  waiting :
      (before : List Tuple) (rest : Tuple) (after : List Tuple)
      → tuples ≡ before ++ (weak_ptr t ∷ rest) ∷ after
      → Waiting t tuples

pub data WaitingUntil (t : ℕ) (entries : List Entry) : Type 0 where
  waiting_until :
      (before : List Entry) (time : ℤ) (after : List Entry)
      → entries ≡ before ++ (time, weak_ptr t ∷ []) ∷ after
      → WaitingUntil t entries

-- A node at which a token that enters, or is busy, does not go on by itself: it is none of the kinds that the functions
-- distinguish.
abbrev pub is_passive_on_entry : Node → Bool
is_passive_on_entry node =
    not (node.represents process_node)
    && not (node.represents activity_node)
    && not (node.represents catch_event_node)
    && not (node.represents throw_event_node)
    && not (node.represents gateway_node)

abbrev pub is_passive : Node → Bool
is_passive node =
    not (node.represents timer_catch_event_node)
    && not (node.represents signal_catch_event_node)
    && not (node.represents conditional_catch_event_node)
    && not (node.represents message_catch_event_node)
    && not (node.represents task_node)

module _ (node_of : ℕ → Node) where
  -- How a token goes on.
  pub data Continues (t : ℕ) (w : World) : Type 0 where
    commanded :
        (before : List Command) (c : Command) (after : List Command)
        → w.commands ≡ before ++ c ∷ after
        → c.token_ptr ≡ some t
        → Continues t w
    running :
        (before after : List Command) (m : ℕ) (status : Status)
        → w.commands
          ≡ before
            ++ (record { call = Call.run m status; state_machine_ptr = some m; token_ptr = none })
              ∷ after
        → (w.token t).owned ≡ some m
        → Continues t w
    awaiting_ready_event : Waiting t w.tokens_awaiting_ready_event → Continues t w
    awaiting_entry : Waiting t w.pending_entry_decisions → Continues t w
    awaiting_performer : (p : ℕ) → Waiting t (w.token p).pending_sequential_entries → Continues t w
    awaiting_choice : Waiting t w.pending_choice_decisions → Continues t w
    awaiting_delivery : Waiting t w.pending_message_delivery_decisions → Continues t w
    awaiting_completion : WaitingUntil t w.tokens_awaiting_completion_event → Continues t w
    awaiting_timer : WaitingUntil t w.tokens_awaiting_timer → Continues t w
    awaiting_signal : (name : ℤ) → Waiting t (w.tokens_awaiting_signal name) → Continues t w
    awaiting_condition : (id : ℤ) → Waiting t (w.tokens_awaiting_condition id) → Continues t w
    awaiting_activation :
        (m gateway : ℕ) (before after : List ℕ)
        → find_key gateway (w.tokens_awaiting_gateway_activation m) ≡ some (before ++ t ∷ after)
        → Continues t w
    awaiting_receipt : (m : ℕ) → w.message_awaiting_delivery t ≡ some m → Continues t w
    awaiting_compensation :
        (p : ℕ)
        → (w.token_awaiting_compensation_activity p ≡ some t)
          ⊎ (w.token_awaiting_compensation_event_sub_process p ≡ some t)
        → Continues t w
    listening_on_entry : is_passive_on_entry (node_of (w.token t).node) ≡ true → Continues t w
    listening : is_passive (node_of (w.token t).node) ≡ true → Continues t w

module _ (node_of : ℕ → Node) where
  -- The last command is for the token.
  pub enqueued-Continues :
      (t : ℕ) (call : Call) (w : World) → Continues node_of t (enqueue_for_token w call t)
  enqueued-Continues t call w = commanded w.commands _ [] refl refl

  -- Further commands do not matter.
  pub enqueue-Continues :
      (t : ℕ) (w : World) (c : Command) → Continues node_of t w → Continues node_of t (enqueue w c)
  enqueue-Continues t w c (commanded before d after eq same) =
      commanded before d (after ++ c ∷ []) (rw eq (append_assoc before (d ∷ after) (c ∷ []))) same
  enqueue-Continues t w c (running before after m status eq same) =
      running before (after ++ c ∷ []) m status (rw eq (append_assoc before (_ ∷ after) (c ∷ [])))
        same
  enqueue-Continues t w c (awaiting_ready_event h) = awaiting_ready_event h
  enqueue-Continues t w c (awaiting_entry h) = awaiting_entry h
  enqueue-Continues t w c (awaiting_performer p h) = awaiting_performer p h
  enqueue-Continues t w c (awaiting_choice h) = awaiting_choice h
  enqueue-Continues t w c (awaiting_delivery h) = awaiting_delivery h
  enqueue-Continues t w c (awaiting_completion h) = awaiting_completion h
  enqueue-Continues t w c (awaiting_timer h) = awaiting_timer h
  enqueue-Continues t w c (awaiting_signal name h) = awaiting_signal name h
  enqueue-Continues t w c (awaiting_condition id h) = awaiting_condition id h
  enqueue-Continues t w c (awaiting_activation m gateway before after h) =
      awaiting_activation m gateway before after h
  enqueue-Continues t w c (awaiting_receipt m h) = awaiting_receipt m h
  enqueue-Continues t w c (awaiting_compensation p h) = awaiting_compensation p h
  enqueue-Continues t w c (listening_on_entry h) = listening_on_entry h
  enqueue-Continues t w c (listening h) = listening h

-- What holds of a result, if it is one.
pub data Ends {ℓ κ} {A : Type ℓ} (P : A → Type κ) : Result A → Type (ℓ ⊔ κ) where
  ended : (a : A) → P a → Ends P (ok a)
  thrown : (e : Error) → Ends P (throw e)

module _ {ℓ κ} {A : Type ℓ} (P : A → Type κ) where
  pub Ends-if :
      (b : Bool) {x y : Result A}
      → (b ≡ true → Ends P x)
      → (b ≡ false → Ends P y)
      → Ends P (if b then x else y)
  Ends-if true f g = f refl
  Ends-if false f g = g refl

  pub Ends->>= {μ} :
      {B : Type μ} (r : Result B) {f : B → Result A}
      → ((b : B) → r ≡ ok b → Ends P (f b))
      → Ends P (r >>= f)
  Ends->>= (ok b) h = h b refl
  Ends->>= (throw e) h = thrown e

  pub Ends-if_some {μ} :
      {B : Type μ} (o : Option B) {r : Result A} {f : B → Result A}
      → (o ≡ none → Ends P r)
      → ((b : B) → o ≡ some b → Ends P (f b))
      → Ends P (if_some o r f)
  Ends-if_some none g h = g refl
  Ends-if_some (some b) g h = h b refl

  pub Ends-all : (r : Result A) → ((a : A) → P a) → Ends P r
  Ends-all (ok a) h = ended a (h a)
  Ends-all (throw e) h = thrown e

  pub both : (b : Bool) {x y : A} → P x → P y → P (if b then x else y)
  both true h k = h
  both false h k = k

  abbrev Holds : Result A → Type κ
  Holds (ok a) = P a
  Holds (throw e) = Unit

  holds : {r : Result A} → Ends P r → Holds r
  holds (ended a p) = p
  holds (thrown e) = tt

  pub Ends-ok : {r : Result A} {a : A} → Ends P r → r ≡ ok a → P a
  Ends-ok h e = subst Holds e (holds h)

pub Ends-map {ℓ κ μ} :
    {A : Type ℓ} (P : A → Type κ) (Q : A → Type μ) {r : Result A}
    → Ends P r
    → ((a : A) → P a → Q a)
    → Ends Q r
Ends-map P Q (ended a p) f = ended a (f a p)
Ends-map P Q (thrown e) f = thrown e
