-- ===== src/Tests/EngineTests.antt =====
-- Runs of the engine's operations.
use Prim.Native.String.{String}
use text.Mathlib.Text.{◌==◌ as str_eq}
use bpmnos_engine.Prelude.{
  ℕ, ◌≡◌, refl, true, false, Option, none, some, [], ◌∷◌, ok, arith, ◌↔◌, if◌then◌else◌, ◌==◌, All,
  ◌++◌, ◌&&◌, not, map,
}
use bpmnos_engine.Prelude.Int.{pos}
use bpmnos_engine.Values.Number.{Value}
use bpmnos_engine.Engine.World.{
  World, busy_state, completed_state, message_withdrawn, create_merged_token, advance_to_entered,
  enqueue_for_machine, enqueue_for_token, put_token,
}
use bpmnos_engine.Engine.Tokens.{updated}
use bpmnos_engine.Engine.Tokens.Time.{UpdatedOr, updated-Updated}
use bpmnos_engine.Engine.Performer.{occupy}
use bpmnos_engine.Engine.Messages.{deliver, withdraw_messages, register_recipient, tuples_of}
use bpmnos_engine.Engine.Messages.Delivery.{Delivered, deliver-Delivered}
use bpmnos_engine.Engine.Messages.Removal.{Removed, IsGone, withdraw_messages-Removed}
use bpmnos_engine.Engine.Messages.Lifecycle.{inbox_of, unsent_to, register_recipient-inbox}
use bpmnos_engine.Engine.Clock.{clock_tick}
use bpmnos_engine.Engine.Clock.Due.{Ticked, clock_tick-Ticked}
use bpmnos_engine.Engine.Gateways.{set_flow, set_arrived, attempt_gateway_activation, merge_at}
use bpmnos_engine.Engine.Gateways.Activation.{parallel_gateway-premature}
use bpmnos_engine.Engine.Statuses.{merge_attribute, merge_timestamp}
use bpmnos_engine.Engine.Statuses.Merged.{
  merge_attribute-IsAgreed, IsLatest, merge_timestamp-IsLatest,
}
use bpmnos_engine.Values.Objects.Merge.Agreement.{IsAgreed}
use bpmnos_engine.Engine.Headers.{matches, conflicting, get_sender_header, get_recipient_header}
use bpmnos_engine.Engine.Headers.Matching.{Agree, matches-Agree, matches-sender_recipient}
use bpmnos_engine.Tests.Worlds.{value_or, a_world, nodes, a_token, tokens}

abbrev delivered : World
delivered = value_or a_world (deliver 2 5 a_world)

deliver_run : deliver 2 5 a_world ≡ ok delivered
unfolding deliver
deliver_run = refl

deliver-Delivered_example : Delivered 2 5 a_world delivered
deliver-Delivered_example = deliver-Delivered 2 5 a_world delivered deliver_run

register_recipient-inbox_example :
    (inbox_of (register_recipient 22 (pos 8) a_world) 22
      ≡ inbox_of a_world 22 ++ unsent_to a_world (pos 8))
    × (unsent_to (register_recipient 22 (pos 8) a_world) (pos 8) ≡ [])
register_recipient-inbox_example =
    register_recipient-inbox 22 (pos 8) a_world ((5, refl), ((12, refl), tt))

abbrev withdrawn : World
withdrawn = value_or a_world (withdraw_messages 22 a_world)

withdraw_run : withdraw_messages 22 a_world ≡ ok withdrawn
unfolding withdraw_messages
withdraw_run = refl

withdraw_messages-Removed_example :
    Removed message_withdrawn a_world withdrawn
    × All (IsGone withdrawn) (tuples_of (a_world.inbox 22))
    × (withdrawn.inbox 22 ≡ none)
withdraw_messages-Removed_example = withdraw_messages-Removed 22 a_world withdrawn withdraw_run

clock_tick-Ticked_example :
    (v : World) × (clock_tick (pos 10) a_world ≡ ok v) × Ticked (pos 10) a_world v
clock_tick-Ticked_example =
    clock_tick-Ticked (pos 10) a_world refl
      ((omega arith, (omega arith, tt)), ((omega arith, tt), (tt, tt)))
      ((2, refl), ((11, refl), ((3, refl), tt)))

abbrev occupied : World
occupied = value_or a_world (occupy nodes 1 2 a_world)

abbrev flows : ℕ → Option ℕ
flows t = if t == 4 then some 50 else if t == 5 then some 51 else some 50

-- Both tokens have come along the sequence flow 50.
abbrev both_on_50 : World
both_on_50 = put_token a_world 3 (set_flow (a_token 21 35 busy_state) (some 50))

parallel_gateway-premature_example :
    (attempt_gateway_activation nodes (λ f. 35) (λ g n. false) 21 35 both_on_50
      ≡ ok (enqueue_for_machine both_on_50 (create_merged_token 21 35) 21))
    × (merge_at nodes 21 35 both_on_50 ≡ (
        let v = set_arrived 21 35 (4 ∷ []) both_on_50 in
        ok
          (enqueue_for_token (put_token v 3 (set_flow (v.token 3) none)) (advance_to_entered 3) 3)))
parallel_gateway-premature_example =
    parallel_gateway-premature nodes (λ f. 35) (λ g n. false) 21 35 3 50 (4 ∷ []) (51 ∷ [])
      both_on_50 refl refl (((λ e. absurd (omega (arith, e))), tt), (tt, tt)) refl
      (refl, (refl, tt)) refl

merge_attribute-IsAgreed_example :
    (merge_attribute none (none ∷ some (pos 4) ∷ some (pos 4) ∷ []) ≡ some (pos 4))
    ↔ IsAgreed (none ∷ some (pos 4) ∷ some (pos 4) ∷ []) (pos 4)
merge_attribute-IsAgreed_example =
    merge_attribute-IsAgreed (none ∷ some (pos 4) ∷ some (pos 4) ∷ []) (pos 4)

latest_run : merge_timestamp (pos 4) (some (pos 4) ∷ some (pos 9) ∷ some (pos 6) ∷ []) ≡ ok (pos 9)
unfolding merge_timestamp
latest_run = refl

merge_timestamp-IsLatest_example :
    IsLatest (pos 4) (some (pos 4) ∷ some (pos 9) ∷ some (pos 6) ∷ []) (pos 9)
merge_timestamp-IsLatest_example =
    merge_timestamp-IsLatest (pos 4) (some (pos 4) ∷ some (pos 9) ∷ some (pos 6) ∷ []) (pos 9)
      latest_run

matches-Agree_example :
    (matches (some (pos 1) ∷ none ∷ []) (some (pos 1) ∷ some (pos 2) ∷ []) ≡ true)
    ↔ Agree (some (pos 1) ∷ none ∷ []) (some (pos 1) ∷ some (pos 2) ∷ [])
matches-Agree_example = matches-Agree (some (pos 1) ∷ none ∷ []) (some (pos 1) ∷ some (pos 2) ∷ [])

-- The sender states the parameter "recipient" and the additional key "order".
abbrev sent : String → Value
sent key =
    if str_eq key "recipient"
    then some (pos 2)
    else if str_eq key "order"
    then some (pos 5)
    else none

matches-sender_recipient_example :
    matches
      (get_sender_header sent (pos 1) ("sender" ∷ "recipient" ∷ "order" ∷ []))
      (get_recipient_header sent (pos 2) ("sender" ∷ "recipient" ∷ "order" ∷ []))
    ≡ (not (conflicting (some (pos 1)) (sent "sender"))
        && (not (conflicting (sent "recipient") (some (pos 2)))
            && matches (map sent ("order" ∷ [])) (map sent ("order" ∷ []))))
matches-sender_recipient_example =
    matches-sender_recipient sent sent (pos 1) (pos 2) ("order" ∷ []) (refl, refl, tt)

updated-Updated_example :
    UpdatedOr
      (nodes 31)
      (pos 9)
      (pos 7)
      completed_state
      (updated (nodes 31) (pos 9) completed_state (tokens 2))
updated-Updated_example = updated-Updated (nodes 31) (pos 9) (pos 7) completed_state (tokens 2) refl
