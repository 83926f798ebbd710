-- ===== src/Tests/ControlTests.antt =====
-- Runs of the engine's operations on signals, compensation, performers and catchers.
use bpmnos_engine.Prelude.{
  ℕ, ◌≡◌, refl, Bool, true, false, none, some, [], ◌∷◌, ok, arith, ◌==◌, if◌then◌else◌,
}
use bpmnos_engine.Prelude.Int.{pos}
use bpmnos_engine.Utility.Expired.{weak_ptr}
use bpmnos_engine.Engine.World.{World, Node, NodeType, compensate_start_event_node, put_token}
use bpmnos_engine.Engine.Performer.{release, set_performing, set_request}
use bpmnos_engine.Engine.Events.{process_entry}
use bpmnos_engine.Engine.Signals.{broadcast_signal}
use bpmnos_engine.Engine.Signals.Broadcast.{Broadcast, broadcast_signal-Broadcast}
use bpmnos_engine.Engine.Catchers.{select_catcher, Definition}
use bpmnos_engine.Engine.Catchers.Selection.{find_first, or_else, named, unnamed, select_catcher-eq}
use bpmnos_engine.Engine.Compensation.{compensate, create_compensation_event_sub_process}
use bpmnos_engine.Engine.Compensation.Chain.{Compensates, compensate-Compensates}
use bpmnos_engine.Tests.Worlds.{value_or, a_world, nodes, a_status, a_content, tokens}

-- The performer 1 performs the token 4, and the tokens 2 and 3 await entry without a request.
abbrev busy_world : World
busy_world =
    put_token
      (put_token (put_token a_world 1 (set_performing (tokens 1) (some 4))) 2
        (set_request (tokens 2) none))
      3 (set_request (tokens 3) none)

abbrev released : World
released = value_or a_world (release nodes 1 busy_world)

-- The tokens 4 and 11 await the signal 40, and 11 has been destroyed.
abbrev waiting_world : World
waiting_world = record a_world {
  tokens_awaiting_signal = λ name. (weak_ptr 4 ∷ []) ∷ (weak_ptr 11 ∷ []) ∷ [];
}

broadcast_signal-Broadcast_example :
    (v : World) × (broadcast_signal (λ name. some 0) a_content waiting_world ≡ ok v)
    × Broadcast a_content (some 0) waiting_world v
broadcast_signal-Broadcast_example =
    broadcast_signal-Broadcast (λ name. some 0) a_content waiting_world
      ((4, refl), ((11, refl), tt))

-- The candidates 1 to 4: the second catches everything, the third the name 40.
abbrev definitions : ℕ → Definition
definitions n =
    if n == 2
    then some none
    else if n == 3
    then some (some (pos 40))
    else if n == 4
    then some none
    else none

select_catcher-eq_example :
    select_catcher definitions (some a_content) (1 ∷ 2 ∷ 3 ∷ 4 ∷ [])
    ≡ or_else
        (find_first (named definitions (some a_content)) (1 ∷ 2 ∷ 3 ∷ 4 ∷ []))
        (find_first (unnamed definitions (some a_content)) (1 ∷ 2 ∷ 3 ∷ 4 ∷ []))
select_catcher-eq_example = select_catcher-eq definitions (some a_content) (1 ∷ 2 ∷ 3 ∷ 4 ∷ [])

-- The compensations 2 and 3 of the state machine 21, for which the token 4 waits.
abbrev compensable_world : World
compensable_world = record a_world {
  machine = λ m. record {
    tokens = [];
    parent_token = none;
    instance_id = none;
    scope = none;
    interrupting_event_sub_process = none;
    pending_event_sub_processes = [];
    non_interrupting_event_sub_processes = [];
    compensable_sub_processes = [];
    compensation_tokens = 2 ∷ 3 ∷ [];
    compensation_event_sub_processes = [];
  };
}

abbrev compensated : World
compensated = value_or a_world (compensate nodes 21 (2 ∷ 3 ∷ []) 4 compensable_world)

compensate_run : compensate nodes 21 (2 ∷ 3 ∷ []) 4 compensable_world ≡ ok compensated
unfolding compensate
compensate_run = refl

compensate-Compensates_example : Compensates nodes (3 ∷ 2 ∷ []) 4 compensable_world compensated
compensate-Compensates_example =
    compensate-Compensates nodes 21 (2 ∷ 3 ∷ []) 4 compensable_world compensated
      (((λ e. absurd (omega (arith, e))), tt), (tt, tt)) compensate_run

-- The node 36 is the compensate start event of the event subprocess 35.
abbrev start_kind : NodeType → Bool
start_kind compensate_start_event_node = true
start_kind _ = false

abbrev start_nodes : ℕ → Node
start_nodes n =
    if n == 36
    then record (nodes 36) { represents = start_kind }
    else if n == 35
    then record (nodes 35) { start_event = 36 }
    else nodes n

abbrev with_event_sub_process : World
with_event_sub_process =
    value_or a_world (create_compensation_event_sub_process start_nodes 21 35 4 a_status a_world)

-- The entry of the token 2 has been decided, while the token 3 still waits.
abbrev entered : World
entered = value_or a_world (process_entry nodes 2 (some a_status) a_world)
