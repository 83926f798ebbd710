-- ===== src/Engine/World.antt =====
-- execution/engine/src: the data of Token.h, StateMachine.h, Message.h, SystemState.h and Engine.h. Objects that
-- the program shares by pointers stand in stores, functions from addresses; an address that is not alive names
-- an object that has been destroyed. What the engine reads of a model, which the bpmn++ library builds, is the
-- record `Node` of each node.
use bpmnos_engine.Prelude.{
  ℕ, Bool, Option, none, some, List, [], ◌∷◌, ◌++◌, ◌==◌, if◌then◌else◌, false, ◌≡◌, ◌≢◌, refl, inl,
  inr, arith, Bool-cases,
}
use bpmnos_engine.Prelude.Int.{ℤ}
use bpmnos_engine.Utility.Expired.{Tuple}
use bpmnos_engine.Utility.AutoSet.{Entry}
use bpmnos_engine.Values.Number.{Value}
use bpmnos_engine.Values.Objects.{Object}

-- `Token::State`
pub data TokenState : Type 0 where
  created_state ready_state entered_state busy_state completed_state departed_state : TokenState
  arrived_state waiting_state done_state failed_state failing_state withdrawn_state : TokenState

-- `Message::State`
pub data MessageState : Type 0 where
  message_created message_delivered message_withdrawn : MessageState

pub data RequestType : Type 0 where
  entry_request choice_request message_delivery_request : RequestType

-- `BPMNOS::Status`, the attribute at index 0 being the timestamp. An object is shared, and given with its address.
pub record Status : Type 0 where
  pub attributes : List Value
  pub objects : List (ℕ × Object)

pub record Content : Type 0 where
  pub name : ℤ
  pub object : Object

pub record Token : Type 0 where
  pub owner : ℕ
  pub owned : Option ℕ
  pub node : ℕ
  pub state : TokenState
  pub status : Status
  pub sequence_flow : Option ℕ
  pub decision_request : Option ℕ
  pub content : Option Content
  pub performing : Option ℕ
  pub pending_sequential_entries : List Tuple

pub record StateMachine : Type 0 where
  pub tokens : List ℕ
  pub parent_token : Option ℕ
  pub instance_id : Option ℤ
  pub scope : Option ℕ
  pub interrupting_event_sub_process : Option ℕ
  pub pending_event_sub_processes : List ℕ
  pub non_interrupting_event_sub_processes : List ℕ
  pub compensable_sub_processes : List ℕ
  pub compensation_tokens : List ℕ
  pub compensation_event_sub_processes : List ℕ

pub record Message : Type 0 where
  pub state : MessageState
  pub origin : ℕ
  pub waiting_token : Option ℕ
  pub recipient : Option ℤ
  pub header : List Value
  pub content : Content

pub record DecisionRequest : Type 0 where
  pub token : ℕ
  pub type : RequestType
  pub recipient_header : List Value

-- The kinds of a node that the engine asks for.
pub data NodeType : Type 0 where
  process_node flow_node activity_node task_node send_task_node receive_task_node
        decision_task_node :
      NodeType
  compensate_boundary_event_node compensate_start_event_node event_sub_process_node : NodeType
  error_boundary_event_node error_start_event_node : NodeType
  escalation_boundary_event_node escalation_start_event_node : NodeType
  throw_event_node boundary_event_node sequential_adhoc_subprocess_node : NodeType
  parallel_gateway_node inclusive_gateway_node event_based_gateway_node : NodeType
  gateway_node exclusive_gateway_node sub_process_node adhoc_sub_process_node : NodeType
  catch_event_node untyped_start_event_node typed_start_event_node timer_catch_event_node : NodeType
  signal_catch_event_node conditional_catch_event_node message_catch_event_node : NodeType
  error_end_event_node escalation_throw_event_node signal_throw_event_node : NodeType
  message_throw_event_node compensate_throw_event_node scope_node : NodeType

-- `BPMN::Activity::LoopCharacteristics`
pub data LoopCharacteristics : Type 0 where
  standard multi_instance_sequential multi_instance_parallel : LoopCharacteristics

pub record Node : Type 0 where
  pub represents : NodeType → Bool
  pub parent : ℕ
  pub performer : ℕ
  pub incoming : List ℕ
  pub outgoing : List ℕ
  pub default_flow : Option ℕ
  pub attached_to : ℕ
  pub boundary_events : List ℕ
  pub start_nodes : List ℕ
  pub is_interrupting : Bool
  pub is_for_compensation : Bool
  pub compensated_by : Option ℕ
  pub start_event : ℕ
  pub event_sub_processes : List ℕ
  pub activity : Option ℕ
  pub loop_characteristics : Option LoopCharacteristics

-- A bound member function that the engine is to call.
pub data Call : Type 0 where
  advance_to_ready advance_to_entered advance_to_completed advance_to_failed : ℕ → Call
  advance_to_busy advance_from_completed advance_to_done advance_to_departing : ℕ → Call
  advance_to_arrived terminate update_busy : ℕ → Call
  advance_to_departed : ℕ → ℕ → Call
  create_merged_token : ℕ → ℕ → Call
  run : ℕ → Status → Call
  initiate_event_sub_processes initiate_boundary_events interrupt_activity : ℕ → ℕ → Call
  initiate_boundary_event : ℕ → ℕ → ℕ → Call
  delete_tokens_awaiting_boundary_event handle_diverging_gateway : ℕ → ℕ → Call
  handle_event_based_gateway_activation handle_escalation compensate_activity : ℕ → ℕ → Call
  complete_compensation_activity create_multi_instance_activity_tokens : ℕ → ℕ → Call
  delete_multi_instance_activity_token delete_ad_hoc_sub_process_token : ℕ → ℕ → Call
  create_compensation_token : ℕ → ℕ → Status → Call
  create_compensation_event_sub_process : ℕ → ℕ → Status → ℕ → Call
  delete_non_interrupting_event_sub_process delete_compensation_event_sub_process : ℕ → ℕ → Call
  shutdown delete_instance : ℕ → Call
  update_failed : ℕ → Call
  handle_failure : ℕ → ℕ → Call
  broadcast_signal : Content → Call
  trigger_instance : ℕ → Content → Call
  trigger_instance_by_message : ℕ → ℕ → Call

-- `Engine::Command`
pub record Command : Type 0 where
  pub call : Call
  pub state_machine_ptr : Option ℕ
  pub token_ptr : Option ℕ

-- What the observers are told.
pub data Notice : Type 0 where
  token_notice : ℕ → TokenState → Notice
  message_notice : ℕ → MessageState → Notice
  request_notice : ℕ → Notice
  performer_notice : ℕ → Option ℕ → Notice
  signal_notice : Content → Notice
  timer_notice : ℕ → Notice
  objective_notice : ℤ → ℤ → Notice
  data_notice : ℕ → Notice

-- A map is the list of its pairs.
abbrev pub Map : Type 0 → Type 0 → Type 0
Map K A = List (K × A)

-- The engine and its system state.
pub record World : Type 0 where
  pub alive : ℕ → Bool
  pub next : ℕ
  pub token : ℕ → Token
  pub machine : ℕ → StateMachine
  pub message : ℕ → Message
  pub request : ℕ → DecisionRequest
  pub current_time : ℤ
  pub objective : ℤ
  pub pending_entry_decisions : List Tuple
  pub pending_choice_decisions : List Tuple
  pub pending_message_delivery_decisions : List Tuple
  pub tokens_awaiting_ready_event : List Tuple
  pub tokens_awaiting_completion_event : List Entry
  pub tokens_awaiting_timer : List Entry
  pub tokens_awaiting_signal : ℤ → List Tuple
  pub tokens_awaiting_condition : ℤ → List Tuple
  pub tokens_awaiting_gateway_activation : ℕ → Map ℕ (List ℕ)
  pub token_at_event_based_gateway : ℕ → Option ℕ
  pub tokens_awaiting_event : ℕ → List ℕ
  pub token_awaiting_compensation_activity : ℕ → Option ℕ
  pub token_awaiting_compensation_event_sub_process : ℕ → Option ℕ
  pub tokens_awaiting_boundary_event : ℕ → List ℕ
  pub token_associated_to_boundary_event_token : ℕ → Option ℕ
  pub token_at_multi_instance_activity : ℕ → Option ℕ
  pub token_awaiting_multi_instance_completion : ℕ → Option ℕ
  pub tokens_at_activity_instance : ℕ → Option (List ℕ)
  pub completion_status_at_activity_instance : ℕ → Option (List Status)
  pub archive : Map ℤ ℕ
  pub unsent : ℤ → Option (List Tuple)
  pub inbox : ℕ → Option (List Tuple)
  pub outbox : ℕ → List Tuple
  pub message_awaiting_delivery : ℕ → Option ℕ
  pub messages : List ℕ
  pub instantiation_counter : ℕ → ℕ
  pub commands : List Command
  pub notices : List Notice

-- Writing to a store.
abbrev pub put {ℓ} : {A : Type ℓ} → (ℕ → A) → ℕ → A → ℕ → A
put store k a x = if k == x then a else store x

pub put_self {ℓ} : {A : Type ℓ} (store : ℕ → A) (k : ℕ) (v : A) → put store k v k ≡ v
put_self store k v = elim (Bool-cases (k == k)) [
  | inl e ↦ rw e refl
  | inr e ↦ absurd (ground arith)
]

pub put_other {ℓ} :
    {A : Type ℓ} (store : ℕ → A) (k l : ℕ) (v : A) → l ≢ k → put store k v l ≡ store l
put_other store k l v n = elim (Bool-cases (k == l)) [
  | inl e ↦ absurd (n (ground arith))
  | inr e ↦ rw e refl
]

abbrev pub put_token : World → ℕ → Token → World
put_token w t a = record w { token = put w.token t a }

abbrev pub put_message : World → ℕ → Message → World
put_message w m a = record w { message = put w.message m a }

-- The last owner of an object lets go of it.
abbrev pub destroy : World → ℕ → World
destroy w p = record w { alive = put w.alive p false }

-- `engine->notify`
abbrev pub notify : World → Notice → World
notify w n = record w { notices = w.notices ++ n ∷ [] }

-- `engine->commands.emplace_back`, of a command with no condition, one for a state machine, and one for a token.
abbrev pub enqueue : World → Command → World
enqueue w c = record w { commands = w.commands ++ c ∷ [] }

abbrev pub enqueue_for_machine : World → Call → ℕ → World
enqueue_for_machine w c m =
    enqueue w (record { call = c; state_machine_ptr = some m; token_ptr = none })

abbrev pub enqueue_for_token : World → Call → ℕ → World
enqueue_for_token w c t =
    enqueue w (record { call = c; state_machine_ptr = some (w.token t).owner; token_ptr = some t })

abbrev pub enqueue_always : World → Call → World
enqueue_always w c = enqueue w (record { call = c; state_machine_ptr = none; token_ptr = none })

-- The command that completes a token.
abbrev pub completion_of : World → ℕ → Command
completion_of w t = record {
  call = advance_to_completed t;
  state_machine_ptr = some (w.token t).owner;
  token_ptr = some t;
}
