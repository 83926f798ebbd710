-- ===== src/Tests/Worlds.antt =====
-- A small system state for the tests: the tokens 0 and 1 at processes, the tokens 2 to 4 within it, the message 5, and
-- the requests 6 and 7.
use bpmnos_engine.Prelude.{
  ℕ, Bool, true, false, none, some, [], ◌∷◌, ◌==◌, if◌then◌else◌, ltb, Result, ok, throw,
}
use bpmnos_engine.Prelude.Int.{pos}
use bpmnos_engine.Utility.Expired.{weak_ptr}
use bpmnos_engine.Values.Number.{integer}
use bpmnos_engine.Values.Schema.{value_type}
use bpmnos_engine.Values.Layout.{single}
use bpmnos_engine.Values.Objects.{Object}
use bpmnos_engine.Engine.World.{
  TokenState, ready_state, waiting_state, message_created, entry_request, Status, Content, Token,
  StateMachine, Message, NodeType, flow_node, activity_node, sequential_adhoc_subprocess_node,
  parallel_gateway_node, Node, World,
}

abbrev pub value_or {ℓ} : {A : Type ℓ} → A → Result A → A
value_or a (ok b) = b
value_or a (throw e) = a

abbrev pub an_object : Object
an_object = record { layout = single (value_type integer); values = some (pos 3) ∷ [] }

abbrev pub a_content : Content
a_content = record { name = pos 40; object = an_object }

abbrev pub a_status : Status
a_status = record { attributes = some (pos 7) ∷ some (pos 1) ∷ []; objects = [] }

abbrev pub a_token : ℕ → ℕ → TokenState → Token
a_token owner node state = record {
  owner = owner;
  owned = none;
  node = node;
  state = state;
  status = a_status;
  sequence_flow = none;
  decision_request = none;
  content = none;
  performing = none;
  pending_sequential_entries = [];
}

abbrev pub tokens : ℕ → Token
tokens t =
    if ltb t 2
    then record (a_token 20 0 waiting_state) {
      pending_sequential_entries = (weak_ptr 2 ∷ []) ∷ (weak_ptr 3 ∷ []) ∷ [];
    }
    else if t == 2
    then record (a_token 21 31 ready_state) { decision_request = some 6 }
    else if t == 3
    then record (a_token 21 31 ready_state) { decision_request = some 7 }
    else record (a_token 21 35 waiting_state) { sequence_flow = some 50 }

abbrev pub machines : ℕ → StateMachine
machines m =
    if m == 20
    then record {
      tokens = 1 ∷ [];
      parent_token = none;
      instance_id = none;
      scope = none;
      interrupting_event_sub_process = none;
      pending_event_sub_processes = [];
      non_interrupting_event_sub_processes = [];
      compensable_sub_processes = [];
      compensation_tokens = [];
      compensation_event_sub_processes = [];
    }
    else record {
      tokens = 2 ∷ 3 ∷ 4 ∷ [];
      parent_token = some 1;
      instance_id = some (pos 8);
      scope = none;
      interrupting_event_sub_process = none;
      pending_event_sub_processes = [];
      non_interrupting_event_sub_processes = [];
      compensable_sub_processes = [];
      compensation_tokens = [];
      compensation_event_sub_processes = [];
    }

abbrev pub a_message : Message
a_message = record {
  state = message_created;
  origin = 33;
  waiting_token = some 4;
  recipient = some (pos 8);
  header = some (pos 9) ∷ some (pos 8) ∷ [];
  content = a_content;
}

abbrev pub a_world : World
a_world = record {
  alive = λ p. ltb p 10;
  next = 60;
  token = tokens;
  machine = machines;
  message = λ m. a_message;
  request = λ r. record { token = 2; type = entry_request; recipient_header = [] };
  current_time = pos 7;
  objective = pos 0;
  pending_entry_decisions = [];
  pending_choice_decisions = [];
  pending_message_delivery_decisions = [];
  tokens_awaiting_ready_event = [];
  tokens_awaiting_completion_event = [];
  tokens_awaiting_timer =
      (pos 8, weak_ptr 2 ∷ []) ∷ (pos 9, weak_ptr 11 ∷ []) ∷ (pos 12, weak_ptr 3 ∷ []) ∷ [];
  tokens_awaiting_signal = λ name. [];
  tokens_awaiting_condition = λ id. [];
  tokens_awaiting_gateway_activation = λ m. (35, 3 ∷ 4 ∷ []) ∷ [];
  token_at_event_based_gateway = λ t. none;
  tokens_awaiting_event = λ t. [];
  tokens_awaiting_boundary_event = λ t. [];
  token_associated_to_boundary_event_token = λ t. none;
  token_at_multi_instance_activity = λ t. none;
  token_awaiting_multi_instance_completion = λ t. none;
  tokens_at_activity_instance = λ t. none;
  completion_status_at_activity_instance = λ t. none;
  archive = [];
  token_awaiting_compensation_activity = λ t. none;
  token_awaiting_compensation_event_sub_process = λ m. none;
  unsent = λ id. some ((weak_ptr 5 ∷ []) ∷ (weak_ptr 12 ∷ []) ∷ []);
  inbox = λ m. some ((weak_ptr 5 ∷ []) ∷ []);
  outbox = λ node. [];
  message_awaiting_delivery = λ t. none;
  messages = 5 ∷ [];
  instantiation_counter = λ p. 0;
  commands = [];
  notices = [];
}

-- The process 0, a sequential ad-hoc subprocess 30 with the activities 31, and a gateway 35.
abbrev pub is_kind : ℕ → NodeType → Bool
is_kind n flow_node = if n == 0 then false else true
is_kind n activity_node = n == 31
is_kind n sequential_adhoc_subprocess_node = n == 30
is_kind n parallel_gateway_node = n == 35
is_kind n _ = false

abbrev pub nodes : ℕ → Node
nodes n = record {
  represents = is_kind n;
  parent = 30;
  performer = 0;
  incoming = 50 ∷ 51 ∷ [];
  outgoing = 52 ∷ 53 ∷ [];
  default_flow = none;
  attached_to = 0;
  boundary_events = [];
  start_nodes = [];
  is_interrupting = false;
  is_for_compensation = false;
  compensated_by = none;
  start_event = 0;
  event_sub_processes = [];
  activity = none;
  loop_characteristics = none;
}
