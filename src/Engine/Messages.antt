-- ===== src/Engine/Messages.antt =====
-- execution/engine/src: messages from their creation to their delivery or withdrawal; Message.cpp, `sendMessage`
-- of Token.cpp, `registerRecipient` and `withdrawMessages` of StateMachine.cpp, and the delivery in Engine.cpp.
-- A message is owned by the vector `messages` alone, so that erasing it there destroys it; what remains readable
-- through a pointer that a function holds is read before.
pub mod Lifecycle
pub mod Removal
pub mod Delivery
use Prim.Native.String.{String}
use bpmnos_engine.Prelude.{
  ℕ, suc, Bool, true, false, ◌&&◌, Option, none, some, List, [], ◌∷◌, ◌++◌, ◌==◌, if◌then◌else◌,
  Result, ok, throw, ◌>>=◌, failed_assert, undefined_behaviour, logic_error, get_elem?, set,
}
use bpmnos_engine.Prelude.Int.{ℤ}
use bpmnos_engine.Utility.Expired.{weak_ptr, Tuple}
use bpmnos_engine.Utility.AutoList.{emplace_back}
use bpmnos_engine.Utility.Erase.{erase_ptr}
use bpmnos_engine.Values.Number.{Value, number_eq}
use bpmnos_engine.Engine.World.{
  MessageState, message_created, message_delivered, message_withdrawn, Status, Token, Message,
  Content, Node, send_task_node, advance_to_completed, trigger_instance_by_message, message_notice,
  Map, World, put, put_token, put_message, destroy, notify, enqueue_for_token, enqueue_always,
}
use bpmnos_engine.Engine.Tokens.{set_timestamp, put_number}
use bpmnos_engine.Engine.Performer.{reset_request, lock}
use bpmnos_engine.Engine.Headers.{get_sender_header}

-- `BPMNOS::Model::MessageDefinition`, of a node.
pub record MessageDefinition : Type 0 where
  pub name : ℤ
  pub header : List String

abbrev pub set_content : Token → Option Content → Token
set_content token c = record token { content = c }

abbrev pub set_state : Message → MessageState → Message
set_state message s = record message { state = s }

-- `header[Index::Recipient]`, of a header beginning with the sender and the recipient.
abbrev pub recipient_of : List Value → Result Value
recipient_of (sender ∷ recipient ∷ rest) = ok recipient
recipient_of _ = throw undefined_behaviour

abbrev pub if_some {ℓ κ} : {A : Type ℓ} {B : Type κ} → Option A → B → (A → B) → B
if_some none b f = b
if_some (some a) b f = f a

abbrev pub find_machine : Map ℤ ℕ → ℤ → Option ℕ
find_machine [] id = none
find_machine ((key, m) ∷ archive) id = if number_eq key id then some m else find_machine archive id

abbrev pub tuples_of : Option (List Tuple) → List Tuple
tuples_of none = []
tuples_of (some ts) = ts

-- `unsent[id].emplace_back(message)`
unfoldable pub add_unsent : ℤ → ℕ → World → World
unfolding emplace_back
add_unsent id m w = record w {
  unsent =
      put_number w.unsent id
        (some (emplace_back w.alive (tuples_of (w.unsent id)) (weak_ptr m ∷ [])));
}

-- `inbox[stateMachine].emplace_back(message)`
unfoldable pub add_inbox : ℕ → ℕ → World → World
unfolding emplace_back
add_inbox machine m w = record w {
  inbox =
      put w.inbox machine
        (some (emplace_back w.alive (tuples_of (w.inbox machine)) (weak_ptr m ∷ [])));
}

-- `outbox[node].emplace_back(message)`
unfoldable pub add_outbox : ℕ → ℕ → World → World
unfolding emplace_back
add_outbox node m w = record w {
  outbox = put w.outbox node (emplace_back w.alive (w.outbox node) (weak_ptr m ∷ []));
}

-- What `sendMessage` does with a message to a recipient: the three branches on what the archive holds.
unfoldable pub route_to : ℤ → ℕ → ℕ → World → World
unfolding add_unsent add_inbox add_outbox
route_to id node m w =
    if_some (find_machine w.archive id) (add_unsent id m w)
      (λ machine. if w.alive machine then add_outbox node m (add_inbox machine m w) else w)

unfoldable pub route : ℕ → World → World
unfolding route_to add_outbox
route m w =
    if_some (w.message m).recipient (add_outbox (w.message m).origin m w)
      (λ id. route_to id (w.message m).origin m w)

module _ (node_of : ℕ → Node) (definition_of : ℕ → MessageDefinition)
    (get_header_value : World → ℕ → String → Value) (get_instance_id : World → ℕ → ℤ)
    (processes_triggered_by_message : ℤ → Option ℕ) where
  -- `Message::Message(Token*)`
  unfoldable pub new_message : ℕ → World → Result Message
  unfolding get_sender_header
  new_message t w =
      let token = w.token t in
      let header =
        get_sender_header (get_header_value w t) (get_instance_id w t)
          (definition_of token.node).header in
      recipient_of header >>= λ recipient. if_some token.content (throw failed_assert) (λ content.
        ok (record {
          state = message_created;
          origin = token.node;
          waiting_token = if (node_of token.node).represents send_task_node then some t else none;
          recipient = recipient;
          header = header;
          content = content;
        }))

  -- The message is allocated and appended to `messages`.
  unfoldable pub add_message : Message → World → World
  add_message message w = record w {
    message = put w.message w.next message;
    alive = put w.alive w.next true;
    next = suc w.next;
    messages = w.messages ++ w.next ∷ [];
  }

  unfoldable pub await_delivery : ℕ → ℕ → World → World
  await_delivery t m w =
      if (node_of (w.token t).node).represents send_task_node
      then record w { message_awaiting_delivery = put w.message_awaiting_delivery t (some m) }
      else w

  -- A message instantiating processes is consumed by a command of its own.
  unfoldable pub trigger : ℤ → ℕ → World → World
  trigger name m w =
      if_some (processes_triggered_by_message name) w
        (λ process. enqueue_always w (trigger_instance_by_message process m))

  unfoldable pub send_message : ℕ → World → Result World
  unfolding new_message add_message route await_delivery trigger
  send_message t w = new_message t w >>= λ message.
      let m = w.next in
      let sent = add_message message w in
      let routed = route m (put_token sent t (set_content (sent.token t) none)) in
      ok (
        trigger (definition_of (w.token t).node).name m
          (notify (await_delivery t m routed) (message_notice m message_created)))

-- A message of the list that has not expired becomes one of the inbox of the state machine and of the outbox.
abbrev pub receive : Option ℕ → ℕ → World → World
receive none machine w = w
receive (some m) machine w = add_outbox (w.message m).origin m (add_inbox machine m w)

unfoldable pub receive_unsent : ℕ → List Tuple → World → World
unfolding add_inbox add_outbox
receive_unsent machine [] w = w
receive_unsent machine (e ∷ es) w = receive_unsent machine es (receive (lock w e) machine w)

-- `StateMachine::registerRecipient`, of the state machine of the instance.
unfoldable pub register_recipient : ℕ → ℤ → World → World
unfolding receive_unsent
register_recipient machine id w =
    if_some (w.unsent id) w (λ es.
      let v = receive_unsent machine es w in record v { unsent = put_number v.unsent id none })

-- The state of a message that leaves the system, and its removal from `messages`.
unfoldable pub remove_message : MessageState → ℕ → World → Result World
unfolding erase_ptr
remove_message state m w =
    let v = notify (put_message w m (set_state (w.message m) state)) (message_notice m state) in
    erase_ptr v.messages m >>= λ messages. ok (destroy (record v { messages = messages }) m)

abbrev pub withdraw : Option ℕ → World → Result World
withdraw none w = ok w
withdraw (some m) w = remove_message message_withdrawn m w

unfoldable pub withdraw_all : List Tuple → World → Result World
unfolding remove_message
withdraw_all [] w = ok w
withdraw_all (e ∷ es) w = withdraw (lock w e) w >>= withdraw_all es

-- `StateMachine::withdrawMessages`
unfoldable pub withdraw_messages : ℕ → World → Result World
unfolding withdraw_all
withdraw_messages machine w =
    if_some (w.inbox machine) (ok w)
      (λ es. withdraw_all es w >>= λ v. ok (record v { inbox = put v.inbox machine none }))

-- The completion of the send task that waits for the delivery.
unfoldable pub complete_send_task : Option ℕ → World → World
complete_send_task none w = w
complete_send_task (some t) w =
    enqueue_for_token
      (record w { message_awaiting_delivery = put w.message_awaiting_delivery t none })
      (advance_to_completed t) t

-- The token that receives a message: the content is held until the operators of the catching node read it.
abbrev pub receiving : Token → ℤ → Content → Token
receiving token now content = record token {
  decision_request = none;
  status = set_timestamp token.status now;
  content = some content;
}

-- `Engine::process(const MessageDeliveryEvent*)`, up to the processing of the commands.
unfoldable pub deliver : ℕ → ℕ → World → Result World
unfolding reset_request remove_message complete_send_task
deliver t m w =
    let v = reset_request t w in
    let received = put_token v t (receiving (v.token t) v.current_time (w.message m).content) in
    if w.alive t && w.alive m
    then (remove_message message_delivered m received >>= λ u. ok (
        enqueue_for_token (complete_send_task (w.message m).waiting_token u)
          (advance_to_completed t) t))
    else throw failed_assert

-- `Engine::triggerInstanceByMessage`, the instantiation being a parameter of it.
unfoldable pub trigger_by_message :
    (ℕ → Content → World → Result World) → ℕ → ℕ → World → Result World
unfolding remove_message complete_send_task
trigger_by_message trigger_instance process m w =
    if w.alive m
    then (trigger_instance process (w.message m).content w >>= λ v.
        remove_message message_delivered m v >>= λ u.
        ok (complete_send_task (w.message m).waiting_token u))
    else ok w
