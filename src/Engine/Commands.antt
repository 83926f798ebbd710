-- ===== src/Engine/Commands.antt =====
-- execution/engine/src/Engine.cpp: the list of commands and its processing. What a command calls is a function object,
-- hence an argument, and so is the order in which the state machines with waiting gateways are visited.
pub mod Attempts
pub mod Settled
use bpmnos_engine.Prelude.{
  ℕ, zero, suc, Bool, true, false, not, ◌||◌, Option, none, some, List, [], ◌∷◌, if◌then◌else◌,
  Result, ok, ◌>>=◌, throw, undefined_behaviour,
}
use bpmnos_engine.Engine.World.{Node, NodeType, inclusive_gateway_node, Map, World, Call, Command}
use bpmnos_engine.Engine.Gateways.{attempt_gateway_activation}

-- `ptr.has_value() && ptr->expired()`
abbrev pub has_expired : World → Option ℕ → Bool
has_expired w none = false
has_expired w (some p) = not (w.alive p)

abbrev pub set_commands : World → List Command → World
set_commands w commands = record w { commands = commands }

-- The repetition, if the gateways have enqueued commands.
abbrev pub while_commands : List Command → Result World → World → Result World
while_commands [] rest w = ok w
while_commands (c ∷ cs) rest w = rest

-- `Engine::Command::execute`
unfoldable pub execute : (Call → World → Result World) → Command → World → Result World
execute function c w =
    if has_expired w c.token_ptr
    then ok w
    else if has_expired w c.state_machine_ptr
    then ok w
    else function c.call w

module _ (node_of : ℕ → Node) (target : ℕ → ℕ) (is_predecessor : ℕ → ℕ → Bool) where
  -- The waiting gateways of a state machine.
  unfoldable pub attempt_gateways : ℕ → Map ℕ (List ℕ) → World → Result World
  unfolding attempt_gateway_activation
  attempt_gateways m [] w = ok w
  attempt_gateways m ((gateway, waiting) ∷ gateways) w =
      (if (node_of gateway).represents inclusive_gateway_node
        then attempt_gateway_activation node_of target is_predecessor m gateway w
        else ok w)
      >>= attempt_gateways m gateways

  unfoldable pub attempt_machines : List ℕ → World → Result World
  unfolding attempt_gateways
  attempt_machines [] w = ok w
  attempt_machines (m ∷ ms) w =
      attempt_gateways m (w.tokens_awaiting_gateway_activation m) w >>= attempt_machines ms

  module _ (machines : List ℕ) (function : Call → World → Result World) where
    -- The loops of `processCommands`, on the commands in the list: the first is popped and executed; when none is left, the
    -- gateways are checked, and the loop is left if this enqueues nothing.
    unfoldable pub process_next : ℕ → List Command → World → Result World
    unfolding execute attempt_machines
    process_next zero commands w = throw undefined_behaviour
    process_next (suc fuel) (c ∷ cs) w =
        execute function c (set_commands w cs) >>= λ v. process_next fuel v.commands v
    process_next (suc fuel) [] w = attempt_machines machines w >>= λ v.
        while_commands v.commands (process_next fuel v.commands v) v

    -- `Engine::processCommands`
    unfoldable pub process_commands : ℕ → World → Result World
    unfolding process_next
    process_commands fuel w = process_next fuel w.commands w
