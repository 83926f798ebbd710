-- ===== src/Tests/CommandTests.antt =====
-- A run of the processing of commands, with calls of which one enqueues another.
use bpmnos_engine.Prelude.{ℕ, ◌+◌, none, some, List, [], ◌∷◌, Result, ok}
use bpmnos_engine.Engine.World.{
  World, Call, Command, advance_to_entered, advance_to_completed, enqueue_for_token,
}
use bpmnos_engine.Engine.Commands.Settled.{Settled}
use bpmnos_engine.Tests.Worlds.{a_world}

abbrev call_once : Call → World → Result World
call_once (advance_to_entered t) w = ok (enqueue_for_token w (advance_to_completed t) t)
call_once _ w = ok w

-- A call counts for itself and for the call that it enqueues.
abbrev weight : Call → ℕ
weight (advance_to_entered t) = 2
weight _ = 1

abbrev total : List Command → ℕ
total [] = 0
total (c ∷ cs) = weight c.call + total cs

abbrev AnyWorld : World → Type 0
AnyWorld w = Unit

abbrev work : World → ℕ
work w = total w.commands

-- The first command enqueues a third one, and the second is for a token that has been destroyed.
abbrev commanded : World
commanded = record a_world {
  commands =
      record { call = advance_to_entered 2; state_machine_ptr = none; token_ptr = some 2 }
      ∷ record { call = advance_to_completed 11; state_machine_ptr = none; token_ptr = some 11 }
      ∷ [];
}
