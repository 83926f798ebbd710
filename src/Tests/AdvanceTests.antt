-- ===== src/Tests/AdvanceTests.antt =====
-- Runs of the functions by which tokens advance.
use bpmnos_engine.Prelude.{◌≡◌, refl, true, none, some, [], ◌∷◌, ◌==◌}
use bpmnos_engine.Engine.World.{
  World, Call, done_state, entered_state, put_token, enqueue_for_token,
}
use bpmnos_engine.Engine.Dispatch.{call, process_all}
use bpmnos_engine.Engine.Advance.Departing.{choose_flow}
use bpmnos_engine.Engine.Advance.Flows.{IsChoice, choose_flow-IsChoice}
use bpmnos_engine.Tests.Worlds.{value_or, a_world, a_token}
use bpmnos_engine.Tests.Processes.{expressions, model}

-- The token 2 is at the task 36.
abbrev task_world : World
task_world = put_token a_world 2 (a_token 21 36 entered_state)

abbrev busy : World
busy = value_or a_world (call model expressions 20 9 (Call.advance_to_busy 2) task_world)

choose_flow-IsChoice_example :
    IsChoice
      (λ flow. some (flow == 53))
      none
      (52 ∷ 53 ∷ [])
      (choose_flow (λ flow. some (flow == 53)) none (52 ∷ 53 ∷ []))
choose_flow-IsChoice_example = choose_flow-IsChoice (λ flow. some (flow == 53)) none (52 ∷ 53 ∷ [])

-- The token 2 enters the exclusive gateway 33, leaves it along the flow 53, and is done at the end event 34.
abbrev gateway_world : World
gateway_world =
    enqueue_for_token
      (put_token (record a_world { alive = λ p. true }) 2 (a_token 21 33 entered_state))
      (Call.advance_to_entered 2) 2

gateway_run :
    ((value_or a_world (process_all model expressions 20 9 [] 9 gateway_world)).token 2).state
    ≡ done_state
unfolding process_all
gateway_run = refl
