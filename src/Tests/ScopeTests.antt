-- ===== src/Tests/ScopeTests.antt =====
-- Runs of the functions by which scopes end, and tokens are split, caught and destroyed.
use bpmnos_engine.Prelude.{
  ℕ, false, ◌≡◌, refl, none, some, List, [], ◌∷◌, ok, arith, ◌==◌, if◌then◌else◌,
}
use bpmnos_engine.Engine.World.{
  World, Token, StateMachine, Call, Command, arrived_state, busy_state, done_state, failed_state,
  entered_state, completed_state, put, put_token,
}
use bpmnos_engine.Engine.Gateways.{handle_diverging_gateway}
use bpmnos_engine.Engine.Gateways.Splits.{Split, taken, handle_diverging_gateway-Split}
use bpmnos_engine.Engine.Failures.{handle_failure}
use bpmnos_engine.Engine.Failures.Handled.{Handled}
use bpmnos_engine.Engine.Shutdown.{shutdown}
use bpmnos_engine.Engine.Shutdown.Followed.{Followed}
use bpmnos_engine.Engine.Destruction.{destroy_token}
use bpmnos_engine.Engine.Destruction.Destroyed.{destroy_token-stale}
use bpmnos_engine.Engine.MultiInstance.{create_multi_instance_activity_tokens}
use bpmnos_engine.Engine.MultiInstance.Chain.{
  Created, create_multi_instance_activity_tokens-Created,
}
use bpmnos_engine.Engine.Withdrawal.{withdraw}
use bpmnos_engine.Engine.Withdrawal.Levels.{IsAbove, IsOver, IsNested, put-all}
use bpmnos_engine.Engine.Withdrawal.Depth.{withdraw-depth}
use bpmnos_engine.Tests.Worlds.{value_or, a_world, a_token}
use bpmnos_engine.Tests.Processes.{expressions, process_nodes}

-- The token 2 is at the inclusive gateway 35.
abbrev at_inclusive : World
at_inclusive = put_token a_world 2 (a_token 21 35 entered_state)

abbrev split : World
split = value_or a_world (handle_diverging_gateway process_nodes expressions.gate 21 2 at_inclusive)

split_run : handle_diverging_gateway process_nodes expressions.gate 21 2 at_inclusive ≡ ok split
unfolding handle_diverging_gateway
split_run = refl

handle_diverging_gateway-Split_example :
    (flows : List ℕ) × (taken (expressions.gate at_inclusive 2) (process_nodes 35) ≡ ok flows)
    × Split 21 2 flows at_inclusive split
handle_diverging_gateway-Split_example =
    handle_diverging_gateway-Split process_nodes expressions.gate 21 2 at_inclusive split
      (omega arith) refl split_run

-- The token 2 has failed at the task 36, and the token 3 waits at its boundary event 38.
abbrev failed_world : World
failed_world =
    record (put_token (put_token a_world 2 (a_token 21 36 failed_state)) 3
      (a_token 21 38 busy_state)) {
        tokens_awaiting_boundary_event = λ t. if t == 2 then 3 ∷ [] else [];
        token_associated_to_boundary_event_token = λ t. some 2;
      }

abbrev handled : World
handled =
    value_or a_world (handle_failure process_nodes expressions (λ flow. 33) 9 21 2 failed_world)

-- The only token of the subprocess 39 is done.
abbrev ended_world : World
ended_world =
    record (put_token (put_token a_world 2 (a_token 21 34 done_state)) 1
      (record (a_token 20 39 busy_state) { owned = some 21 })) {
        machine =
            put a_world.machine 21
              (record (a_world.machine 21) { tokens = 2 ∷ []; scope = some 39 });
      }

abbrev after_shutdown : World
after_shutdown = value_or a_world (shutdown process_nodes expressions 9 21 ended_world)

-- The token 3 waits for the completion of the instance of the token 2.
abbrev instance_world : World
instance_world = record (put_token a_world 2 (a_token 21 37 completed_state)) {
  token_awaiting_multi_instance_completion = λ t. if t == 2 then some 3 else none;
}

abbrev destroyed : World
destroyed = value_or a_world (destroy_token process_nodes 2 instance_world)

destroy_run : destroy_token process_nodes 2 instance_world ≡ ok destroyed
unfolding destroy_token
destroy_run = refl

destroy_token-stale_example :
    destroyed.token_awaiting_multi_instance_completion 2
    ≡ instance_world.token_awaiting_multi_instance_completion 2
destroy_token-stale_example =
    destroy_token-stale process_nodes 2 instance_world destroyed refl destroy_run

abbrev deletion : Command
deletion = record {
  call = Call.delete_tokens_awaiting_boundary_event 21 2;
  state_machine_ptr = some 21;
  token_ptr = some 2;
}

-- The activity 37 has two sequential instances.
abbrev before_instances : World
before_instances = put_token a_world 2 (a_token 21 37 arrived_state)

abbrev with_instances : World
with_instances =
    value_or a_world
      (create_multi_instance_activity_tokens process_nodes expressions 21 2 before_instances)

instances_run :
    create_multi_instance_activity_tokens process_nodes expressions 21 2 before_instances
    ≡ ok with_instances
unfolding create_multi_instance_activity_tokens
instances_run = refl

create_multi_instance_activity_tokens-Created_example :
    Created process_nodes expressions 2 before_instances with_instances
create_multi_instance_activity_tokens-Created_example =
    create_multi_instance_activity_tokens-Created process_nodes expressions 21 2 before_instances
      with_instances instances_run

abbrev no_tokens : StateMachine
no_tokens = record {
  tokens = [];
  parent_token = none;
  instance_id = none;
  scope = none;
  interrupting_event_sub_process = none;
  pending_event_sub_processes = [];
  non_interrupting_event_sub_processes = [];
  compensable_sub_processes = [];
  compensation_tokens = [];
  compensation_event_sub_processes = [];
}

abbrev inner_machine : StateMachine
inner_machine = record no_tokens { tokens = 2 ∷ 3 ∷ []; parent_token = some 1; scope = some 39 }

abbrev outer_token : Token
outer_token = record (a_token 20 39 busy_state) { owned = some 21 }

abbrev inner_tokens : ℕ → Token
inner_tokens t = a_token 21 36 busy_state

-- The token 1 at the subprocess 39, within which the tokens 2 and 3 are.
abbrev nested_world : World
nested_world = record a_world {
  token = put inner_tokens 1 outer_token;
  machine = put (λ m. no_tokens) 21 inner_machine;
}

abbrev height : ℕ → ℕ
height p = if p == 1 then 2 else if p == 21 then 1 else 0

no_tokens-IsAbove : (m : ℕ) → IsAbove height m no_tokens
no_tokens-IsAbove m = record {
  tokens = tt;
  compensations = tt;
  activities = tt;
  pending = tt;
  running = tt;
  interrupting = tt;
}

nested_world-IsNested : IsNested height nested_world
nested_world-IsNested = record {
  owned =
      put-all (λ t (a : Token). IsOver height t a.owned) inner_tokens 1 outer_token (λ q. tt)
        (omega arith);
  within =
      put-all (IsAbove height) (λ m. no_tokens) 21 inner_machine no_tokens-IsAbove
        (record {
          tokens = (omega arith, (omega arith, tt));
          compensations = tt;
          activities = tt;
          pending = tt;
          running = tt;
          interrupting = tt;
        });
}

withdraw-depth_example :
    withdraw process_nodes 7 1 nested_world ≡ withdraw process_nodes 3 1 nested_world
withdraw-depth_example =
    withdraw-depth height process_nodes 3 4 1 nested_world (omega arith) nested_world-IsNested

-- The withdrawal destroys the tokens within the subprocess.
withdrawal_run : (value_or a_world (withdraw process_nodes 3 1 nested_world)).alive 2 ≡ false
unfolding withdraw
withdrawal_run = refl
