-- ===== src/Lib.antt =====
-- A verification library of the BPMNOS engine, which executes BPMN process models: a token runs through the nodes of
-- a process, is held in containers of the system state while it awaits something, and is advanced by commands that
-- the engine keeps in a list and executes in turn.
--
-- The parts, and how they correspond to the code:
-- - Prelude: numbers, lists, tests, and `Result`, in which what the code throws, and an assertion that fails, is a
--   value. `undefined_behaviour` stands for what the language leaves undefined.
-- - Utility (execution/utility/src): `erase_ptr` and `erase_pair` of erase.h, and the containers of auto_list.h and
--   auto_set.h, whose tuples hold weak pointers. Iterating over such a container erases the tuples that have expired,
--   so each operation gives the container that it leaves. Which objects are alive is an argument.
-- - Values (model/utility/src): values and numbers (Value.h, Number.h), schemas with `operator==` and `supports`
--   (Schema.cpp), and objects (Object.cpp): layouts, `locate`, `rebuild`, `widen`, `correspond`, `resize`, `merge`.
--   Strings are represented by numbers (StringRegistry.cpp); what other threads register between the two locks of a
--   registration is an argument.
-- - Engine/World (execution/engine/src, Token.h, StateMachine.h, Message.h, SystemState.h, Engine.h): the state.
--   Objects that the program shares stand in stores, from addresses; `alive` says which of them exist.
-- - Engine/Tokens, Engine/Performer (Token.cpp): `update`, the functions by which a token comes to await something,
--   and the sequential performer of ad-hoc subprocesses, which performs one activity at a time.
-- - Engine/Headers, Engine/Messages (Message.cpp, MessageDefinition.cpp, Token.cpp, StateMachine.cpp, Engine.cpp):
--   the headers by which messages are matched, and the way of a message: `sendMessage` puts it into the inbox of its
--   recipient or lets it wait for the recipient, `registerRecipient` receives what has waited, `withdrawMessages`
--   withdraws what can no longer be received, and the delivery event hands the content to the waiting token.
-- - Engine/Statuses (Token.h): `mergeStatus`, of tokens that meet at a join.
-- - Engine/Gateways (StateMachine.cpp): `attemptGatewayActivation`, `createMergedToken`, `createTokenCopies` and
--   `handleDivergingGateway`.
-- - Engine/Catchers (StateMachine.cpp): `selectCatcher`, which finds the event that catches an error or escalation.
-- - Engine/Compensation (StateMachine.cpp): `compensate`, which has compensations made one after the other, and the
--   functions that create and advance the tokens of compensations.
-- - Engine/Expressions (Token.cpp, Engine.cpp): what the expressions of a model yield, the record `Expressions`, with
--   the application of operators and the objective.
-- - Engine/Advance (Token.cpp): the functions by which a token advances: `advanceFromCreated`, `advanceToReady` and
--   `advanceToEntered` in Entered, `advanceToBusy` in Busy, `advanceToCompleted` in Completed, `advanceFromCompleted` and
--   `advanceToDone` in Ended, `advanceToFailed` and `terminate` in Failed, and leaving a node and arriving at the next in
--   Departing.
-- - Engine/Scopes, Engine/Shutdown (StateMachine.cpp): `run`, the event subprocesses and boundary events of a scope, and
--   how it shuts down.
-- - Engine/Failures (StateMachine.cpp): `handleFailure` and `handleEscalation`.
-- - Engine/Interruption, Engine/MultiInstance (StateMachine.cpp): the tokens that a caught event makes obsolete, and the
--   instances of multi-instance activities.
-- - Engine/Withdrawal, Engine/Destruction (Token.cpp, StateMachine.cpp): the withdrawal of tokens with everything within
--   their scopes, and what the destructors do.
-- - Engine/Continuation: what it means that a token goes on, for the functions of Engine/Advance.
-- - Engine/Commands (Engine.cpp): the list of commands and `processCommands`, what a command calls being an argument;
--   Engine/Dispatch gives the functions that the commands call.
-- - Engine/Events, Engine/Instances, Engine/Clock and Engine/Signals (Engine.cpp): the events from outside, the clock
--   tick, which triggers the timers that are due, the broadcast of a signal, and the instantiation of processes.
-- - Model/Predecessors (model/bpmnos/src/Model.cpp): the predecessors of converging inclusive gateways.
-- - Model/Definitions (Model.cpp): `validateErrors` and `validateEscalations`, which have the same text.
-- - Tests: a small system state, and each theorem applied to it.
--
-- Bounds and fuel: numbers are integers without the bounds of 64 bits, and addresses and sizes are natural numbers.
-- The way from a token up to its performer is bounded by the token's address, a token being allocated after the token
-- whose scope it is in; the loop of a clock tick by the number of timers, and the search for predecessors by the
-- number of nodes and one. That these bounds are enough is shown. The processing of commands ends only if the calls
-- do: fuel above a measure that every command decreases is enough. Withdrawal descends into the scopes within a scope, and
-- `depth` bounds how deep they lie within one another.
--
-- Not modelled: the libraries (BPMN models, expressions, JSON, fixed-point numbers), whose results are parameters; the
-- data of scopes, whose values are within the functions of `Expressions`; the tokens that a state machine still holds
-- when it is destroyed with the token that owns it; copies of a system state; the main loop, the controller, the data
-- providers and the reading of models and files.
pub mod Prelude
pub mod Utility
pub mod Values
pub mod Model
pub mod Engine
pub mod Tests
