-- ===== src/Engine.antt =====
-- execution/engine/src.
pub mod World
pub mod Tokens
pub mod Expressions
pub mod Advance
pub mod Destruction
pub mod Withdrawal
pub mod Scopes
pub mod Shutdown
pub mod Failures
pub mod Interruption
pub mod MultiInstance
pub mod Instances
pub mod Dispatch
pub mod Continuation
pub mod Performer
pub mod Headers
pub mod Messages
pub mod Statuses
pub mod Catchers
pub mod Clock
pub mod Compensation
pub mod Signals
pub mod Events
pub mod Gateways
pub mod Commands
