-- ===== src/Tests.antt =====
-- Runs of the definitions on small inputs, and the theorems applied to them.
mod Worlds
mod EngineTests
mod ControlTests
mod AdvanceTests
mod ScopeTests
mod Processes
mod CommandTests
mod ValueTests
mod ModelTests
mod UtilityTests
