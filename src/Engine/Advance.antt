-- ===== src/Engine/Advance.antt =====
-- execution/engine/src/Token.cpp: the functions by which a token advances from one state to the next.
pub mod Departing
pub mod Flows
pub mod Entered
pub mod Busy
pub mod Completed
pub mod Ended
pub mod Failed
