-- ===== src/Session.antt =====
-- debugger/src/debug_session.h and debug_session.cpp: the debugger's core.
pub mod Paths
pub mod State
pub mod Scripts
pub mod Breakpoints
pub mod Control
pub mod Engine
pub mod Remote
pub mod Capture
pub mod Evaluate
pub mod Trace
pub mod Registry
pub mod WellFormed
