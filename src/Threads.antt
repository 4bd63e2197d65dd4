-- ===== src/Threads.antt =====
-- The script's thread and the WebSocket thread as step relations: across a pause (State and the
-- modules about it), at the start (Start), where both send (Sending), and at the end (Shutdown). From
-- debugger/src/debug_session.cpp, websocket_server.cpp and main.cpp.
pub mod State
pub mod Invariant
pub mod Progress
pub mod Deadlock
pub mod Start
pub mod Sending
pub mod Shutdown
