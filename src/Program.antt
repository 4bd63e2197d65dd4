-- ===== src/Program.antt =====
-- debugger/src/main.cpp: the command line, the start, the thread that receives messages, and console.log.
pub mod Arguments
pub mod Messages
pub mod Console
pub mod Startup
