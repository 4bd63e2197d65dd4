-- ===== src/Tests.antt =====
-- The theorems at concrete inputs, on a machine whose doubles are whole numbers and on an engine
-- with one frame.
pub mod Machine
pub mod Documents
pub mod Debugging
pub mod Requests
pub mod Frames
pub mod Threads
pub mod Serving
pub mod Program
pub mod Sessions
pub mod Stepping
pub mod Sending
pub mod Ending
pub mod Atomics
