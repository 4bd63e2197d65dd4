-- ===== src/Lib.antt =====
-- The QuickJS debugger: a process that runs a script in QuickJS and serves the Chrome DevTools
-- Protocol to one client.
--
-- The script's thread calls a trace handler at every statement, which decides whether to pause. The
-- WebSocket thread parses the client's requests, changes the session that the handler reads, and
-- sends the replies; events go out from both. The development follows these parts.
--
--   Text       std::string, std::to_string and std::stoi as the program uses them. A string is the
--              list of its bytes.
--   Json       debugger/src/json.h. `Json.Value` holds the values and their accessors, `Json.Print`
--              `serialize`, `Json.Scan` and `Json.Parse` the parser. A double is a parameter
--              (`Json.Floats`) with laws on the whole numbers up to 10^15 (`IsExact`).
--   Session    debugger/src/debug_session.h and debug_session.cpp. `Session.State` holds the members
--              of DebugSession; `Scripts`, `Breakpoints`, `Control`, `Remote`, `Capture`, `Evaluate`,
--              `Trace` and `Registry` hold its operations under the source's names. The QuickJS
--              functions are the parameter `Session.Engine`, std::regex and the _WIN32 switch are
--              `Session.Paths.Platform`.
--   Cdp        debugger/src/cdp_handler.cpp. `Cdp.Requests` and `Cdp.Runtime` hold the handlers,
--              `Cdp.Dispatch` the dispatch and `handle_message`, and `Cdp.Reachable` the sessions
--              that a process can get to by calls of its parts.
--   Ws         debugger/src/websocket_server.cpp. `Ws.Frames` holds `send_ws_frame`, `recv_exact` and
--              `read_ws_frame`; the socket is a parameter with the documented behaviour of a stream
--              (`IsStream`), and `Ws.Sending` the loop over sends that take a part or fail. `Ws.Receive`
--              holds `receive`, `Ws.Base64` `base64_encode`, `Ws.Sha1` `sha1_hash` and
--              `compute_ws_accept`, `Ws.Http` the requests and responses, and `Ws.Server` the
--              handshake, `wait_for_connection` and `disconnect`.
--   Threads    the script's thread and the WebSocket thread as step relations, with one access of a
--              shared variable, one lock, one notification, one blocking or one call that waits in
--              a step. `Threads.State` holds `do_pause` against `resume` and
--              `evaluate_on_call_frame`, `Threads.Start` `wait_for_debugger` against
--              `run_if_waiting` (debug_session.cpp); `Threads.Sending` the frames that both
--              threads send under `send_mutex_` (websocket_server.cpp); `Threads.Shutdown` the end
--              of `main` against the message loop (main.cpp).
--   Program    debugger/src/main.cpp: `Program.Arguments` the command line, `Program.Startup` `main` up
--              to the start of its threads, `Program.Messages` the WebSocket thread's loop, which puts
--              `receive`, `handle_message` and `wait_for_connection` together, `Program.Console`
--              `js_console_log` and `setup_console`.
--   Atomics    compat/msvc/stdatomic.h: the macros over the _Interlocked intrinsics of MSVC, which
--              are the parameter `Atomics.Intrinsics` with their documented behaviour
--              (`IsInterlocked`).
--   Tests      the theorems at concrete inputs.
--
-- A C++ method that changes an object is a function from the old state to the new one, with what it
-- returns and the events it sends beside it. An exception is a value (`Json.Result.throws`). An int
-- is a ℤ; the counters of ids are natural numbers, and where an id has to fit an int this is a
-- hypothesis.
--
-- The parser runs on fuel, one unit for each call or round of a loop; `parse` gives it three times
-- the length of the text and three more, which is enough: every value or separator consumes a byte,
-- and at most three calls are made for one. `recv_exact` runs on as many units as bytes are wanted,
-- since every call of `recv` that succeeds brings at least one. `receive` runs on fuel because a
-- peer can send pings without end; one unit for each frame is enough.
-- The message loop and `wait_for_connection` run on fuel as well, since clients may come and send
-- without end: one unit for each message or client, and one more, is enough.
--
-- `receive`, `send_message` and the message loop record their calls of `send_ws_frame`
-- (`Ws.Frames.Output`), whose result no caller in the source looks at; what each call puts on the wire,
-- failures included, is `Ws.Sending.send_frame` and, for a sequence of calls,
-- `Ws.Sending.Outputs.transmit`. The theorems on frames are on payloads shorter than 2^31 bytes, whose
-- lengths the casts to int in the source keep.
--
-- In `Program` and `Session` an operation is one step, and a request to evaluate is answered in one;
-- the interleavings are those of `Threads`, where the values evaluated and the contents of the
-- messages are left out. `Threads.Sending` is the life of one connection, and `Threads.Shutdown` takes
-- the handling of a message for one step.
--
-- QuickJS is taken not to call the trace handler from within an evaluation (of a condition, or while
-- paused). The stores of `do_pause` before its wait and its event are one update, as its own thread
-- sees them.
--
-- Not modelled: the self-test of `start`, sha1_hash on Windows (a system library), logging, QuickJS
-- itself (a submodule), debugger/src/platform.h (system calls) and codegen.ps1.
pub mod Prelude
pub mod Text
pub mod Json
pub mod Session
pub mod Cdp
pub mod Ws
pub mod Threads
pub mod Program
pub mod Atomics
pub mod Tests
