-- ===== src/Threads/Sending.antt =====
-- The two threads that send frames (websocket_server.cpp): the script's thread its events, the
-- WebSocket thread its replies, events, pongs and the answer to a close frame, each in a section under
-- `send_mutex_`. A call of `::send` is one step, which may take a part of what it is given, or fail.
-- This is the life of one connection.
pub mod Frames
pub mod Broken
pub mod Runs
use quick_js_debugger.Prelude.{
  ℕ, ◌+◌, ◌≤◌, ◌<◌, ◌≡◌, Bool, true, false, [], ◌++◌, length, take, drop,
}
use quick_js_debugger.Text.Bytes.{Bytes}
use quick_js_debugger.Ws.Frames.{frame_header}

-- Where a thread stands with a frame of an opcode and a payload. `guarded` is the call of
-- `WebSocketServer::send`, which looks at the connection first; `receive` does not.
pub data Writer : Type 0 where
  idle : Writer
  locking : Bool → ℕ → Bytes → Writer  -- before `send_mutex_` is taken
  checking : ℕ → Bytes → Writer  -- in `send`, before `connected_.load()`
  at_header : ℕ → Bytes → Writer  -- before the header is sent
  at_payload : ℕ → Bytes → ℕ → Writer  -- in the loop, with the value of `sent`
  unlocking : Writer  -- before the mutex is released

-- What the threads share: whether `send_mutex_` is taken, `connected_`, what the system has taken for
-- the client; and whether a `::send` has failed or was cut short, which nobody looks at.
pub record Line : Type 0 where
  pub locked : Bool
  pub connected : Bool
  pub wire : Bytes
  pub broken : Bool

abbrev next_writer : Bool → ℕ → Bytes → Writer
next_writer true opcode payload = checking opcode payload
next_writer false opcode payload = at_header opcode payload

-- Only the WebSocket thread, in `receive`, sends pongs and the answer to a close frame.
pub data Side : Type 0 where
  script_thread socket_thread : Side

-- A step of a thread that sends.
pub data Move (who : Side) (l : Line) : Writer → Line → Writer → Type 0 where
  begin : (message : Bytes) → Move who l idle l (locking true 0x01 message)
  begin_pong :
      (payload : Bytes) → who ≡ socket_thread → Move who l idle l (locking false 0x0a payload)
  begin_close : who ≡ socket_thread → Move who l idle l (locking false 0x08 [])
  lock :
      {guarded : Bool} {opcode : ℕ} {payload : Bytes}
      → l.locked ≡ false
      → Move who l
          (locking guarded opcode payload)
          (record l { locked = true })
          (next_writer guarded opcode payload)
  refuse :
      {opcode : ℕ} {payload : Bytes}
      → l.connected ≡ false
      → Move who l (checking opcode payload) l unlocking
  accept :
      {opcode : ℕ} {payload : Bytes}
      → l.connected ≡ true
      → Move who l (checking opcode payload) l (at_header opcode payload)
  send_header :
      {opcode : ℕ} {payload : Bytes}
      → Move who l
          (at_header opcode payload)
          (record l { wire = l.wire ++ frame_header opcode (length payload) })
          (at_payload opcode payload 0)
  cut_header :
      {opcode : ℕ} {payload : Bytes} (n : ℕ)
      → n < length (frame_header opcode (length payload))
      → Move who l
          (at_header opcode payload)
          (record l {
            wire = l.wire ++ take n (frame_header opcode (length payload));
            broken = true;
          })
          unlocking
  send_part :
      {opcode : ℕ} {payload : Bytes} {sent : ℕ} (n : ℕ)
      → 0 < n
      → sent + n ≤ length payload
      → Move who l
          (at_payload opcode payload sent)
          (record l { wire = l.wire ++ take n (drop sent payload) })
          (at_payload opcode payload (sent + n))
  fail_part :
      {opcode : ℕ} {payload : Bytes} {sent : ℕ}
      → sent < length payload
      → Move who l (at_payload opcode payload sent) (record l { broken = true }) unlocking
  finish :
      {opcode : ℕ} {payload : Bytes} {sent : ℕ}
      → length payload ≤ sent
      → Move who l (at_payload opcode payload sent) l unlocking
  unlock : Move who l unlocking (record l { locked = false }) idle

-- Steps of one thread.
pub data Moves (who : Side) : Line → Writer → Line → Writer → Type 0 where
  stop : {l : Line} {w : Writer} → Moves who l w l w
  and_then :
      {l k m : Line} {w v u : Writer} → Move who l w k v → Moves who k v m u → Moves who l w m u

pub record Senders : Type 0 where
  pub line : Line
  pub script : Writer
  pub client : Writer

-- A step of either thread; or `connected_` is cleared, which `receive` and `disconnect` do without the
-- mutex.
pub data SendStep (s : Senders) : Senders → Type 0 where
  of_script :
      {l : Line} {w : Writer}
      → Move script_thread s.line s.script l w
      → SendStep s (record s { line = l; script = w })
  of_client :
      {l : Line} {w : Writer}
      → Move socket_thread s.line s.client l w
      → SendStep s (record s { line = l; client = w })
  hang_up : SendStep s (record s { line = record s.line { connected = false } })

-- A client has connected.
abbrev pub connected_line : Line
connected_line = record { locked = false; connected = true; wire = []; broken = false }

abbrev pub silent : Senders
silent = record { line = connected_line; script = idle; client = idle }

pub data SendReach : Senders → Type 0 where
  opened : SendReach silent
  then_sends : {s t : Senders} → SendReach s → SendStep s t → SendReach t
