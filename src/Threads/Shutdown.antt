-- ===== src/Threads/Shutdown.antt =====
-- The end of `main` (main.cpp): the script's thread clears `ws_running`, disconnects and joins the
-- WebSocket thread, which meanwhile loops over messages. One access of a shared variable, or one call
-- that waits, is a step; what the client does, and the return of a `recv` or an `accept`, comes from
-- outside.
pub mod Invariant
pub mod Messages
pub mod Join
use quick_js_debugger.Prelude.{ℕ, suc, ◌<◌, ◌≡◌, Bool, true, false}

-- Where the script's thread stands.
pub data Ending : Type 0 where
  evaluating : Ending  -- in JS_Eval
  before_clear : Ending  -- before `ws_running.store(false)`
  before_disconnect : Ending  -- before `ws.disconnect()`
  joining : Ending  -- in `ws_thread.join()`
  ended : Ending

-- Where the WebSocket thread stands.
pub data Listener : Type 0 where
  testing : Listener  -- before `ws_running.load()`
  entering : Listener  -- in `receive`, before its look at the connection
  receiving : Listener  -- in `recv`
  emptied : Listener  -- with the empty string, before `is_connected()`
  dropped : Listener  -- the connection is gone, before the test of `msg_count`
  reaccepting : Listener  -- before `ws.disconnect()` there
  accepting : Listener  -- in `accept`
  exited : Listener

-- `ws_running`, `connected_`, `msg_count`, and where the threads stand.
pub record Finish : Type 0 where
  pub ws_running : Bool
  pub connected : Bool
  pub msg_count : ℕ
  pub ending : Ending
  pub listener : Listener

-- A step that a thread takes by itself.
pub data OwnMove (s : Finish) : Finish → Type 0 where
  clear :
      s.ending ≡ before_clear
      → OwnMove s (record s { ws_running = false; ending = before_disconnect })
  disconnect :
      s.ending ≡ before_disconnect → OwnMove s (record s { connected = false; ending = joining })
  join : s.ending ≡ joining → s.listener ≡ exited → OwnMove s (record s { ending = ended })
  go_on : s.listener ≡ testing → s.ws_running ≡ true → OwnMove s (record s { listener = entering })
  stop : s.listener ≡ testing → s.ws_running ≡ false → OwnMove s (record s { listener = exited })
  enter : s.listener ≡ entering → s.connected ≡ true → OwnMove s (record s { listener = receiving })
  turn_back :
      s.listener ≡ entering → s.connected ≡ false → OwnMove s (record s { listener = emptied })
  give_up : s.listener ≡ emptied → s.connected ≡ true → OwnMove s (record s { listener = exited })
  see_dropped :
      s.listener ≡ emptied → s.connected ≡ false → OwnMove s (record s { listener = dropped })
  leave : s.listener ≡ dropped → 0 < s.msg_count → OwnMove s (record s { listener = exited })
  replace : s.listener ≡ dropped → s.msg_count ≡ 0 → OwnMove s (record s { listener = reaccepting })
  close :
      s.listener ≡ reaccepting → OwnMove s (record s { connected = false; listener = accepting })

-- A step that waits for the script, the client or the system.
pub data OuterMove (s : Finish) : Finish → Type 0 where
  script_ends : s.ending ≡ evaluating → OuterMove s (record s { ending = before_clear })
  message :
      s.listener ≡ receiving
      → OuterMove s (record s { msg_count = suc s.msg_count; listener = testing })
  control : s.listener ≡ receiving → OuterMove s (record s { listener = entering })
  empty_message : s.listener ≡ receiving → OuterMove s (record s { listener = emptied })
  lost : s.listener ≡ receiving → OuterMove s (record s { connected = false; listener = emptied })
  client_comes :
      s.listener ≡ accepting → OuterMove s (record s { connected = true; listener = testing })
  accept_fails : s.listener ≡ accepting → OuterMove s (record s { listener = exited })

pub data FinishStep (s : Finish) : Finish → Type 0 where
  of_own : {t : Finish} → OwnMove s t → FinishStep s t
  of_outer : {t : Finish} → OuterMove s t → FinishStep s t

-- The thread has been started, with a client.
abbrev pub serving : Finish
serving = record {
  ws_running = true;
  connected = true;
  msg_count = 0;
  ending = evaluating;
  listener = testing;
}

-- Steps of the program from a state on, and those that need nothing from outside.
pub data Run : Finish → Finish → Type 0 where
  here : {s : Finish} → Run s s
  then_run : {s t u : Finish} → FinishStep s t → Run t u → Run s u

pub data OwnRun : Finish → Finish → Type 0 where
  own_here : {s : Finish} → OwnRun s s
  then_own : {s t u : Finish} → OwnMove s t → OwnRun t u → OwnRun s u

pub data FinishReach : Finish → Type 0 where
  start : FinishReach serving
  later : {s t : Finish} → FinishReach s → FinishStep s t → FinishReach t
