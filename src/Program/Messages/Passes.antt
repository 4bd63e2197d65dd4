-- ===== src/Program/Messages/Passes.antt =====
-- The passes of the message loop, by what is received.
use quick_js_debugger.Prelude.{ℕ, suc, ◌≡◌, ◌≢◌, true, false, List, [], ◌++◌, map, some, arith}
use quick_js_debugger.Text.Bytes.{Bytes, is_empty}
use quick_js_debugger.Json.Floats.{Floats}
use quick_js_debugger.Json.Result.{ok, throws, out_of_fuel}
use quick_js_debugger.Session.Engine.{Engine}
use quick_js_debugger.Session.Paths.{Platform}
use quick_js_debugger.Cdp.{Handler}
use quick_js_debugger.Cdp.Dispatch.{handle_message}
use quick_js_debugger.Ws.Frames.{Output, plain}
use quick_js_debugger.Ws.Receive.{Connection, receive}
use quick_js_debugger.Ws.Server.{Waited}
use quick_js_debugger.Program.Messages.{World, Thread, send_messages, leave, reaccept, message_loop}

module _ {S L : Type 0} (world : World S L) {N V : Type 0} ⦃fl : Floats N⦄ (e : Engine N V)
    (pf : Platform) where
  pub pass-close :
      (fuel pass : ℕ) (t : Thread S L N) (c : Connection S) (frames : List Output)
      → world.ws_running pass ≡ true
      → receive world.sock world.patience t.connection ≡ ok ([], c, frames)
      → c.connected ≡ false
      → t.msg_count ≢ 0
      → message_loop world e pf (suc fuel) pass t
        ≡ ok (leave (record t { connection = c; sent = t.sent ++ frames }))
  unfolding message_loop
  pass-close fuel pass t c frames on r off some_messages = ground arith

  module _ (fuel pass : ℕ) (t : Thread S L N) (msg : Bytes) (c : Connection S)
      (frames : List Output) (on : world.ws_running pass ≡ true)
      (r : receive world.sock world.patience t.connection ≡ ok (msg, c, frames))
      (some_bytes : is_empty msg ≡ false) where
    pub pass-message :
        (h : Handler N) (messages : List Bytes)
        → handle_message e pf t.handler msg ≡ ok (h, messages)
        → message_loop world e pf (suc fuel) pass t
          ≡ message_loop world e pf fuel (suc pass) (record t {
            connection = c;
            handler = h;
            msg_count = suc t.msg_count;
            sent = (t.sent ++ frames) ++ send_messages c messages;
          })
    unfolding message_loop
    pass-message h messages handled = ground arith

    pub pass-throws :
        handle_message e pf t.handler msg ≡ throws
        → message_loop world e pf (suc fuel) pass t ≡ throws
    unfolding message_loop
    pass-throws handled = ground arith

    pub pass-out_of_fuel :
        handle_message e pf t.handler msg ≡ out_of_fuel
        → message_loop world e pf (suc fuel) pass t ≡ out_of_fuel
    unfolding message_loop
    pass-out_of_fuel handled = ground arith

  pub pass-probe :
      (fuel pass : ℕ) (t : Thread S L N) (c : Connection S) (frames : List Output) (w : Waited S L)
      → world.ws_running pass ≡ true
      → receive world.sock world.patience t.connection ≡ ok ([], c, frames)
      → c.connected ≡ false
      → t.msg_count ≡ 0
      → reaccept world e pf (record t { connection = c; sent = t.sent ++ frames }) ≡ some w
      → w.success ≡ true
      → message_loop world e pf (suc fuel) pass t
        ≡ message_loop world e pf fuel (suc pass) (record t {
          connection = w.connection;
          listener = w.listener;
          sent = (t.sent ++ frames) ++ map plain w.sent;
        })
  unfolding message_loop
  pass-probe fuel pass t c frames w on r off first again good = ground arith
