-- ===== src/Program/Messages.antt =====
-- The WebSocket thread of `main`: messages are received and handled until the client is gone. A
-- client that leaves before its first message is replaced by the next one. `WebSocketServer::send` is
-- here as well. What the script's thread sends meanwhile is left out.
pub mod Passes
pub mod Exchanges
pub mod Probes
use quick_js_debugger.Prelude.{
  ℕ, zero, suc, Bool, true, false, ◌||◌, not, List, [], ◌∷◌, ◌++◌, map, Option, none, some, ◌==◌,
  if◌then◌else◌,
}
use quick_js_debugger.Prelude.Int.{ℤ}
use quick_js_debugger.Text.Bytes.{Bytes, is_empty}
use quick_js_debugger.Json.Floats.{Floats}
use quick_js_debugger.Json.Result.{Result, ok, throws, out_of_fuel}
use quick_js_debugger.Session.Engine.{Engine}
use quick_js_debugger.Session.Paths.{Platform, to_file_url}
use quick_js_debugger.Session.State.{ScriptInfo}
use quick_js_debugger.Session.Control.{on_disconnect}
use quick_js_debugger.Cdp.{Handler}
use quick_js_debugger.Cdp.Dispatch.{handle_message}
use quick_js_debugger.Ws.Frames.{Socket, Output, plain, framed}
use quick_js_debugger.Ws.Receive.{Connection, receive}
use quick_js_debugger.Ws.Server.{Target, Waited, disconnect, wait_for_connection}

-- `ws.send`: the call of `send_ws_frame`, if the connection is open. `CDPHandler` does not look at what
-- it returns.
unfoldable pub send_message : {S : Type 0} → Connection S → Bytes → List Output
send_message c message =
    if not c.connected || not c.has_client then [] else framed 0x01 message ∷ []

unfoldable pub send_messages : {S : Type 0} → Connection S → List Bytes → List Output
unfolding send_message
send_messages c [] = []
send_messages c (m ∷ ms) = send_message c m ++ send_messages c ms

-- The connection, the listening socket, the handler with its session, the number of messages, and
-- what is to be sent.
pub record Thread (S L N : Type 0) : Type 0 where
  pub connection : Connection S
  pub listener : L
  pub handler : Handler N
  pub msg_count : ℕ
  pub sent : List Output

-- What the thread works with: the sockets, the load of `ws_running` in each pass, the port, and the
-- fuel of the calls that wait.
pub record World (S L : Type 0) : Type 0 where
  pub sock : Socket S
  pub send : S → Bytes → Bool
  pub accept : L → Option (S × L)
  pub ws_running : ℕ → Bool
  pub port : ℤ
  pub patience : ℕ

-- The target is the first script.
abbrev pub first_target : ℤ → List ScriptInfo → Target
first_target port [] = record { name = []; url = []; port = port }
first_target port (s ∷ ss) = record { name = s.url; url = to_file_url s.url; port = port }

module _ {S L N : Type 0} where
  -- `session.on_disconnect()`.
  unfoldable pub leave : Thread S L N → Thread S L N
  leave t = record t { handler = record t.handler { session = on_disconnect t.handler.session } }

  -- Behind `wait_for_connection`.
  abbrev reconnected : Thread S L N → Waited S L → Thread S L N
  reconnected t w = record t {
    connection = w.connection;
    listener = w.listener;
    sent = t.sent ++ map plain w.sent;
  }

module _ {S L : Type 0} (world : World S L) {N V : Type 0} ⦃fl : Floats N⦄ (e : Engine N V)
    (pf : Platform) where
  -- The next client, behind `disconnect`.
  unfoldable pub reaccept : Thread S L N → Option (Waited S L)
  reaccept t =
      wait_for_connection world.accept world.sock world.send
        (first_target world.port t.handler.session.scripts) world.patience t.listener
        (disconnect t.connection)

  -- The loop; `pass` counts the loads of `ws_running`. A write outside of a buffer, which does not
  -- occur, would count as a lack of fuel.
  unfoldable pub message_loop : ℕ → ℕ → Thread S L N → Result (Thread S L N)
  message_loop zero pass t = out_of_fuel
  message_loop (suc fuel) pass t = elim (world.ws_running pass) [
    | false ↦ ok t
    | true ↦ elim (receive world.sock world.patience t.connection) [
      | throws ↦ throws
      | out_of_fuel ↦ out_of_fuel
      | ok (msg, c, frames) ↦
          let t' = record t { connection = c; sent = t.sent ++ frames } in
          elim (is_empty msg) [
            | true ↦ elim c.connected [
              | true ↦ ok t'
              | false ↦ elim (t.msg_count == 0) [
                | false ↦ ok (leave t')
                | true ↦ elim (reaccept t') [
                  | none ↦ out_of_fuel
                  | some w ↦ elim w.success [
                    | false ↦ ok (leave (reconnected t' w))
                    | true ↦ message_loop fuel (suc pass) (reconnected t' w)
                  ]
                ]
              ]
            ]
            | false ↦ elim (handle_message e pf t.handler msg) [
              | ok (h, messages) ↦ message_loop fuel (suc pass) (record t' {
                handler = h;
                msg_count = suc t.msg_count;
                sent = t'.sent ++ send_messages c messages;
              })
              | throws ↦ throws
              | out_of_fuel ↦ out_of_fuel
            ]
          ]
    ]
  ]
