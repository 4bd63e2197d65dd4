-- ===== src/Ws/Server.antt =====
-- The server of websocket_server.cpp: `do_websocket_handshake`, `wait_for_connection` and
-- `disconnect`. A step that would write outside of a buffer of `sha1_hash` is `none`, as is a run that
-- ended for lack of fuel.
use quick_js_debugger.Prelude.{
  ℕ, zero, suc, Bool, true, false, ◌||◌, List, [], ◌∷◌, ◌++◌, Option, none, some, not,
  if◌then◌else◌,
}
use quick_js_debugger.Prelude.Int.{ℤ}
use quick_js_debugger.Text.Bytes.{Bytes, codes, equal, is_empty, to_lower}
use quick_js_debugger.Ws.Frames.{Socket}
use quick_js_debugger.Ws.Sha1.{compute_ws_accept}
use quick_js_debugger.Ws.Receive.{Connection}
use quick_js_debugger.Ws.Http.{
  crlf, get_header, get_request_path, read_http_request, http_response, version_document,
  targets_document,
}
pub mod Clients
pub mod Bounds

-- The response that accepts a WebSocket, with the protocol that was asked for, if any.
unfoldable pub switching_protocols : Bytes → Bytes → Bytes
switching_protocols accept protocol =
    codes "HTTP/1.1 101 Switching Protocols"
    ++ (crlf
        ++ (codes "Upgrade: websocket"
            ++ (crlf
                ++ (codes "Connection: Upgrade"
                    ++ (crlf
                        ++ (codes "Sec-WebSocket-Accept: "
                            ++ (accept
                                ++ (crlf
                                    ++ ((if not (is_empty protocol)
                                          then codes "Sec-WebSocket-Protocol: "
                                            ++ (protocol ++ crlf)
                                          else [])
                                        ++ crlf)))))))))

-- What has become of a client: a WebSocket, a socket that was closed, or one that was closed because
-- its handshake failed; with what was sent to it.
pub data Visit (S : Type 0) : Type 0 where
  upgraded : Bytes → S → Visit S
  closed refused : List Bytes → Visit S

-- The name and URL of the target and the port.
pub record Target : Type 0 where
  pub name : Bytes
  pub url : Bytes
  pub port : ℤ

module _ {S : Type 0} (send : S → Bytes → Bool) where
  -- `do_websocket_handshake`, and the closing of the socket where it fails. `send` says whether all
  -- bytes were taken.
  unfoldable pub handshake : Bytes → S → Option (Visit S)
  handshake request s =
      let key = get_header request (codes "Sec-WebSocket-Key") in
      if is_empty key then some (refused []) else elim (compute_ws_accept key) [
        | none ↦ none
        | some accept ↦
            let response =
              switching_protocols accept (get_header request (codes "Sec-WebSocket-Protocol")) in
            some (if send s response then upgraded response s else refused (response ∷ []))
      ]

-- The HTTP endpoints.
unfoldable pub respond : Target → Bytes → Bytes
respond target path =
    if equal path (codes "/json/version")
    then http_response 200 (codes "OK") (codes "application/json") version_document
    else if equal path (codes "/json") || equal path (codes "/json/list")
    then http_response 200 (codes "OK") (codes "application/json")
        (targets_document target.port target.name target.url)
    else http_response 404 (codes "Not Found") (codes "text/plain") (codes "Not Found")

-- `upgrade_lower == "websocket"`.
unfoldable pub wants_websocket : Bytes → Bool
wants_websocket request =
    equal (to_lower (get_header request (codes "Upgrade"))) (codes "websocket")

module _ {S : Type 0} (sock : Socket S) (send : S → Bytes → Bool) (target : Target) where
  -- What is done with a request.
  unfoldable pub serve_request : Bytes → S → Option (Visit S)
  serve_request request s =
      if is_empty request
      then some (closed [])
      else if wants_websocket request
      then handshake send request s
      else some (closed (respond target (get_request_path request) ∷ []))

  -- A pass of the loop, for an accepted socket.
  unfoldable pub serve : S → Option (Visit S)
  serve s = let (request, s') = read_http_request sock s in serve_request request s'

-- `disconnect`.
unfoldable pub disconnect : {S : Type 0} → Connection S → Connection S
disconnect c = record c { connected = false; has_client = false }

-- `stop`: the listening socket, if there is one, is closed too.
unfoldable stop : {S L : Type 0} → Connection S → Option L → Connection S × Option L
unfolding disconnect
stop c listen_sock = (disconnect c, none)

-- What `wait_for_connection` returns, the connection, the listening socket, and what was sent.
pub record Waited (S L : Type 0) : Type 0 where
  pub success : Bool
  pub connection : Connection S
  pub listener : L
  pub sent : List Bytes

abbrev pub sent_before : {S L : Type 0} → List Bytes → Option (Waited S L) → Option (Waited S L)
sent_before front none = none
sent_before front (some w) = some (record w { sent = front ++ w.sent })

-- `accept` gives the next client, or `none` where it fails.
module _ {S L : Type 0} (accept : L → Option (S × L)) (sock : Socket S) (send : S → Bytes → Bool)
    (target : Target) where
  unfoldable pub wait_for_connection : ℕ → L → Connection S → Option (Waited S L)
  wait_for_connection zero l c = none
  wait_for_connection (suc fuel) l c = elim (accept l) [
    | none ↦ some (record { success = false; connection = c; listener = l; sent = [] })
    | some (s, l') ↦ elim (serve sock send target s) [
      | none ↦ none
      | some (upgraded response s') ↦ some (record {
        success = true;
        connection = record { connected = true; has_client = true; client_sock = s' };
        listener = l';
        sent = response ∷ [];
      })
      | some (closed responses) ↦ sent_before responses (wait_for_connection fuel l' c)
      | some (refused responses) ↦
          sent_before responses (wait_for_connection fuel l' (record c { has_client = false }))
    ]
  ]
