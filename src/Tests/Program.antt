-- ===== src/Tests/Program.antt =====
-- Command lines, and a client's messages from end to end.
use quick_js_debugger.Prelude.{
  map, ℕ, ◌≡◌, refl, true, false, List, [], ◌∷◌, ◌++◌, none, some, All, arith,
}
use quick_js_debugger.Prelude.Int.{ℤ, pos}
use quick_js_debugger.Text.Bytes.{Bytes, codes, equal, is_empty, to_lower}
use quick_js_debugger.Text.Search.{find?, find_from?, starts_with}
use quick_js_debugger.Session.State.{new_session}
use quick_js_debugger.Cdp.{Handler}
use quick_js_debugger.Session.Scripts.{new_script, get_script_by_id}
use quick_js_debugger.Ws.Base64.{base64_encode, digit64}
use quick_js_debugger.Ws.Frames.{plain}
use quick_js_debugger.Ws.Sha1.{compute_ws_accept, sha1_hash, pad, hash_padded}
use quick_js_debugger.Ws.Http.{get_header, get_request_path, read_http_request}
use quick_js_debugger.Ws.Server.{upgraded, handshake, wants_websocket, serve_request, serve}
use quick_js_debugger.Ws.Server.Clients.{nobody, client, AreDismissed, all_responses}
use quick_js_debugger.Ws.Receive.{ClientFrame, bytes_of, open_at}
use quick_js_debugger.Program.Arguments.{default_options, parse_arguments}
use quick_js_debugger.Program.Arguments.Line.{
  Item, port_option, script, unknown_option, IsUnknown, IsItem, line, described,
  parse_arguments-line,
}
use quick_js_debugger.Program.Messages.{World, Thread}
use quick_js_debugger.Program.Messages.Exchanges.{Exchange, exchange_bytes}
use quick_js_debugger.Program.Startup.{
  System, read_file_contents, start_server, Launch, launched, launch,
}
use quick_js_debugger.Program.Startup.Launches.{final_options, target_said, launch-line}
use quick_js_debugger.Tests.Machine.{whole_floats}
use quick_js_debugger.Tests.Frames.{slow_socket, key}
use quick_js_debugger.Tests.Serving.{takes, next_client, version_request, upgrade_request, accepted}

abbrev verbose : Bytes
verbose = codes "--verbose"

verbose-IsUnknown : IsUnknown verbose
unfolding equal
verbose-IsUnknown = record {
  dash = refl;
  no_port = refl;
  no_inspect_brk = refl;
  no_inspect = refl;
  no_help = refl;
  no_h = refl;
}

abbrev items : List Item
items =
    script (codes "b.js") ∷ port_option 9230 ∷ unknown_option verbose ∷ script (codes "a.js") ∷ []

items-IsItem : All IsItem items
items-IsItem = (refl, (omega arith, (verbose-IsUnknown, (refl, tt))))

parse_arguments-line_example :
    (parse_arguments default_options (line items) ≡ some (described default_options items))
    × (parse_arguments default_options (line items ++ (codes "--help" ∷ [])) ≡ none)
    × (parse_arguments default_options (line items ++ (codes "-h" ∷ [])) ≡ none)
parse_arguments-line_example = parse_arguments-line items [] default_options items-IsItem

abbrev handler : Handler ℤ
handler = record { session = new_session; runtime_enabled = false; debugger_enabled = false }

abbrev frame : ℕ → Bytes → ClientFrame
frame opcode payload = record { mask = key; opcode = opcode; payload = payload }

-- One message, and a close frame with the same payload.
abbrev request : Exchange
request = record { controls = []; message = frame 1 (codes "{\"id\":1}") }

abbrev goodbye : ClientFrame
goodbye = frame 8 (codes "{\"id\":1}")

abbrev world : World Bytes (List Bytes)
world = record {
  sock = slow_socket;
  send = takes;
  accept = next_client;
  ws_running = λ n. true;
  port = pos 9229;
  patience = 2;
}

abbrev conversation : Bytes
conversation = exchange_bytes (request ∷ []) (bytes_of goodbye ++ [])

abbrev thread : Bytes → List Bytes → Thread Bytes (List Bytes) ℤ
thread s l = record {
  connection = open_at s;
  listener = l;
  handler = handler;
  msg_count = 0;
  sent = [];
}

-- The first client is gone at once; of the next two, one asks for the version.
abbrev probe : Thread Bytes (List Bytes) ℤ
probe = thread [] (version_request ∷ (upgrade_request ++ conversation) ∷ [])

-- A system with one file.
abbrev system : System (List Bytes)
system = record {
  file = λ path. some (codes "f();");
  full_path = λ path. some (codes "/w/" ++ path);
  new_runtime = true;
  new_context = true;
  socket_init = true;
  socket = some (version_request ∷ (upgrade_request ++ conversation) ∷ []);
  bind = λ l port. true;
  listen = λ l. true;
}

items-dismissed : AreDismissed slow_socket takes (target_said system items) (version_request ∷ [])
unfolding serve serve_request wants_websocket get_header get_request_path read_http_request equal
    find? starts_with find_from? to_lower
items-dismissed = (refl, tt)

items-served :
    serve slow_socket takes (target_said system items) (upgrade_request ++ conversation)
    ≡ some (upgraded accepted conversation)
unfolding serve serve_request wants_websocket handshake get_header get_request_path
    read_http_request equal find? starts_with find_from? to_lower compute_ws_accept sha1_hash pad
    hash_padded base64_encode digit64
items-served = refl

items-filled : is_empty (read_file_contents system (codes "a.js")) ≡ false
unfolding read_file_contents
items-filled = refl

items-started :
    start_server system (pos 9230) ≡ some (version_request ∷ (upgrade_request ++ conversation) ∷ [])
unfolding start_server
items-started = refl

launch-line_example :
    (run : Launch Bytes (List Bytes) ℤ) × (launch world system [] (line items) ≡ launched run)
    × (run.options ≡ final_options system items)
    × (run.source ≡ read_file_contents system (codes "a.js"))
    × (run.thread.connection ≡ open_at conversation)
    × (run.thread.listener ≡ [])
    × (run.thread.sent
        ≡ map plain (
            all_responses slow_socket takes (target_said system items) (version_request ∷ [])
            ++ (accepted ∷ [])))
    × (run.thread.handler.session.enabled ≡ true)
    × (run.thread.handler.session.pause_on_start ≡ true)
    × (get_script_by_id run.thread.handler.session.scripts (codes "1")
        ≡ some (new_script 1 (final_options system items).script_file run.source))
launch-line_example =
    launch-line world system [] items (version_request ∷ []) (upgrade_request ++ conversation)
      conversation (version_request ∷ (upgrade_request ++ conversation) ∷ [])
      ((upgrade_request ++ conversation) ∷ []) [] accepted items-IsItem refl items-filled refl refl
      items-started (client refl nobody) items-dismissed refl items-served (omega arith)
