-- ===== src/Program/Startup.antt =====
-- `main` up to the start of its threads, and `WebSocketServer::start`. What the operating system and
-- QuickJS do is a parameter.
pub mod Launches
use quick_js_debugger.Ws.Frames.{plain}
use quick_js_debugger.Prelude.{
  map, ℕ, ◌+◌, ◌-◌, ◌%◌, Bool, true, false, ◌||◌, not, List, [], Option, none, some, if◌then◌else◌,
}
use quick_js_debugger.Prelude.Int.{ℤ, pos, negsuc}
use quick_js_debugger.Text.Bytes.{Bytes, is_empty}
use quick_js_debugger.Json.Floats.{Floats}
use quick_js_debugger.Session.Paths.{normalize_url, to_file_url}
use quick_js_debugger.Session.State.{Session, new_session}
use quick_js_debugger.Session.Control.{set_enabled, set_pause_on_start, set_send_event}
use quick_js_debugger.Session.Scripts.{add_script}
use quick_js_debugger.Cdp.{Handler}
use quick_js_debugger.Ws.Receive.{Connection}
use quick_js_debugger.Ws.Server.{Target, Waited, wait_for_connection}
use quick_js_debugger.Program.Arguments.{Options, default_options, parse_arguments, default_inspect}
use quick_js_debugger.Program.Messages.{World, Thread}

-- What `main` asks of the system and of QuickJS: the contents of a file that can be opened, the
-- absolute path (realpath or _fullpath), JS_NewRuntime and JS_NewContext, platform_socket_init,
-- `socket`, `bind` to a port, and `listen`.
pub record System (L : Type 0) : Type 0 where
  pub file : Bytes → Option Bytes
  pub full_path : Bytes → Option Bytes
  pub new_runtime : Bool
  pub new_context : Bool
  pub socket_init : Bool
  pub socket : Option L
  pub bind : L → ℕ → Bool
  pub listen : L → Bool

-- `(uint16_t)port`.
unfoldable pub port_word : ℤ → ℕ
port_word (pos n) = n % 65536
port_word (negsuc n) = 65535 - n % 65536

module _ {L : Type 0} (sys : System L) where
  unfoldable pub read_file_contents : Bytes → Bytes
  read_file_contents path = elim (sys.file path) [ none ↦ [] | some s ↦ s ]

  unfoldable pub absolute_path : Bytes → Bytes
  absolute_path path = normalize_url (elim (sys.full_path path) [ none ↦ path | some abs ↦ abs ])

  -- `WebSocketServer::start`: the listening socket, or `none` where it returns false.
  unfoldable pub start_server : ℤ → Option L
  unfolding port_word
  start_server port = if not sys.socket_init then none else elim sys.socket [
    | none ↦ none
    | some l ↦ if not (sys.bind l (port_word port)) || not (sys.listen l) then none else some l
  ]

-- The end of `main` before its threads are started, with its exit code; or a launch.
pub data Outcome (A : Type 0) : Type 0 where
  exits : ℕ → Outcome A
  launched : A → Outcome A
  out_of_fuel : Outcome A

-- What the two threads start from: the options, the source to evaluate, and the WebSocket thread. The
-- script's thread calls `wait_for_debugger` first if `inspect_brk` is set.
pub record Launch (S L N : Type 0) : Type 0 where
  pub options : Options
  pub source : Bytes
  pub thread : Thread S L N

module _ {N : Type 0} where
  -- The session once the client is connected.
  unfoldable pub prepare : Options → Session N → Session N
  prepare o s = if o.inspect_brk then set_enabled (set_pause_on_start s true) true else s

  -- `CDPHandler`.
  abbrev pub new_handler : Session N → Handler N
  new_handler s = record { session = s; runtime_enabled = false; debugger_enabled = false }

-- No client yet; `s` is a socket that is not used.
abbrev pub no_client : {S : Type 0} → S → Connection S
no_client s = record { connected = false; has_client = false; client_sock = s }

module _ {S L : Type 0} (world : World S L) (sys : System L) (unused : S) {N : Type 0}
    ⦃fl : Floats N⦄ where
  -- Behind the acceptance of a client.
  unfoldable pub connect :
      Options → Bytes → Session N → Option (Waited S L) → Outcome (Launch S L N)
  unfolding prepare
  connect o source s none = out_of_fuel
  connect o source s (some w) =
      if not w.success
      then exits 1
      else launched (record {
        options = o;
        source = source;
        thread = record {
          connection = w.connection;
          listener = w.listener;
          handler = new_handler (prepare o s);
          msg_count = 0;
          sent = map plain w.sent;
        };
      })

  -- From the creation of the runtime on.
  unfoldable pub launch_script : Options → Bytes → Outcome (Launch S L N)
  launch_script o source =
      let (s, id, events) = add_script new_session o.script_file source in
      if not sys.new_runtime || not sys.new_context
      then exits 1
      else elim (start_server sys o.port) [
        | none ↦ exits 1
        | some l ↦
            let target : Target = record {
              name = o.script_file;
              url = to_file_url o.script_file;
              port = o.port;
            } in
            connect o source (set_send_event s) (
              wait_for_connection world.accept world.sock world.send target world.patience l
                (no_client unused))
      ]

  unfoldable pub launch_options : Options → Outcome (Launch S L N)
  launch_options o =
      let source = read_file_contents sys o.script_file in
      if is_empty o.script_file || is_empty source
      then exits 1
      else launch_script
          (default_inspect (record o { script_file = absolute_path sys o.script_file })) source

  -- `main`, for the arguments behind the program's name.
  unfoldable pub launch : List Bytes → Outcome (Launch S L N)
  launch args = elim (parse_arguments default_options args) [
    | none ↦ exits 0
    | some o ↦ launch_options o
  ]
