-- ===== src/Program/Startup/Launches.antt =====
-- What a command line comes to.
use quick_js_debugger.Ws.Frames.{plain}
use quick_js_debugger.Prelude.{
  map, ◌<◌, ◌≡◌, ◌≢◌, ◌↔◌, refl, ap, ◌∙◌, true, false, ◌||◌, not, List, [], ◌∷◌, ◌++◌, Option, none,
  some, length, All, Bool-cases, Option-cases, inl, inr, arith,
}
use quick_js_debugger.Prelude.Int.{pos}
use quick_js_debugger.Text.Bytes.{Bytes, codes, equal, is_empty}
use quick_js_debugger.Text.Decimal.{nat_to_string}
use quick_js_debugger.Json.Floats.{Floats}
use quick_js_debugger.Session.Paths.{to_file_url}
use quick_js_debugger.Session.State.{Session, new_session}
use quick_js_debugger.Session.Control.{set_enabled, set_pause_on_start, set_send_event}
use quick_js_debugger.Session.Scripts.{add_script, new_script, get_script_by_id}
use quick_js_debugger.Ws.Receive.{open_at}
use quick_js_debugger.Ws.Server.{upgraded, Target, Waited, serve, wait_for_connection}
use quick_js_debugger.Ws.Server.Clients.{
  Accepts, AreDismissed, all_responses, wait_for_connection-first,
}
use quick_js_debugger.Program.Arguments.{Options, default_options, parse_arguments, default_inspect}
use quick_js_debugger.Program.Arguments.Line.{
  Item, IsItem, line, last_port, last_script, any_item, asks_pause, asks_inspect, described,
  parse_arguments-line,
}
use quick_js_debugger.Program.Messages.{World}
use quick_js_debugger.Program.Startup.{
  System, read_file_contents, absolute_path, start_server, exits, launched, Launch, prepare,
  new_handler, no_client, connect, launch_script, launch_options, launch,
}

module _ {L : Type 0} (sys : System L) where
  -- The options that `main` works with.
  abbrev pub final_options : List Item → Options
  final_options items = record {
    port = last_port (pos 9229) items;
    inspect_brk = any_item asks_pause items || not (any_item asks_inspect items);
    inspect = any_item asks_inspect items || not (any_item asks_pause items);
    script_file = absolute_path sys (last_script [] items);
  }

  -- What the clients are told.
  abbrev pub target_said : List Item → Target
  target_said items = record {
    name = (final_options items).script_file;
    url = to_file_url (final_options items).script_file;
    port = last_port (pos 9229) items;
  }

  default_inspect-described :
      (items : List Item)
      → default_inspect (record (described default_options items) {
        script_file = absolute_path sys (described default_options items).script_file;
      })
        ≡ final_options items
  unfolding default_inspect described
  default_inspect-described items = elim (Bool-cases (any_item asks_pause items)) [
    | inl b ↦ elim (Bool-cases (any_item asks_inspect items)) [
      | inl i ↦ rw (b, i) refl
      | inr i ↦ rw (b, i) refl
    ]
    | inr b ↦ elim (Bool-cases (any_item asks_inspect items)) [
      | inl i ↦ rw (b, i) refl
      | inr i ↦ rw (b, i) refl
    ]
  ]

-- The session that `main` has prepared.
abbrev first_session : {N : Type 0} → ⦃fl : Floats N⦄ → Options → Bytes → Session N
first_session o source = prepare o (set_send_event (add_script new_session o.script_file source).0)

first_session-ready :
    (N : Type 0) ⦃fl : Floats N⦄ (o : Options) (source : Bytes)
    → let s = first_session {N = N} o source in
      (s.enabled ≡ o.inspect_brk)
      × (s.pause_on_start ≡ o.inspect_brk)
      × (get_script_by_id s.scripts (codes "1") ≡ some (new_script 1 o.script_file source))
unfolding prepare set_send_event set_enabled set_pause_on_start add_script new_script
    get_script_by_id nat_to_string equal
first_session-ready N o source = elim (Bool-cases o.inspect_brk) [
  | inl b ↦ rw b (refl, refl, refl)
  | inr b ↦ rw b (refl, refl, refl)
]

module _ {S L : Type 0} (world : World S L) (sys : System L) (unused : S) {N : Type 0}
    ⦃fl : Floats N⦄ where
  connect-ne-0 :
      (o : Options) (source : Bytes) (s : Session N) (w : Option (Waited S L))
      → connect world sys unused o source s w ≢ exits 0
  unfolding connect
  connect-ne-0 o source s none = λ q. ground arith
  connect-ne-0 o source s (some w) = λ q. ground arith

  launch_script-ne-0 :
      (o : Options) (source : Bytes) → launch_script world sys unused {N = N} o source ≢ exits 0
  unfolding launch_script
  launch_script-ne-0 o source q =
      let (s, id, events) = add_script (new_session {N = N}) o.script_file source in
      elim (Option-cases (start_server sys o.port)) [
        | inl e ↦ ground arith
        | inr (l, e) ↦
            let target : Target = record {
              name = o.script_file;
              url = to_file_url o.script_file;
              port = o.port;
            } in
            let waited =
              wait_for_connection world.accept world.sock world.send target world.patience l
                (no_client unused) in
            let later = connect-ne-0 o source (set_send_event s) waited in ground arith
      ]

  launch_options-ne-0 : (o : Options) → launch_options world sys unused {N = N} o ≢ exits 0
  unfolding launch_options
  launch_options-ne-0 o q =
      let source = read_file_contents sys o.script_file in
      let later =
        launch_script-ne-0
          (default_inspect (record o { script_file = absolute_path sys o.script_file })) source in
      ground arith

  -- The program ends with exit code 0 before its threads are started exactly where the arguments ask
  -- for help.
  launch-exits :
      (args : List Bytes)
      → (launch world sys unused {N = N} args ≡ exits 0)
        ↔ (parse_arguments default_options args ≡ none)
  unfolding launch
  launch-exits args = (
    (λ q. elim (Option-cases (parse_arguments default_options args)) [
      | inl e ↦ e
      | inr (o, e) ↦ let later = launch_options-ne-0 o in ground arith
    ]),
    λ e. ground arith,
  )

  launch_script-waited :
      (o : Options) (source : Bytes) (l : L) (w : Waited S L)
      → sys.new_runtime ≡ true
      → sys.new_context ≡ true
      → start_server sys o.port ≡ some l
      → wait_for_connection world.accept world.sock world.send
          (record { name = o.script_file; url = to_file_url o.script_file; port = o.port })
          world.patience
          l
          (no_client unused)
        ≡ some w
      → w.success ≡ true
      → launch_script world sys unused {N = N} o source
        ≡ launched (record {
          options = o;
          source = source;
          thread = record {
            connection = w.connection;
            listener = w.listener;
            handler =
                new_handler
                  (prepare o (set_send_event (add_script new_session o.script_file source).0));
            msg_count = 0;
            sent = map plain w.sent;
          };
        })
  unfolding launch_script connect
  launch_script-waited o source l w rt ctx started waited success =
      simp (rt, ctx, started, waited, success)

  launch_options-next :
      (o : Options)
      → is_empty o.script_file ≡ false
      → is_empty (read_file_contents sys o.script_file) ≡ false
      → launch_options world sys unused {N = N} o
        ≡ launch_script world sys unused
            (default_inspect (record o { script_file = absolute_path sys o.script_file }))
            (read_file_contents sys o.script_file)
  unfolding launch_options
  launch_options-next o named filled = rw (named, filled) refl

  launch-parsed :
      (args : List Bytes) (o : Options)
      → parse_arguments default_options args ≡ some o
      → launch world sys unused {N = N} args ≡ launch_options world sys unused o
  unfolding launch
  launch-parsed args o e = ground arith

  -- A command line that does not ask for help and names a script that can be read, and is not empty,
  -- comes to a launch, if the engine and the server start and, of the clients that come, the first
  -- whose handshake succeeds comes within the fuel: with the options that are said, `--inspect-brk`
  -- where neither option is, that client as the connection, and a session that has the script under
  -- the id 1 and is enabled, and will pause at the start, just where `--inspect-brk` holds.
  pub launch-line :
      (items : List Item) (before : List S) (s s' : S) (l l₁ l₂ : L) (response : Bytes)
      → All IsItem items
      → is_empty (last_script [] items) ≡ false
      → is_empty (read_file_contents sys (last_script [] items)) ≡ false
      → sys.new_runtime ≡ true
      → sys.new_context ≡ true
      → start_server sys (last_port (pos 9229) items) ≡ some l
      → Accepts world.accept l before l₁
      → AreDismissed world.sock world.send (target_said sys items) before
      → world.accept l₁ ≡ some (s, l₂)
      → serve world.sock world.send (target_said sys items) s ≡ some (upgraded response s')
      → length before < world.patience
      → (run : Launch S L N) × (launch world sys unused (line items) ≡ launched run)
        × (run.options ≡ final_options sys items)
        × (run.source ≡ read_file_contents sys (last_script [] items))
        × (run.thread.connection ≡ open_at s')
        × (run.thread.listener ≡ l₂)
        × (run.thread.sent
            ≡ map plain (
                all_responses world.sock world.send (target_said sys items) before
                ++ (response ∷ [])))
        × (run.thread.handler.session.enabled ≡ (final_options sys items).inspect_brk)
        × (run.thread.handler.session.pause_on_start ≡ (final_options sys items).inspect_brk)
        × (get_script_by_id run.thread.handler.session.scripts (codes "1")
            ≡ some (new_script 1 (final_options sys items).script_file run.source))
  unfolding described
  launch-line items before s s' l l₁ l₂ response valid named filled rt ctx started acc dis a up
        few =
      let o = final_options sys items in
      let source = read_file_contents sys (last_script [] items) in
      let waited =
        wait_for_connection-first world.accept world.sock world.send (target_said sys items) before
          l l₁ l₂ s s' response world.patience (no_client unused) acc dis a up few in
      let said = (parse_arguments-line items [] default_options valid).0 in
      let behind = launch_script-waited o source l _ rt ctx started waited refl in
      let reached =
        launch-parsed (line items) (described default_options items) said
        ∙ launch_options-next (described default_options items) named filled
        ∙ ap (λ p. launch_script world sys unused p source) (default_inspect-described sys items)
        ∙ behind in
      let (enabled, pausing, found) = first_session-ready N o source in
      (_, reached, refl, refl, refl, refl, refl, enabled, pausing, found)
