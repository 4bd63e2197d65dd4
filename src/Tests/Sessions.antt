-- ===== src/Tests/Sessions.antt =====
-- A process that has added two scripts of one base name, set a breakpoint and reached it.
use quick_js_debugger.Prelude.{
  ℕ, Bool, List, [], ◌∷◌, some, none, true, false, arith, ◌==◌, if◌then◌else◌, ◌≡◌, ◌≢◌, ◌⊎◌,
}
use quick_js_debugger.Prelude.Int.{ℤ, pos}
use quick_js_debugger.Text.Bytes.{codes}
use quick_js_debugger.Json.Value.{Value, string, number, object, field, end}
use quick_js_debugger.Session.Paths.{normalize_url}
use quick_js_debugger.Session.Scripts.{add_script, find_script_id}
use quick_js_debugger.Session.Scripts.Files.{AllOther, FirstOf, find_script_id-add_script}
use quick_js_debugger.Session.Registry.{
  Registry, register_for_context, unregister_context, put_session, trace_context,
  trace_context-register,
}
use quick_js_debugger.Session.State.{Session, Event, ScriptInfo, new_session}
use quick_js_debugger.Session.WellFormed.{IsWellFormed}
use quick_js_debugger.Session.Trace.{debug_trace_handler}
use quick_js_debugger.Cdp.{Handler}
use quick_js_debugger.Cdp.Dispatch.{handle_request}
use quick_js_debugger.Cdp.Reachable.{
  new_process, with_session, add, request, statement, Reachable, fresh, then_call,
}
use quick_js_debugger.Cdp.Reachable.Invariant.{Reachable-IsWellFormed}
use quick_js_debugger.Tests.Machine.{whole_floats, posix, engine}

-- The first script is added, a breakpoint is set, and the statement at it is reached.
abbrev loaded : Handler ℤ
loaded = with_session new_process (add_script new_session (codes "/w/a.js") (codes "f();")).0

abbrev breakpoint_request : Value ℤ
breakpoint_request = object (
    field (codes "method") (string (codes "Debugger.setBreakpointByUrl")) (
      field (codes "params")
        (object (
          field (codes "lineNumber") (number (pos 0))
            (field (codes "url") (string (codes "file:///w/a.js")) end)))
        end))

abbrev set_up : Handler ℤ
set_up = (handle_request engine posix loaded breakpoint_request).0

abbrev stopped : Handler ℤ
stopped =
    with_session set_up
      (debug_trace_handler engine posix set_up.session (some (codes "/w/a.js")) none (pos 1)
        (pos 1)).0

stopped-Reachable : Reachable ℕ posix stopped
stopped-Reachable =
    then_call
      (then_call (then_call fresh (add (codes "/w/a.js") (codes "f();")))
        (request engine breakpoint_request))
      (statement engine (some (codes "/w/a.js")) none (pos 1) (pos 1))

Reachable-IsWellFormed_example : IsWellFormed stopped.session
Reachable-IsWellFormed_example = Reachable-IsWellFormed posix stopped-Reachable

find_script_id-add_script_example :
    (AllOther posix (normalize_url (codes "/v/a.js")) loaded.session.scripts
      × (find_script_id posix
            (add_script loaded.session (codes "/v/a.js") (codes "g();")).0.scripts
            (codes "/v/a.js")
          ≡ (add_script loaded.session (codes "/v/a.js") (codes "g();")).1))
    ⊎ ((first : ScriptInfo) × FirstOf posix
          (normalize_url (codes "/v/a.js"))
          loaded.session.scripts
          first
        × (find_script_id posix
              (add_script loaded.session (codes "/v/a.js") (codes "g();")).0.scripts
              (codes "/v/a.js")
            ≡ first.id)
        × (first.id ≢ (add_script loaded.session (codes "/v/a.js") (codes "g();")).1))
find_script_id-add_script_example =
    find_script_id-add_script posix loaded.session (codes "/v/a.js") (codes "g();")
      (Reachable-IsWellFormed {V = ℕ} posix
        (then_call fresh (add (codes "/w/a.js") (codes "f();")))).registered

-- Context 1 is about to be registered for session 10; context 2 is that of session 20.
abbrev registry : Registry
registry = (2, 20) ∷ []

-- Session 10 has been asked to pause.
abbrev sessions : ℕ → Session ℤ
sessions id =
    if id == 10 then record new_session { enabled = true; pause_requested = true } else new_session

-- A statement of `/w/a.js`.
abbrev traced : Registry → ℕ → (ℕ → Session ℤ) × List (Event ℤ) × Bool
traced reg ctx =
    trace_context engine posix reg sessions ctx (some (codes "/w/a.js")) none (pos 1) (pos 1)

trace_context-register_example :
    (traced (register_for_context registry 1 10) 1 ≡ (
      let (s, events, stopped) =
        debug_trace_handler engine posix
          (sessions 10)
          (some (codes "/w/a.js"))
          none
          (pos 1)
          (pos 1) in
      (put_session 10 s sessions, events, stopped)))
    × ((i : ℕ) → i ≢ 10 → (traced (register_for_context registry 1 10) 1).0 i ≡ sessions i)
    × (traced (register_for_context registry 1 10) 2 ≡ traced registry 2)
    × (traced (unregister_context registry 1) 1 ≡ (sessions, [], false))
trace_context-register_example =
    trace_context-register engine posix registry sessions 1 2 10 (some (codes "/w/a.js")) none
      (pos 1) (pos 1) (omega arith)
