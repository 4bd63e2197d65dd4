-- ===== src/Tests/Requests.antt =====
-- Requests of a client.
use quick_js_debugger.Prelude.{sym, ◌∙◌, ℕ, none, ◌≡◌, refl, true, false, [], ◌∷◌, arith}
use quick_js_debugger.Prelude.Int.{ℤ, pos, ◌+ℤ◌}
use quick_js_debugger.Text.Bytes.{codes, equal}
use quick_js_debugger.Text.Search.{starts_with}
use quick_js_debugger.Json.Value.{
  Value, get_string, string, number, object, field, end, has, at, lookup,
}
use quick_js_debugger.Session.Breakpoints.{
  check_breakpoint, set_breakpoint_by_url, new_breakpoint, put, hits,
}
use quick_js_debugger.Session.Breakpoints.Hits.{check_breakpoint_of_FirstHit}
use quick_js_debugger.Session.Trace.Verdicts.{Pauses}
use quick_js_debugger.Session.Breakpoints.Ids.{IsNumbered}
use quick_js_debugger.Session.Paths.{normalize_url, to_file_url}
use quick_js_debugger.Session.State.{PauseReason, Session, new_session}
use quick_js_debugger.Session.Trace.{evaluate_condition}
use quick_js_debugger.Session.Trace.Pauses.{Stops}
use quick_js_debugger.Session.Trace.Runs.{Statement, Executes, GoesOnAt, call}
use quick_js_debugger.Cdp.Hitting.{requested, breakpoint-Stops}
use quick_js_debugger.Cdp.{Handler, int_or, string_or}
use quick_js_debugger.Cdp.Requests.{
  on_debugger_set_breakpoint_by_url, on_debugger_remove_breakpoint,
}
use quick_js_debugger.Cdp.Breakpoints.{
  on_debugger_remove_breakpoint-on_debugger_set_breakpoint_by_url,
}
use quick_js_debugger.Tests.Machine.{whole_floats, posix, engine}

abbrev handler : Handler ℤ
handler = record { session = new_session; runtime_enabled = false; debugger_enabled = true }

abbrev params : Value ℤ
params = object (
    field (codes "lineNumber") (number (pos 4))
      (field (codes "url") (string (codes "file:///w/a.js")) end))

url_given : has params (codes "url") ≡ true
unfolding has lookup equal
url_given = refl

announced : get_string (at params (codes "url")) ≡ to_file_url (normalize_url (codes "/w/a.js"))
unfolding at lookup equal to_file_url starts_with
announced = refl

new_session-IsNumbered : IsNumbered (new_session {N = ℤ})
new_session-IsNumbered = record { next_pos = omega arith; between = tt }

abbrev removal : Value ℤ
removal = object (
    field (codes "breakpointId")
      (at (on_debugger_set_breakpoint_by_url posix handler params).result (codes "breakpointId"))
      end)

id_given : has removal (codes "breakpointId") ≡ true
unfolding has lookup equal
id_given = refl

id_returned :
    at removal (codes "breakpointId")
    ≡ at (on_debugger_set_breakpoint_by_url posix handler params).result (codes "breakpointId")
unfolding at lookup equal
id_returned = refl

on_debugger_remove_breakpoint-on_debugger_set_breakpoint_by_url_example :
    (on_debugger_remove_breakpoint
      (on_debugger_set_breakpoint_by_url posix handler params).handler
      removal).handler
    ≡ record handler { session = record new_session { next_bp_id = 2 } }
on_debugger_remove_breakpoint-on_debugger_set_breakpoint_by_url_example =
    on_debugger_remove_breakpoint-on_debugger_set_breakpoint_by_url posix handler params removal
      new_session-IsNumbered (omega arith) id_given id_returned

abbrev enable : Value ℤ
enable = object (
    field (codes "id") (number (pos 1))
      (field (codes "method") (string (codes "Runtime.enable")) end))

-- Enabled, with breakpoints on.
abbrev enabled_handler : Handler ℤ
enabled_handler = record handler { session = record new_session { enabled = true } }

-- The statement that the breakpoint is on.
abbrev at_breakpoint : Statement ℤ ℕ
at_breakpoint = record {
  engine = engine;
  file = codes "/w/a.js";
  funcname = none;
  line = pos 5;
  col = pos 1;
}

no_condition : evaluate_condition engine (string_or [] params (codes "condition")) ≡ true
unfolding evaluate_condition has lookup equal
no_condition = refl

line_asked : at_breakpoint.line ≡ int_or (pos 0) params (codes "lineNumber") +ℤ pos 1
unfolding has at lookup equal
line_asked = refl

-- An earlier statement, where the script goes on.
abbrev earlier : Statement ℤ ℕ
earlier = record at_breakpoint { line = pos 2 }

earlier_missed :
    check_breakpoint posix (requested posix enabled_handler params) earlier.file earlier.line
    ≡ false
unfolding check_breakpoint on_debugger_set_breakpoint_by_url set_breakpoint_by_url new_breakpoint
    put hits has at lookup equal
earlier_missed = refl

earlier-GoesOnAt : GoesOnAt posix (requested posix enabled_handler params) earlier
unfolding on_debugger_set_breakpoint_by_url set_breakpoint_by_url
earlier-GoesOnAt = (refl, no_reason)
  where
    no_reason :
        (r : PauseReason) (id : ℕ)
        → ¬ Pauses engine posix
            (requested posix enabled_handler params)
            earlier.file
            earlier.line
            r
            id
    no_reason PauseReason.pause_request id (_, q) = cc
    no_reason PauseReason.entry id (_, _, o) = cc
    no_reason PauseReason.breakpoint id (_, _, on, (bp, first, _)) =
        let hit =
          (check_breakpoint_of_FirstHit posix earlier.file earlier.line
            (requested posix enabled_handler params) id bp on first).0 in
        let clash : true ≡ false = sym hit ∙ earlier_missed in cc
    no_reason PauseReason.step id (_, _, _, _, ends) = ends

breakpoint-Stops_example :
    (t : Session ℤ) × Executes posix (requested posix enabled_handler params) (earlier ∷ []) t
    × Stops engine posix t (call posix t at_breakpoint)
breakpoint-Stops_example =
    breakpoint-Stops posix enabled_handler params (earlier ∷ []) at_breakpoint refl refl url_given
      announced no_condition tt (earlier-GoesOnAt, tt) refl line_asked
