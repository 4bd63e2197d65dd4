-- ===== src/Cdp/Requests.antt =====
-- The handlers of the Debugger domain.
use quick_js_debugger.Prelude.{
  ℕ, zero, suc, Bool, true, false, [], ◌∷◌, map, Option, none, some, if◌then◌else◌, drop,
}
use quick_js_debugger.Prelude.Int.{ℤ, pos, pos_part, ◌+ℤ◌, ◌-ℤ◌, leb_ℤ}
use quick_js_debugger.Text.Bytes.{Bytes, codes}
use quick_js_debugger.Text.Search.{starts_with}
use quick_js_debugger.Json.Floats.{Floats}
use quick_js_debugger.Json.Value.{
  Value, string, array, nil, object_of, has, at, get_string, get_int, int, push,
}
use quick_js_debugger.Session.Breakpoints.{
  set_breakpoint_by_url, remove_breakpoint, set_breakpoints_active,
}
use quick_js_debugger.Session.Control.{
  resume, step_over, step_into, step_out, request_pause, set_enabled,
}
use quick_js_debugger.Session.Engine.{Engine}
use quick_js_debugger.Session.Evaluate.{evaluate_on_call_frame}
use quick_js_debugger.Session.Paths.{Platform}
use quick_js_debugger.Session.Scripts.{script_parsed, get_script_by_id}
use quick_js_debugger.Session.State.{ScriptInfo}
use quick_js_debugger.Cdp.{Handler, Handled, done, answer, string_or, bool_or, int_or}

-- The prefix of a file URL is taken off a plain url.
unfoldable pub strip_file_url : Bytes → Bytes
strip_file_url url =
    if starts_with (codes "file:///") url
    then drop 8 url
    else if starts_with (codes "file://") url
    then drop 7 url
    else url

abbrev source_of : Option ScriptInfo → Bytes
source_of none = []
source_of (some si) = si.source

-- How often the loop runs.
range_size : ℤ → ℤ → ℕ
range_size start_line end_line =
    if leb_ℤ start_line end_line then suc (pos_part (end_line -ℤ start_line)) else 0

module _ {N : Type 0} where
  -- The url or regular expression of a breakpoint, and whether it is the latter.
  unfoldable pub requested_url : Value N → Bytes × Bool
  unfolding strip_file_url
  requested_url params =
      if has params (codes "url")
      then (strip_file_url (get_string (at params (codes "url"))), false)
      else if has params (codes "urlRegex")
      then (get_string (at params (codes "urlRegex")), true)
      else (strip_file_url [], false)

  unfoldable pub on_debugger_disable : Handler N → Value N → Handled N
  on_debugger_disable h params =
      done (record h { debugger_enabled = false }) (set_enabled h.session false)

  unfoldable pub on_debugger_remove_breakpoint : Handler N → Value N → Handled N
  on_debugger_remove_breakpoint h params =
      done h (remove_breakpoint h.session (string_or [] params (codes "breakpointId"))).0

  unfoldable pub on_debugger_resume : Handler N → Value N → Handled N
  on_debugger_resume h params = done h (resume h.session)

  unfoldable pub on_debugger_step_over : Handler N → Value N → Handled N
  on_debugger_step_over h params = done h (step_over h.session)

  unfoldable pub on_debugger_step_into : Handler N → Value N → Handled N
  on_debugger_step_into h params = done h (step_into h.session)

  unfoldable pub on_debugger_step_out : Handler N → Value N → Handled N
  on_debugger_step_out h params = done h (step_out h.session)

  unfoldable pub on_debugger_pause : Handler N → Value N → Handled N
  on_debugger_pause h params = done h (request_pause h.session)

  unfoldable pub on_debugger_get_script_source : Handler N → Value N → Handled N
  on_debugger_get_script_source h params = answer h (
      object_of (
        (
          codes "scriptSource",
          string (
              source_of
                (get_script_by_id h.session.scripts (string_or [] params (codes "scriptId")))),
        )
        ∷ []))

  unfoldable pub on_debugger_set_breakpoints_active : Handler N → Value N → Handled N
  on_debugger_set_breakpoints_active h params =
      done h (set_breakpoints_active h.session (bool_or true params (codes "active")))

  unfoldable pub on_debugger_set_pause_on_exceptions : Handler N → Value N → Handled N
  on_debugger_set_pause_on_exceptions h params = done h h.session

module _ {N : Type 0} ⦃fl : Floats N⦄ where
  unfoldable pub on_debugger_enable : Handler N → Value N → Handled N
  on_debugger_enable h params = record {
    handler = record h { debugger_enabled = true; session = set_enabled h.session true };
    events = map script_parsed h.session.scripts;
    result = object_of ((codes "debuggerId", string (codes "quickjs-debugger-1")) ∷ []);
  }

  -- The loop over the lines of a range, from a line on.
  push_locations : Bytes → ℤ → ℕ → Value N → Value N
  push_locations sid line zero locations = locations
  push_locations sid line (suc n) locations = push_locations sid (line +ℤ pos 1) n (
      push locations (
        object_of (
          (codes "scriptId", string sid)
          ∷ (codes "lineNumber", int line)
          ∷ (codes "columnNumber", int (pos 0))
          ∷ [])))

  range_locations : Value N → Value N → Value N
  unfolding push_locations range_size
  range_locations params start =
      let start_line = int_or (pos 0) start (codes "lineNumber") in
      let end_line =
        if has params (codes "end")
        then get_int (at (at params (codes "end")) (codes "lineNumber"))
        else start_line +ℤ pos 1 in
      push_locations (string_or [] start (codes "scriptId")) start_line
        (range_size start_line end_line) (array nil)

  unfoldable pub on_debugger_get_possible_breakpoints : Handler N → Value N → Handled N
  unfolding range_locations
  on_debugger_get_possible_breakpoints h params = answer h (
      object_of (
        (
          codes "locations",
          if has params (codes "start")
              then range_locations params (at params (codes "start"))
              else array nil,
        )
        ∷ []))

  module _ (pf : Platform) where
    unfoldable pub on_debugger_set_breakpoint_by_url : Handler N → Value N → Handled N
    unfolding requested_url
    on_debugger_set_breakpoint_by_url h params =
        let (url, is_regex) = requested_url params in
        let (s, result) =
          set_breakpoint_by_url pf h.session url (int_or (pos 0) params (codes "lineNumber"))
            (int_or (pos 0) params (codes "columnNumber")) is_regex
            (string_or [] params (codes "condition")) in
        record { handler = record h { session = s }; events = []; result = result }

  module _ {V : Type 0} (e : Engine N V) where
    unfoldable pub on_debugger_evaluate_on_call_frame : Handler N → Value N → Handled N
    on_debugger_evaluate_on_call_frame h params =
        let (s, result) =
          evaluate_on_call_frame e h.session (string_or (codes "0") params (codes "callFrameId"))
            (string_or [] params (codes "expression")) in
        record { handler = record h { session = s }; events = []; result = result }
