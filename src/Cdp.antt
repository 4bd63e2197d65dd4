-- ===== src/Cdp.antt =====
-- debugger/src/cdp_handler.h and cdp_handler.cpp: the requests of the DevTools client. A handler
-- takes the state and the `params` of a request, and answers the new state, the events it sends on
-- the way, and the result. Logging is left out.
pub mod Requests
pub mod Runtime
pub mod Dispatch
pub mod Replies
pub mod Breakpoints
pub mod Reachable
pub mod Hitting
use quick_js_debugger.Prelude.{Bool, List, [], ◌∷◌, if◌then◌else◌}
use quick_js_debugger.Prelude.Int.{ℤ}
use quick_js_debugger.Text.Bytes.{Bytes, codes}
use quick_js_debugger.Json.Floats.{Floats}
use quick_js_debugger.Json.Value.{
  Value, Fields, null, string, object, end, object_of, has, at, get_bool, get_string, get_int, int,
}
use quick_js_debugger.Session.State.{Session, Event}

-- CDPHandler, with the session that it works on.
pub record Handler (N : Type 0) : Type 0 where
  pub session : Session N
  pub runtime_enabled : Bool
  pub debugger_enabled : Bool

pub record Handled (N : Type 0) : Type 0 where
  pub handler : Handler N
  pub events : List (Event N)
  pub result : Value N

module _ {N : Type 0} where
  -- A handler that only changes the session and answers an empty object.
  abbrev pub done : Handler N → Session N → Handled N
  done h s = record { handler = record h { session = s }; events = []; result = object end }

  -- A handler that only answers.
  abbrev pub answer : Handler N → Value N → Handled N
  answer h v = record { handler = h; events = []; result = v }

  -- `params.has(key) ? params[key].get_…() : def`.
  abbrev pub string_or : Bytes → Value N → Bytes → Bytes
  string_or def params key = if has params key then get_string (at params key) else def

  abbrev pub bool_or : Bool → Value N → Bytes → Bool
  bool_or def params key = if has params key then get_bool (at params key) else def

  abbrev pub int_or : ⦃fl : Floats N⦄ → ℤ → Value N → Bytes → ℤ
  int_or def params key = if has params key then get_int (at params key) else def

  -- The messages that `send_response` and `send_event` serialize.
  unfoldable pub response : ⦃fl : Floats N⦄ → ℤ → Value N → Value N
  response id result = object_of ((codes "id", int id) ∷ (codes "result", result) ∷ [])

  -- The message that `send_error` serializes, which no handler calls.
  unfoldable error_response : ⦃fl : Floats N⦄ → ℤ → ℤ → Bytes → Value N
  error_response id code message = object_of (
      (codes "id", int id)
      ∷ (
        codes "error",
        object_of ((codes "code", int code) ∷ (codes "message", string message) ∷ []),
      )
      ∷ [])

  unfoldable pub event_message : Event N → Value N
  event_message ev =
      object_of ((codes "method", string ev.method) ∷ (codes "params", ev.params) ∷ [])
