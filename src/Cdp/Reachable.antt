-- ===== src/Cdp/Reachable.antt =====
-- The sessions that a process can get to: from a new one, by calls of the trace handler at the
-- statements of a script, by the ends of its pauses, by the client's requests, and by the calls that
-- `main` and the WebSocket thread make. Each call is one step.
pub mod Invariant
use quick_js_debugger.Prelude.{◌≡◌, Bool, false, Option}
use quick_js_debugger.Prelude.Int.{ℤ}
use quick_js_debugger.Text.Bytes.{Bytes}
use quick_js_debugger.Json.Floats.{Floats}
use quick_js_debugger.Json.Value.{Value}
use quick_js_debugger.Session.Control.{
  set_enabled, set_pause_on_start, set_send_event, start_waiting, on_disconnect,
}
use quick_js_debugger.Session.Engine.{Engine}
use quick_js_debugger.Session.Paths.{Platform}
use quick_js_debugger.Session.Scripts.{add_script}
use quick_js_debugger.Session.State.{Session, new_session}
use quick_js_debugger.Session.Trace.{debug_trace_handler, leave_pause}
use quick_js_debugger.Cdp.{Handler}
use quick_js_debugger.Cdp.Dispatch.{handle_request}

module _ {N : Type 0} where
  abbrev pub with_session : Handler N → Session N → Handler N
  with_session h s = record h { session = s }

  -- `CDPHandler` on `DebugSession()`.
  abbrev pub new_process : Handler N
  new_process = record { session = new_session; runtime_enabled = false; debugger_enabled = false }

module _ {N : Type 0} (V : Type 0) ⦃fl : Floats N⦄ (pf : Platform) where
  -- One call; `V` is JSValue. The engine may be another one each time: a script runs in between.
  pub data Call (h : Handler N) : Handler N → Type 0 where
    add : (url source : Bytes) → Call h (with_session h (add_script h.session url source).0)
    request : (e : Engine N V) (msg : Value N) → Call h (handle_request e pf h msg).0
    statement :
        (e : Engine N V) (filename funcname : Option Bytes) (line col : ℤ)
        → Call h (with_session h (debug_trace_handler e pf h.session filename funcname line col).0)
    end_pause : h.session.paused ≡ false → Call h (with_session h (leave_pause h.session).0)
    disconnect : Call h (with_session h (on_disconnect h.session))
    wait : Call h (with_session h (start_waiting h.session))
    pause_at_start : (v : Bool) → Call h (with_session h (set_pause_on_start h.session v))
    enable : (v : Bool) → Call h (with_session h (set_enabled h.session v))
    set_callback : Call h (with_session h (set_send_event h.session))

  pub data Reachable : Handler N → Type 0 where
    fresh : Reachable new_process
    then_call : {h h' : Handler N} → Reachable h → Call h h' → Reachable h'
