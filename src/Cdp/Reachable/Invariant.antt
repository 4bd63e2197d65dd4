-- ===== src/Cdp/Reachable/Invariant.antt =====
-- Every session that a process can get to is well-formed.
use quick_js_debugger.Prelude.{
  refl, Bool, true, false, List, [], ◌∷◌, Option, none, some, if◌then◌else◌,
}
use quick_js_debugger.Text.Bytes.{Bytes, equal, codes}
use quick_js_debugger.Json.Floats.{Floats}
use quick_js_debugger.Json.Value.{Value, is_object}
use quick_js_debugger.Session.Control.{
  resume, step_over, step_into, step_out, request_pause, set_enabled, set_pause_on_start,
  set_send_event, run_if_waiting, on_disconnect,
}
use quick_js_debugger.Session.Breakpoints.{set_breakpoints_active}
use quick_js_debugger.Session.Engine.{Engine}
use quick_js_debugger.Session.Paths.{Platform}
use quick_js_debugger.Session.Trace.{leave_pause}
use quick_js_debugger.Session.WellFormed.{
  IsWellFormed, new_session-IsWellFormed, unchanged, start_waiting-IsWellFormed,
  add_script-IsWellFormed, set_breakpoint_by_url-IsWellFormed, remove_breakpoint-IsWellFormed,
  evaluate_on_call_frame-IsWellFormed, debug_trace_handler-IsWellFormed,
}
use quick_js_debugger.Cdp.{Handler, Handled, done, string_or}
use quick_js_debugger.Cdp.Requests.{
  on_debugger_enable, on_debugger_disable, on_debugger_set_breakpoint_by_url,
  on_debugger_remove_breakpoint, on_debugger_resume, on_debugger_step_over, on_debugger_step_into,
  on_debugger_step_out, on_debugger_pause, on_debugger_get_script_source,
  on_debugger_set_breakpoints_active, on_debugger_get_possible_breakpoints,
  on_debugger_evaluate_on_call_frame, on_debugger_set_pause_on_exceptions,
}
use quick_js_debugger.Cdp.Runtime.{
  on_runtime_enable, on_runtime_disable, on_runtime_get_properties, on_runtime_run_if_waiting,
  on_runtime_evaluate, on_runtime_call_function_on, on_runtime_release_object_group,
  on_runtime_get_isolate_id, on_profiler_enable, on_profiler_disable,
}
use quick_js_debugger.Cdp.Dispatch.{
  Handlers, find_handler, handlers, dispatch, handle_request, request_params,
}
use quick_js_debugger.Cdp.Reachable.{
  Call, add, request, statement, end_pause, disconnect, wait, pause_at_start, enable, set_callback,
  Reachable, fresh, then_call,
}

module _ {N : Type 0} where
  -- A handler of a request that keeps sessions well-formed.
  abbrev Keeps : (Handler N → Value N → Handled N) → Type 0
  Keeps f =
      (h : Handler N) (params : Value N)
      → IsWellFormed h.session
      → IsWellFormed (f h params).handler.session

  abbrev KeptBy : Option (Handler N → Value N → Handled N) → Type 0
  KeptBy none = Unit
  KeptBy (some f) = Keeps f

  if_KeptBy :
      (b : Bool) (x y : Option (Handler N → Value N → Handled N))
      → KeptBy x
      → KeptBy y
      → KeptBy (if b then x else y)
  if_KeptBy true x y hx hy = hx
  if_KeptBy false x y hx hy = hy

  -- Handlers that keep sessions well-formed, one after the other.
  infixr 5 ◌also◌
  data AllKeep : Handlers N → Type 0 where
    ended : AllKeep []
    ◌also◌ :
        {name : Bytes} {f : Handler N → Value N → Handled N} {fs : Handlers N}
        → Keeps f
        → AllKeep fs
        → AllKeep ((name, f) ∷ fs)

  find_handler-KeptBy :
      (method : Bytes) (fs : Handlers N) → AllKeep fs → KeptBy (find_handler method fs)
  unfolding find_handler
  find_handler-KeptBy method [] ended = tt
  find_handler-KeptBy method ((name, f) ∷ fs) (k also ks) =
      if_KeptBy (equal method name) (some f) (find_handler method fs) k
        (find_handler-KeptBy method fs ks)

module _ {N V : Type 0} ⦃fl : Floats N⦄ (e : Engine N V) (pf : Platform) where
  handlers-Keep : AllKeep (handlers e pf)
  unfolding handlers on_debugger_enable on_debugger_disable on_debugger_set_breakpoint_by_url
      on_debugger_remove_breakpoint on_debugger_resume on_debugger_step_over on_debugger_step_into
      on_debugger_step_out on_debugger_pause on_debugger_get_script_source
      on_debugger_set_breakpoints_active on_debugger_get_possible_breakpoints
      on_debugger_evaluate_on_call_frame on_debugger_set_pause_on_exceptions on_runtime_enable
      on_runtime_disable on_runtime_get_properties on_runtime_run_if_waiting on_runtime_evaluate
      on_runtime_call_function_on on_runtime_release_object_group on_runtime_get_isolate_id
      on_profiler_enable on_profiler_disable set_enabled resume step_over step_into step_out
      request_pause set_breakpoints_active run_if_waiting
  handlers-Keep =
      (λ h params w. unchanged h.session _ refl w)
      also (λ h params w. unchanged h.session _ refl w)
      also (λ h params w. set_breakpoint_by_url-IsWellFormed pf h.session _ _ _ _ _ w)
      also (λ h params w. remove_breakpoint-IsWellFormed pf h.session _ w)
      also (λ h params w. unchanged h.session _ refl w)
      also (λ h params w. unchanged h.session _ refl w)
      also (λ h params w. unchanged h.session _ refl w)
      also (λ h params w. unchanged h.session _ refl w)
      also (λ h params w. unchanged h.session _ refl w)
      also (λ h params w. w)
      also (λ h params w. unchanged h.session _ refl w)
      also (λ h params w. w)
      also (λ h params w. evaluate_on_call_frame-IsWellFormed e h.session _ _ w)
      also (λ h params w. w)
      also (λ h params w. w)
      also (λ h params w. w)
      also (λ h params w. w)
      also (λ h params w. unchanged h.session _ refl w)
      also (λ h params w. w)
      also (λ h params w. w)
      also (λ h params w. w)
      also (λ h params w. w)
      also (λ h params w. w)
      also (λ h params w. w)
      also ended

  dispatch-Keeps : (method : Bytes) → Keeps (λ h params. dispatch e pf h method params)
  unfolding dispatch
  dispatch-Keeps method h params w =
      handled (find_handler method (handlers e pf))
        (find_handler-KeptBy method (handlers e pf) handlers-Keep)
    where
      handled :
          (o : Option (Handler N → Value N → Handled N))
          → KeptBy o
          → IsWellFormed
              (elim o as (λ _. Handled N) [
                | none ↦ done h h.session
                | some f ↦ f h params
              ]).handler.session
      handled none k = w
      handled (some f) k = k h params w

  handle_request-IsWellFormed :
      (h : Handler N) (msg : Value N)
      → IsWellFormed h.session
      → IsWellFormed (handle_request e pf h msg).0.session
  unfolding handle_request
  handle_request-IsWellFormed h msg w =
      chosen (is_object msg) _ (h, [])
        (dispatch-Keeps (string_or [] msg (codes "method")) h (request_params msg) w) w
    where
      chosen :
          (b : Bool) (x y : Handler N × List (Value N))
          → IsWellFormed x.0.session
          → IsWellFormed y.0.session
          → IsWellFormed (if b then x else y).0.session
      chosen true x y hx hy = hx
      chosen false x y hx hy = hy

module _ {N V : Type 0} ⦃fl : Floats N⦄ (pf : Platform) where
  Call-IsWellFormed :
      {h h' : Handler N} → IsWellFormed h.session → Call V pf h h' → IsWellFormed h'.session
  unfolding leave_pause on_disconnect set_pause_on_start set_enabled set_send_event
  Call-IsWellFormed {h} w (add url source) = add_script-IsWellFormed h.session url source w
  Call-IsWellFormed {h} w (request e msg) = handle_request-IsWellFormed e pf h msg w
  Call-IsWellFormed {h} w (statement e filename funcname line col) =
      debug_trace_handler-IsWellFormed e pf h.session filename funcname line col w
  Call-IsWellFormed {h} w (end_pause off) = unchanged h.session _ refl w
  Call-IsWellFormed {h} w disconnect = unchanged h.session _ refl w
  Call-IsWellFormed {h} w wait = start_waiting-IsWellFormed h.session w
  Call-IsWellFormed {h} w (pause_at_start v) = unchanged h.session _ refl w
  Call-IsWellFormed {h} w (enable v) = unchanged h.session _ refl w
  Call-IsWellFormed {h} w set_callback = unchanged h.session _ refl w

  -- Every session that a process can get to is well-formed: its breakpoints have distinct positive
  -- ids in order, below the next one; its scripts' ids were taken from the counter; and no object
  -- id is in use before it is handed out.
  pub Reachable-IsWellFormed : {h : Handler N} → Reachable V pf h → IsWellFormed h.session
  Reachable-IsWellFormed fresh = new_session-IsWellFormed
  Reachable-IsWellFormed (then_call r c) = Call-IsWellFormed (Reachable-IsWellFormed r) c
