-- ===== src/Cdp/Dispatch.antt =====
-- `handle_message`: a request is parsed, handed to the handler of its method, and answered if it
-- has a positive id. What is sent is the serialized messages in their order; `Program.Messages` puts
-- them into frames.
use quick_js_debugger.Prelude.{List, [], ◌∷◌, ◌++◌, map, Option, none, some, if◌then◌else◌}
use quick_js_debugger.Prelude.Int.{ℤ, pos, ltb_ℤ}
use quick_js_debugger.Text.Bytes.{Bytes, codes, equal}
use quick_js_debugger.Json.Floats.{Floats}
use quick_js_debugger.Json.Value.{Value, object, end, has, at, is_object}
use quick_js_debugger.Json.Print.{serialize}
use quick_js_debugger.Json.Parse.{parse}
use quick_js_debugger.Json.Result.{Result, ok, ◌>>=◌}
use quick_js_debugger.Session.Engine.{Engine}
use quick_js_debugger.Session.Paths.{Platform}
use quick_js_debugger.Cdp.{Handler, Handled, done, string_or, int_or, response, event_message}
use quick_js_debugger.Cdp.Requests.{
  on_debugger_enable, on_debugger_disable, on_debugger_set_breakpoint_by_url,
  on_debugger_remove_breakpoint, on_debugger_resume, on_debugger_step_over, on_debugger_step_into,
  on_debugger_step_out, on_debugger_pause, on_debugger_get_script_source,
  on_debugger_set_breakpoints_active, on_debugger_get_possible_breakpoints,
  on_debugger_evaluate_on_call_frame, on_debugger_set_pause_on_exceptions,
}
use quick_js_debugger.Cdp.Runtime.{
  on_runtime_enable, on_runtime_disable, on_runtime_get_properties, on_runtime_run_if_waiting,
  on_runtime_evaluate, on_runtime_call_function_on, on_runtime_release_object_group,
  on_runtime_get_isolate_id, on_profiler_enable, on_profiler_disable,
}

abbrev pub Handlers : Type 0 → Type 0
Handlers N = List (Bytes × (Handler N → Value N → Handled N))

module _ {N : Type 0} where
  -- The first handler of a method.
  unfoldable pub find_handler : Bytes → Handlers N → Option (Handler N → Value N → Handled N)
  find_handler method [] = none
  find_handler method ((name, f) ∷ fs) =
      if equal method name then some f else find_handler method fs

module _ {N : Type 0} where
  abbrev pub request_id : ⦃fl : Floats N⦄ → Value N → ℤ
  request_id msg = int_or (pos 0) msg (codes "id")

  abbrev pub request_params : Value N → Value N
  request_params msg = if has msg (codes "params") then at msg (codes "params") else object end

module _ {N V : Type 0} ⦃fl : Floats N⦄ (e : Engine N V) (pf : Platform) where
  -- The chain of comparisons with the names of the methods.
  unfoldable pub handlers : Handlers N
  handlers =
      (codes "Debugger.enable", on_debugger_enable)
      ∷ (codes "Debugger.disable", on_debugger_disable)
      ∷ (codes "Debugger.setBreakpointByUrl", on_debugger_set_breakpoint_by_url pf)
      ∷ (codes "Debugger.removeBreakpoint", on_debugger_remove_breakpoint)
      ∷ (codes "Debugger.resume", on_debugger_resume)
      ∷ (codes "Debugger.stepOver", on_debugger_step_over)
      ∷ (codes "Debugger.stepInto", on_debugger_step_into)
      ∷ (codes "Debugger.stepOut", on_debugger_step_out)
      ∷ (codes "Debugger.pause", on_debugger_pause)
      ∷ (codes "Debugger.getScriptSource", on_debugger_get_script_source)
      ∷ (codes "Debugger.setBreakpointsActive", on_debugger_set_breakpoints_active)
      ∷ (codes "Debugger.getPossibleBreakpoints", on_debugger_get_possible_breakpoints)
      ∷ (codes "Debugger.evaluateOnCallFrame", on_debugger_evaluate_on_call_frame e)
      ∷ (codes "Debugger.setPauseOnExceptions", on_debugger_set_pause_on_exceptions)
      ∷ (codes "Runtime.enable", on_runtime_enable)
      ∷ (codes "Runtime.disable", on_runtime_disable)
      ∷ (codes "Runtime.getProperties", on_runtime_get_properties)
      ∷ (codes "Runtime.runIfWaitingForDebugger", on_runtime_run_if_waiting)
      ∷ (codes "Runtime.evaluate", on_runtime_evaluate)
      ∷ (codes "Runtime.callFunctionOn", on_runtime_call_function_on)
      ∷ (codes "Runtime.releaseObjectGroup", on_runtime_release_object_group)
      ∷ (codes "Runtime.getIsolateId", on_runtime_get_isolate_id)
      ∷ (codes "Profiler.enable", on_profiler_enable)
      ∷ (codes "Profiler.disable", on_profiler_disable)
      ∷ []

  -- A method that is not known gets an empty result.
  unfoldable pub dispatch : Handler N → Bytes → Value N → Handled N
  unfolding handlers find_handler
  dispatch h method params = elim (find_handler method handlers) [
    | none ↦ done h h.session
    | some f ↦ f h params
  ]

  -- `handle_message` behind the parser, with the messages before they are serialized.
  unfoldable pub handle_request : Handler N → Value N → Handler N × List (Value N)
  unfolding dispatch
  handle_request h msg =
      let id = request_id msg in
      let r = dispatch h (string_or [] msg (codes "method")) (request_params msg) in
      if is_object msg
      then (
        r.handler,
        map event_message r.events ++ (if ltb_ℤ (pos 0) id then response id r.result ∷ [] else []),
      )
      else (h, [])

  unfoldable pub handle_message : Handler N → Bytes → Result (Handler N × List Bytes)
  unfolding handle_request
  handle_message h message = do
    msg ← parse message
    let (h', messages) = handle_request h msg
    ok (h', map serialize messages)
