-- ===== src/Cdp/Runtime.antt =====
-- The handlers of the Runtime domain. Those of the Profiler domain do nothing.
use quick_js_debugger.Prelude.{true, false, [], ◌∷◌}
use quick_js_debugger.Prelude.Int.{pos}
use quick_js_debugger.Text.Bytes.{codes}
use quick_js_debugger.Json.Floats.{Floats}
use quick_js_debugger.Json.Value.{Value, bool, string, object, end, object_of, int}
use quick_js_debugger.Session.Control.{run_if_waiting}
use quick_js_debugger.Session.Evaluate.{get_properties, undefined_result}
use quick_js_debugger.Session.State.{Event}
use quick_js_debugger.Cdp.{Handler, Handled, done, answer, string_or}

module _ {N : Type 0} where
  unfoldable pub on_runtime_disable : Handler N → Value N → Handled N
  on_runtime_disable h params = done (record h { runtime_enabled = false }) h.session

  unfoldable pub on_runtime_get_properties : Handler N → Value N → Handled N
  on_runtime_get_properties h params =
      answer h (get_properties h.session (string_or [] params (codes "objectId")))

  unfoldable pub on_runtime_run_if_waiting : Handler N → Value N → Handled N
  on_runtime_run_if_waiting h params = done h (run_if_waiting h.session)

  unfoldable pub on_runtime_evaluate : Handler N → Value N → Handled N
  on_runtime_evaluate h params = answer h undefined_result

  unfoldable pub on_runtime_call_function_on : Handler N → Value N → Handled N
  on_runtime_call_function_on h params = answer h undefined_result

  unfoldable pub on_runtime_release_object_group : Handler N → Value N → Handled N
  on_runtime_release_object_group h params = done h h.session

  unfoldable pub on_runtime_get_isolate_id : Handler N → Value N → Handled N
  on_runtime_get_isolate_id h params =
      answer h (object_of ((codes "id", string (codes "quickjs-isolate-1")) ∷ []))

  unfoldable pub on_profiler_enable : Handler N → Value N → Handled N
  on_profiler_enable h params = done h h.session

  unfoldable pub on_profiler_disable : Handler N → Value N → Handled N
  on_profiler_disable h params = done h h.session

  -- The one execution context.
  context_created : ⦃fl : Floats N⦄ → Event N
  context_created = record {
    method = codes "Runtime.executionContextCreated";
    params = object_of (
        (
          codes "context",
          object_of (
              (codes "id", int (pos 1))
              ∷ (codes "origin", string [])
              ∷ (codes "name", string (codes "QuickJS"))
              ∷ (codes "auxData", object_of ((codes "isDefault", bool true) ∷ []))
              ∷ []),
        )
        ∷ []);
  }

  unfoldable pub on_runtime_enable : ⦃fl : Floats N⦄ → Handler N → Value N → Handled N
  unfolding context_created
  on_runtime_enable h params = record {
    handler = record h { runtime_enabled = true };
    events = context_created ∷ [];
    result = object end;
  }
