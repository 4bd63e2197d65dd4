-- ===== src/Session/Engine.antt =====
-- The part of the QuickJS API that the session calls, at one moment of a script's run. QuickJS is a
-- submodule: its functions are parameters, and what they answer is not constrained. A property read
-- is taken to leave the engine as it was (getters with side effects are not modelled), and so is an
-- evaluation: the statements of the text that JS_Eval runs, for which the engine calls
-- `debug_trace_handler` once more from within, are not followed.
use quick_js_debugger.Prelude.{ℕ, Bool, List, Option, ◌⊎◌}
use quick_js_debugger.Prelude.Int.{ℤ}
use quick_js_debugger.Text.Bytes.{Bytes}

-- `V` is JSValue, `N` is double. An atom is a number.
pub record Engine (N V : Type 0) : Type 0 where
  -- JS_IsUndefined, JS_IsNull, JS_IsBool, the tag JS_TAG_INT, JS_IsNumber, JS_IsString,
  -- JS_IsFunction, JS_IsArray, JS_IsObject.
  pub is_undefined : V → Bool
  pub is_null : V → Bool
  pub is_bool : V → Bool
  pub is_int : V → Bool
  pub is_number : V → Bool
  pub is_string : V → Bool
  pub is_function : V → Bool
  pub is_array : V → Bool
  pub is_object : V → Bool
  -- JS_ToBool (negative on an exception), JS_ToInt32, JS_ToFloat64, JS_ToCString (null is `none`).
  pub to_bool : V → ℤ
  pub to_int32 : V → ℤ
  pub to_float64 : V → N
  pub to_cstring : V → Option Bytes
  -- JS_GetPropertyStr and JS_GetPropertyUint32.
  pub property : V → Bytes → V
  pub element : V → ℕ → V
  -- JS_GetOwnPropertyNames with the masks of the source (`none` if it fails), JS_GetProperty,
  -- JS_AtomToCString.
  pub own_names : V → Option (List ℕ)
  pub get : V → ℕ → V
  pub atom_name : ℕ → Option Bytes
  -- JS_GetGlobalObject, JS_GetStackDepth, JS_GetLocalVariablesAtLevel (null is `none`).
  pub global : V
  pub stack_depth : ℕ
  pub locals : ℤ → Option (List (Option Bytes × V))
  -- JS_Eval of a text while `__bp_locals__` holds the given bindings; an exception is `none`.
  pub eval_with : List (Bytes × V) → Bytes → Option V
  -- JS_Eval of a text as "<debugger-eval>": its value, or the text of the exception (JS_ToCString
  -- of JS_GetException).
  pub eval_global : Bytes → Option Bytes ⊎ V
