-- ===== src/Session/State.antt =====
-- The members of DebugSession. A std::vector that is used as a stack is held with its back first;
-- `breakpoints` is the std::map in key order. The events that the callback is handed are the
-- outputs of the operations. Mutexes and condition variables belong to the threads' model.
use quick_js_debugger.Prelude.{ℕ, Bool, true, false, List, []}
use quick_js_debugger.Prelude.Int.{ℤ, pos}
use quick_js_debugger.Text.Bytes.{Bytes}
use quick_js_debugger.Json.Value.{Value, Fields, null, end}

pub record ScriptInfo : Type 0 where
  pub id : Bytes
  pub url : Bytes
  pub source : Bytes
  pub source_map_url : Bytes
  pub end_line : ℕ

pub record FrameInfo : Type 0 where
  pub filename : Bytes
  pub funcname : Bytes
  pub line : ℤ
  pub col : ℤ

abbrev pub no_frame : FrameInfo
no_frame = record { filename = []; funcname = []; line = pos 0; col = pos 0 }

pub record Breakpoint : Type 0 where
  pub id : ℕ
  pub url : Bytes
  pub line : ℤ
  pub column : ℤ
  pub enabled : Bool
  pub is_regex : Bool
  pub condition : Bytes

pub data PauseReason : Type 0 where
  breakpoint step pause_request entry : PauseReason

pub data StepMode : Type 0 where
  none continue over into out pause : StepMode

pub record Session (N : Type 0) : Type 0 where
  -- A callback has been set by `set_send_event`.
  pub send_event : Bool
  pub scripts : List ScriptInfo
  pub next_script_id : ℕ
  pub breakpoints : List (ℕ × Breakpoint)
  pub next_bp_id : ℕ
  pub bp_active : Bool
  pub enabled : Bool
  pub paused : Bool
  pub step_mode : StepMode
  pub pause_requested : Bool
  pub step_start_depth : ℕ
  pub step_start_file : Bytes
  pub step_start_line : ℤ
  pub frame_stack : List FrameInfo
  pub captured_frames : Value N
  pub object_store : Fields N
  pub next_obj_id : ℕ
  pub pause_on_start : Bool
  pub waiting : Bool
  -- `paused_ctx_` is not null.
  pub paused_ctx : Bool

-- A call of the `SendEventFn` callback.
pub record Event (N : Type 0) : Type 0 where
  pub method : Bytes
  pub params : Value N

-- `DebugSession()`.
abbrev pub new_session : {N : Type 0} → Session N
new_session = record {
  send_event = false;
  scripts = [];
  next_script_id = 1;
  breakpoints = [];
  next_bp_id = 1;
  bp_active = true;
  enabled = false;
  paused = false;
  step_mode = StepMode.none;
  pause_requested = false;
  step_start_depth = 0;
  step_start_file = [];
  step_start_line = pos 0;
  frame_stack = [];
  captured_frames = null;
  object_store = end;
  next_obj_id = 1;
  pause_on_start = false;
  waiting = false;
  paused_ctx = false;
}
