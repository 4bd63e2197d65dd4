-- ===== src/Session/Control.antt =====
-- Execution control of debug_session.cpp: the calls of the WebSocket thread that let a paused or
-- waiting script go on. Each is a sequence of atomic stores, and a notification.
use quick_js_debugger.Prelude.{Bool, true, false, List, [], ◌∷◌, length, if◌then◌else◌}
use quick_js_debugger.Prelude.Int.{ℤ, pos}
use quick_js_debugger.Text.Bytes.{Bytes}
use quick_js_debugger.Session.State.{FrameInfo, Session, StepMode}

-- `frame_stack_.back().line` and `.filename`, or the defaults of an empty stack.
abbrev pub top_line : List FrameInfo → ℤ
top_line [] = pos 0
top_line (f ∷ fs) = f.line

abbrev pub top_file : List FrameInfo → Bytes
top_file [] = []
top_file (f ∷ fs) = f.filename

module _ {N : Type 0} where
  unfoldable pub resume : Session N → Session N
  resume s = record s { step_mode = StepMode.continue; pause_requested = false; paused = false }

  -- What `step_over`, `step_into` and `step_out` share: the position that the step starts from.
  unfoldable pub start_step : StepMode → Session N → Session N
  start_step mode s = record s {
    step_start_depth = length s.frame_stack;
    step_start_line = top_line s.frame_stack;
    step_start_file = top_file s.frame_stack;
    step_mode = mode;
    pause_requested = false;
    paused = false;
  }

  unfoldable pub step_over : Session N → Session N
  unfolding start_step
  step_over = start_step StepMode.over

  unfoldable pub step_into : Session N → Session N
  unfolding start_step
  step_into = start_step StepMode.into

  unfoldable pub step_out : Session N → Session N
  unfolding start_step
  step_out = start_step StepMode.out

  unfoldable pub request_pause : Session N → Session N
  request_pause s = record s { pause_requested = true }

  unfoldable pub set_enabled : Session N → Bool → Session N
  set_enabled s v = record s { enabled = v }

  unfoldable pub set_pause_on_start : Session N → Bool → Session N
  set_pause_on_start s v = record s { pause_on_start = v }

  unfoldable pub set_send_event : Session N → Session N
  set_send_event s = record s { send_event = true }

  -- `wait_for_debugger` up to its wait, which ends once `waiting_` is false.
  unfoldable pub start_waiting : Session N → Session N
  start_waiting s = if s.pause_on_start then record s { waiting = true } else s

  unfoldable pub run_if_waiting : Session N → Session N
  run_if_waiting s = record s { step_mode = StepMode.continue; waiting = false }

  unfoldable pub on_disconnect : Session N → Session N
  on_disconnect s = record s {
    pause_requested = false;
    step_mode = StepMode.continue;
    paused = false;
    waiting = false;
  }
