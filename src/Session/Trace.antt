-- ===== src/Session/Trace.antt =====
-- `debug_trace_handler`, which the engine calls at every statement, with `evaluate_condition` and
-- `do_pause`. A call that pauses is two steps: it stops in `do_pause`'s wait, and `leave_pause` is
-- what runs once the wait is over. The handler is modelled without an interleaved call of the
-- other thread, and the calls of it that QuickJS makes while it evaluates a condition are left out
-- (a step or a pause request that is pending can pause within a condition); the two locks of `bp_mutex_` see the same breakpoints.
pub mod Verdicts
pub mod Pauses
pub mod Steps
pub mod Runs
pub mod Stepping
use quick_js_debugger.Prelude.{
  ℕ, ◌+◌, Bool, true, false, ◌&&◌, ◌||◌, List, [], ◌∷◌, ◌++◌, Option, none, some, not, ltb, leb,
  ◌==◌, if◌then◌else◌,
}
use quick_js_debugger.Prelude.Int.{ℤ, pos, negsuc, ◌-ℤ◌, ◌==ℤ◌, leb_ℤ, ltb_ℤ}
use quick_js_debugger.Text.Bytes.{Bytes, codes, equal, is_empty}
use quick_js_debugger.Text.Decimal.{nat_to_string, to_string}
use quick_js_debugger.Json.Floats.{Floats}
use quick_js_debugger.Json.Value.{Value, Fields, string, array, nil, end, object, object_of, push}
use quick_js_debugger.Session.Breakpoints.{breakpoint_id, check_breakpoint, find_breakpoint}
use quick_js_debugger.Session.Capture.{track_frames, capture_frames}
use quick_js_debugger.Session.Engine.{Engine}
use quick_js_debugger.Session.Paths.{Platform}
use quick_js_debugger.Session.State.{FrameInfo, PauseReason, StepMode, Session, Event}

abbrev pub or_empty : Option Bytes → Bytes
or_empty none = []
or_empty (some s) = s

-- The variables that have a name.
unfoldable pub named {ℓ} : {V : Type ℓ} → List (Option Bytes × V) → List (Bytes × V)
named [] = []
named ((none, v) ∷ vars) = named vars
named ((some name, v) ∷ vars) = (name, v) ∷ named vars

-- What the handler finds: go on, or pause for a reason, at a breakpoint's id or 0.
pub data Verdict : Type 0 where
  pass : Verdict
  stop : PauseReason → ℕ → Verdict

-- The `reason` and the `hitBreakpoints` of the event.
unfoldable pub reason_text : PauseReason → Bytes
reason_text PauseReason.breakpoint = codes "breakpoint"
reason_text PauseReason.step = codes "step"
reason_text PauseReason.pause_request = codes "pause"
reason_text PauseReason.entry = codes "Break on start"

module _ {N : Type 0} where
  unfoldable pub hit_breakpoints : PauseReason → ℕ → ℤ → Value N
  hit_breakpoints PauseReason.breakpoint bp_id line =
      if ltb 0 bp_id
      then push (array nil) (string (breakpoint_id bp_id (line -ℤ pos 1)))
      else array nil
  hit_breakpoints _ bp_id line = array nil

  -- The flag that a reason consumes.
  unfoldable pub consume : PauseReason → Session N → Session N
  consume PauseReason.pause_request s = record s {
    pause_requested = false;
    step_mode = StepMode.none;
  }
  consume PauseReason.entry s = record s { pause_on_start = false; step_mode = StepMode.none }
  consume _ s = record s { step_mode = StepMode.none }

module _ {N V : Type 0} ⦃fl : Floats N⦄ (e : Engine N V) where
  -- The bindings of the innermost frame.
  frame_bindings : List (Bytes × V)
  frame_bindings = elim (e.locals (pos 0)) [ none ↦ [] | some vars ↦ named vars ]

  -- A condition that throws is false.
  unfoldable pub evaluate_condition : Bytes → Bool
  unfolding frame_bindings
  evaluate_condition [] = true
  evaluate_condition (c ∷ expr) =
      elim (e.eval_with frame_bindings
        (codes "with(this.__bp_locals__){(" ++ ((c ∷ expr) ++ codes ")}"))) [
          | none ↦ false
          | some v ↦ ltb_ℤ (pos 0) (e.to_bool v)
        ]

  -- The position has moved on from where the step began.
  abbrev pub moved : Session N → Bytes → ℤ → Bool
  moved s filename line = not (line ==ℤ s.step_start_line) || not (equal s.step_start_file filename)

  -- The switch over the step mode.
  unfoldable pub step_verdict : StepMode → Session N → Bytes → ℤ → Verdict
  step_verdict StepMode.into s filename line =
      if moved s filename line then stop PauseReason.step 0 else pass
  step_verdict StepMode.over s filename line =
      if leb e.stack_depth s.step_start_depth
      then if moved s filename line then stop PauseReason.step 0 else pass
      else pass
  step_verdict StepMode.out s filename line =
      if ltb e.stack_depth s.step_start_depth then stop PauseReason.step 0 else pass
  step_verdict _ s filename line = pass

  -- The breakpoint branch.
  unfoldable pub breakpoint_verdict : ℕ × Bytes → Verdict
  breakpoint_verdict (bp_id, condition) =
      if not (is_empty condition) && not (evaluate_condition condition)
      then pass
      else stop PauseReason.breakpoint bp_id

  module _ (pf : Platform) where
    -- The tests of the handler in their order.
    unfoldable pub verdict : Session N → Bytes → ℤ → Verdict
    unfolding breakpoint_verdict step_verdict
    verdict s filename line =
        if s.pause_requested
        then stop PauseReason.pause_request 0
        else if s.pause_on_start
        then stop PauseReason.entry 0
        else if check_breakpoint pf s filename line
        then breakpoint_verdict (find_breakpoint pf s filename line)
        else step_verdict s.step_mode s filename line

    -- `do_pause` up to its wait, as the script's own thread sees it there. The stores and the event are
    -- one update: `paused_` is stored first, then the event is sent, then `paused_ctx_` is stored.
    unfoldable pub enter_pause :
        Session N → FrameInfo → PauseReason → ℕ → Session N × List (Event N)
    unfolding reason_text hit_breakpoints
    enter_pause s top reason bp_id =
        let s' = record (capture_frames e pf s top) { paused = true; paused_ctx = true } in
        let params = object_of (
          (codes "callFrames", s'.captured_frames)
          ∷ (codes "reason", string (reason_text reason))
          ∷ (codes "hitBreakpoints", hit_breakpoints reason bp_id top.line)
          ∷ []) in
        (
          s',
          (if s'.send_event
              then record { method = codes "Debugger.paused"; params = params } ∷ []
              else []),
        )

    -- The outcome of a call: the session, the events, and whether it stopped in the wait.
    unfoldable pub act : Verdict → Session N → FrameInfo → Session N × List (Event N) × Bool
    unfolding consume
    act pass s top = (s, [], false)
    act (stop reason bp_id) s top =
        let (s', events) = enter_pause (consume reason s) top reason bp_id in (s', events, true)

    unfoldable pub trace_at :
        Session N → Bytes → Option Bytes → ℤ → ℤ → Session N × List (Event N) × Bool
    unfolding verdict act
    trace_at s filename funcname line col =
        let top : FrameInfo = record {
          filename = filename;
          funcname = or_empty funcname;
          line = line;
          col = col;
        } in
        let s' = record s { frame_stack = track_frames e.stack_depth top s.frame_stack } in
        act (verdict s' filename line) s' top

    -- `debug_trace_handler` of a session that is bound to the context.
    unfoldable pub debug_trace_handler :
        Session N → Option Bytes → Option Bytes → ℤ → ℤ → Session N × List (Event N) × Bool
    unfolding trace_at
    debug_trace_handler s none funcname line col = (s, [], false)
    debug_trace_handler s (some filename) funcname line col =
        if not s.enabled || leb_ℤ line (pos 0)
        then (s, [], false)
        else trace_at s filename funcname line col

-- `do_pause` behind its wait.
unfoldable pub leave_pause : {N : Type 0} → Session N → Session N × List (Event N)
leave_pause s = (
  record s { paused_ctx = false },
  (if s.send_event
      then record { method = codes "Debugger.resumed"; params = object end } ∷ []
      else []),
)
