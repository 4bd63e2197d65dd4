-- ===== src/Tests/Stepping.antt =====
-- A script that is paused in a.js, and is stepped over a call.
use quick_js_debugger.Prelude.{ℕ, inl, inr, refl, true, [], ◌∷◌, none, arith}
use quick_js_debugger.Prelude.Int.{ℤ, pos}
use quick_js_debugger.Text.Bytes.{codes}
use quick_js_debugger.Session.Control.{start_step}
use quick_js_debugger.Session.State.{FrameInfo, PauseReason, StepMode, Session, new_session}
use quick_js_debugger.Session.Trace.{leave_pause}
use quick_js_debugger.Session.Trace.Pauses.{Stops}
use quick_js_debugger.Session.Trace.Runs.{Statement, Executes, call, run_until_pause}
use quick_js_debugger.Session.Trace.Stepping.{stepped, step_run, passed-GoesOnAt}
use quick_js_debugger.Tests.Machine.{whole_floats, posix, engine}

-- At line 3, where the script is paused.
abbrev top : FrameInfo
top = record { filename = codes "/w/a.js"; funcname = []; line = pos 3; col = pos 1 }

abbrev paused_session : Session ℤ
paused_session = record new_session { enabled = true; paused = true; frame_stack = top ∷ [] }

-- In the function that is called, on the line of the call again, and on the next one.
abbrev statement : ℕ → ℕ → Statement ℤ ℕ
statement depth line = record {
  engine = record engine { stack_depth = depth };
  file = codes "/w/a.js";
  funcname = none;
  line = pos line;
  col = pos 1;
}

step_run_example :
    (t : Session ℤ) × Executes posix
      (stepped StepMode.over paused_session)
      (statement 2 9 ∷ statement 1 3 ∷ [])
      t
    × Stops (record engine { stack_depth = 1 }) posix t (call posix t (statement 1 4))
step_run_example =
    step_run posix paused_session StepMode.over (statement 2 9 ∷ statement 1 3 ∷ []) (statement 1 4)
      refl refl ((refl, inr tt, inl (omega arith)), ((refl, inr tt, inr (refl, refl)), tt)) refl
      (inr tt) (omega arith, inl (λ e. cc))

-- Where the step over has begun.
abbrev stepping : Session ℤ
stepping = stepped StepMode.over paused_session

run_until_pause_example :
    (t : Session ℤ) × Executes posix stepping (statement 2 9 ∷ statement 1 3 ∷ []) t
    × Stops (record engine { stack_depth = 1 }) posix t (call posix t (statement 1 4))
unfolding leave_pause start_step
run_until_pause_example =
    run_until_pause posix stepping refl (statement 2 9 ∷ statement 1 3 ∷ []) (statement 1 4)
      PauseReason.step 0
      (passed-GoesOnAt posix paused_session StepMode.over (statement 2 9 ∷ statement 1 3 ∷ []) refl
        ((refl, inr tt, inl (omega arith)), ((refl, inr tt, inr (refl, refl)), tt)))
      refl (refl, refl, refl, inr tt, (omega arith, inl (λ e. cc)))
