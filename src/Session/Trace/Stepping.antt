-- ===== src/Session/Trace/Stepping.antt =====
-- Where a paused script that is stepped stops next.
use quick_js_debugger.Prelude.{
  ℕ, ◌≤◌, ◌<◌, ◌≡◌, ◌≢◌, ◌⊎◌, inl, inr, refl, sym, ◌∙◌, true, false, List, [], ◌∷◌, All, length,
  arith,
}
use quick_js_debugger.Json.Floats.{Floats}
use quick_js_debugger.Session.Breakpoints.Hits.{
  FirstHit, AllMiss, check_breakpoint_of_FirstHit, check_breakpoint_of_AllMiss,
}
use quick_js_debugger.Session.Control.{top_line, top_file, start_step}
use quick_js_debugger.Session.Paths.{Platform}
use quick_js_debugger.Session.State.{Breakpoint, PauseReason, StepMode, Session}
use quick_js_debugger.Session.Trace.{leave_pause}
use quick_js_debugger.Session.Trace.Pauses.{Stops}
use quick_js_debugger.Session.Trace.Runs.{
  Statement, IsAt, GoesOnAt, Executes, call, run_until_pause,
}
use quick_js_debugger.Session.Trace.Verdicts.{Pauses, StepEnds}

module _ {N V : Type 0} ⦃fl : Floats N⦄ (pf : Platform) (s : Session N) where
  -- At no breakpoint.
  abbrev pub IsFree : Statement N V → Type 0
  IsFree st = (s.bp_active ≡ false) ⊎ AllMiss pf st.file st.line s.breakpoints

  -- At the line where the script is paused, and away from it.
  abbrev pub IsHere : Statement N V → Type 0
  IsHere st = (st.line ≡ top_line s.frame_stack) × (top_file s.frame_stack ≡ st.file)

  abbrev pub IsAway : Statement N V → Type 0
  IsAway st = (st.line ≢ top_line s.frame_stack) ⊎ (top_file s.frame_stack ≢ st.file)

  free_no_hit :
      (st : Statement N V) (id : ℕ) (bp : Breakpoint)
      → IsFree st
      → s.bp_active ≡ true
      → FirstHit pf st.file st.line s.breakpoints id bp
      → ⊥
  free_no_hit st id bp free on first =
      let hit = (check_breakpoint_of_FirstHit pf st.file st.line s id bp on first).0 in
      let miss = check_breakpoint_of_AllMiss pf st.file st.line s free in
      let clash : true ≡ false = sym hit ∙ miss in cc

  -- Statements at which a step that was started here does not end.
  abbrev pub IsInside : StepMode → Statement N V → Type 0
  IsInside StepMode.into st = IsHere st
  IsInside StepMode.over st = (length s.frame_stack < st.engine.stack_depth) ⊎ IsHere st
  IsInside StepMode.out st = length s.frame_stack ≤ st.engine.stack_depth
  IsInside _ st = ⊥

  -- Statements at which it does.
  abbrev pub IsOutside : StepMode → Statement N V → Type 0
  IsOutside StepMode.into st = IsAway st
  IsOutside StepMode.over st = (st.engine.stack_depth ≤ length s.frame_stack) × IsAway st
  IsOutside StepMode.out st = st.engine.stack_depth < length s.frame_stack
  IsOutside _ st = ⊥

-- The session once the client has asked for a step and the pause is over.
abbrev pub stepped : {N : Type 0} → StepMode → Session N → Session N
stepped mode s = (leave_pause (start_step mode s)).0

module _ {N V : Type 0} ⦃fl : Floats N⦄ (pf : Platform) (s : Session N) where
  here_not_away : (st : Statement N V) → IsHere pf s st → IsAway pf s st → ⊥
  here_not_away st i (inl n) = n i.0
  here_not_away st i (inr n) = n i.1

  inside-StepEnds :
      (mode : StepMode) (st : Statement N V)
      → IsInside pf s mode st
      → StepEnds st.engine pf (stepped mode s) st.file st.line mode
      → ⊥
  unfolding leave_pause start_step
  inside-StepEnds StepMode.into st i h = here_not_away st i h
  inside-StepEnds StepMode.over st (inl deep) h = omega (arith, deep, h.0)
  inside-StepEnds StepMode.over st (inr i) h = here_not_away st i h.1
  inside-StepEnds StepMode.out st i h = omega (arith, i, h)
  inside-StepEnds StepMode.none st i h = h
  inside-StepEnds StepMode.continue st i h = h
  inside-StepEnds StepMode.pause st i h = h

  outside-StepEnds :
      (mode : StepMode) (st : Statement N V)
      → IsOutside pf s mode st
      → StepEnds st.engine pf (stepped mode s) st.file st.line mode
  unfolding leave_pause start_step
  outside-StepEnds StepMode.into st h = h
  outside-StepEnds StepMode.over st h = h
  outside-StepEnds StepMode.out st h = h
  outside-StepEnds StepMode.none st h = h
  outside-StepEnds StepMode.continue st h = h
  outside-StepEnds StepMode.pause st h = h

  inside-GoesOnAt :
      (mode : StepMode) (st : Statement N V)
      → s.pause_on_start ≡ false
      → IsAt st
      → IsFree pf s st
      → IsInside pf s mode st
      → GoesOnAt pf (stepped mode s) st
  unfolding leave_pause start_step
  inside-GoesOnAt mode st entry at_line free i = (at_line, no_reason)
    where
      no_reason :
          (r : PauseReason) (id : ℕ) → ¬ Pauses st.engine pf (stepped mode s) st.file st.line r id
      no_reason PauseReason.pause_request id (_, q) = cc
      no_reason PauseReason.entry id (_, _, o) = ground (arith, entry, o)
      no_reason PauseReason.breakpoint id (_, _, on, (bp, first, _)) =
          free_no_hit pf s st id bp free on first
      no_reason PauseReason.step id (_, _, _, _, ends) = inside-StepEnds mode st i ends

  -- A statement with a position and no breakpoint, at which the step does not end.
  abbrev pub IsPassed : StepMode → Statement N V → Type 0
  IsPassed mode st = IsAt st × IsFree pf s st × IsInside pf s mode st

  pub passed-GoesOnAt :
      (mode : StepMode) (sts : List (Statement N V))
      → s.pause_on_start ≡ false
      → All (IsPassed mode) sts
      → All (GoesOnAt pf (stepped mode s)) sts
  passed-GoesOnAt mode [] entry h = tt
  passed-GoesOnAt mode (st ∷ sts) entry ((at_line, free, i), h) =
      (inside-GoesOnAt mode st entry at_line free i, passed-GoesOnAt mode sts entry h)

  -- In an enabled session without an entry pause left, at positive lines and with no breakpoint on
  -- the way: behind a step over, the script runs silently through deeper frames and through the
  -- line where it was paused, and pauses at the first statement that is no deeper and on another
  -- line or in another file; behind a step into, it does so at the first statement on another line
  -- or in another file, and behind a step out at the first in an outer frame.
  pub step_run :
      (mode : StepMode) (before : List (Statement N V)) (last : Statement N V)
      → s.enabled ≡ true
      → s.pause_on_start ≡ false
      → All (IsPassed mode) before
      → IsAt last
      → IsFree pf s last
      → IsOutside pf s mode last
      → (t : Session N) × Executes pf (stepped mode s) before t
        × Stops last.engine pf t (call pf t last)
  unfolding leave_pause start_step
  step_run mode before last on entry passed at_line free out =
      run_until_pause pf (stepped mode s) on before last PauseReason.step 0
        (passed-GoesOnAt mode before entry passed) at_line
        (refl, refl, entry, free, outside-StepEnds mode last out)
