-- ===== src/Session/Trace/Runs.antt =====
-- A script that runs on: the handler's calls at one statement after the other.
use mathlib.Core.Path.{subst}
use quick_js_debugger.Prelude.{
  ℕ, ◌≡◌, inl, inr, sym, Bool, true, false, List, [], ◌∷◌, Option, some, All,
}
use quick_js_debugger.Prelude.Int.{ℤ, pos, leb_ℤ}
use quick_js_debugger.Text.Bytes.{Bytes}
use quick_js_debugger.Json.Floats.{Floats}
use quick_js_debugger.Session.Engine.{Engine}
use quick_js_debugger.Session.Paths.{Platform}
use quick_js_debugger.Session.State.{FrameInfo, PauseReason, StepMode, Session, Event}
use quick_js_debugger.Session.Trace.{debug_trace_handler}
use quick_js_debugger.Session.Trace.Pauses.{tracked, Stops, Goes, debug_trace_handler-Outcome}
use quick_js_debugger.Session.Trace.Verdicts.{Pauses, StepEnds}

-- A statement that the engine is about to execute: the engine at that moment, and the position.
pub record Statement (N V : Type 0) : Type 0 where
  pub engine : Engine N V
  pub file : Bytes
  pub funcname : Option Bytes
  pub line : ℤ
  pub col : ℤ

-- At a statement that has a position.
abbrev pub IsAt : {N V : Type 0} → Statement N V → Type 0
IsAt st = leb_ℤ st.line (pos 0) ≡ false

module _ {N V : Type 0} ⦃fl : Floats N⦄ (pf : Platform) where
  abbrev pub call : Session N → Statement N V → Session N × List (Event N) × Bool
  call s st = debug_trace_handler st.engine pf s (some st.file) st.funcname st.line st.col

  -- The script executes the statements: no call of the handler stops or sends anything.
  pub data Executes : Session N → List (Statement N V) → Session N → Type 0 where
    all_done : {s : Session N} → Executes s [] s
    goes_on :
        {s t : Session N} {st : Statement N V} {rest : List (Statement N V)}
        → (call s st).2 ≡ false
        → (call s st).1 ≡ []
        → Executes (call s st).0 rest t
        → Executes s (st ∷ rest) t

  -- The contract gives no reason to pause at a statement.
  abbrev pub GoesOnAt : Session N → Statement N V → Type 0
  GoesOnAt s st =
      IsAt st × ((r : PauseReason) (id : ℕ) → ¬ Pauses st.engine pf s st.file st.line r id)

-- Other frames, and all else the same.
abbrev pub framed : {N : Type 0} → Session N → List FrameInfo → Session N
framed s fs = record s { frame_stack = fs }

module _ {N V : Type 0} ⦃fl : Floats N⦄ (e : Engine N V) (pf : Platform) (s : Session N)
    (fs : List FrameInfo) (file : Bytes) (line : ℤ) where
  -- The contract does not look at the frames.
  StepEnds-frames :
      (m : StepMode) → StepEnds e pf (framed s fs) file line m → StepEnds e pf s file line m
  StepEnds-frames StepMode.into h = h
  StepEnds-frames StepMode.over h = h
  StepEnds-frames StepMode.out h = h
  StepEnds-frames StepMode.none h = h
  StepEnds-frames StepMode.continue h = h
  StepEnds-frames StepMode.pause h = h

  StepEnds-frames_back :
      (m : StepMode) → StepEnds e pf s file line m → StepEnds e pf (framed s fs) file line m
  StepEnds-frames_back StepMode.into h = h
  StepEnds-frames_back StepMode.over h = h
  StepEnds-frames_back StepMode.out h = h
  StepEnds-frames_back StepMode.none h = h
  StepEnds-frames_back StepMode.continue h = h
  StepEnds-frames_back StepMode.pause h = h

  Pauses-frames :
      (r : PauseReason) (id : ℕ)
      → Pauses e pf (framed s fs) file line r id
      → Pauses e pf s file line r id
  Pauses-frames PauseReason.pause_request id h = h
  Pauses-frames PauseReason.entry id h = h
  Pauses-frames PauseReason.breakpoint id h = h
  Pauses-frames PauseReason.step id h = (h.0, h.1, h.2, h.3, StepEnds-frames s.step_mode h.4)

  Pauses-frames_back :
      (r : PauseReason) (id : ℕ)
      → Pauses e pf s file line r id
      → Pauses e pf (framed s fs) file line r id
  Pauses-frames_back PauseReason.pause_request id h = h
  Pauses-frames_back PauseReason.entry id h = h
  Pauses-frames_back PauseReason.breakpoint id h = h
  Pauses-frames_back PauseReason.step id h =
      (h.0, h.1, h.2, h.3, StepEnds-frames_back s.step_mode h.4)

module _ {N V : Type 0} ⦃fl : Floats N⦄ (pf : Platform) (s : Session N)
    (on : s.enabled ≡ true) where
  -- The frames that the handler's tests see.
  abbrev frames_at : List FrameInfo → Statement N V → List FrameInfo
  frames_at fs st =
      (tracked st.engine pf (framed s fs) st.file st.funcname st.line st.col).frame_stack

  -- One statement.
  goes :
      (fs : List FrameInfo) (st : Statement N V)
      → GoesOnAt pf s st
      → Goes st.engine pf (framed s fs) (call pf (framed s fs) st)
  goes fs st (at_line, none) =
      elim (debug_trace_handler-Outcome st.engine pf (framed s fs) st.file st.funcname st.line
        st.col on at_line) [
          | inl (r, id, p, stops) ↦
              absurd
                (none r id (Pauses-frames st.engine pf s (frames_at fs st) st.file st.line r id p))
          | inr (no_reason, g) ↦ g
        ]

  stops :
      (fs : List FrameInfo) (st : Statement N V) (r : PauseReason) (id : ℕ)
      → IsAt st
      → Pauses st.engine pf s st.file st.line r id
      → Stops st.engine pf (framed s fs) (call pf (framed s fs) st)
  stops fs st r id at_line p =
      elim (debug_trace_handler-Outcome st.engine pf (framed s fs) st.file st.funcname st.line
        st.col on at_line) [
          | inl (r', id', p', stopped) ↦ stopped
          | inr (no_reason, g) ↦ absurd (
              no_reason r id
                (Pauses-frames_back st.engine pf s (frames_at fs st) st.file st.line r id p))
        ]

  runs :
      (fs : List FrameInfo) (before : List (Statement N V)) (last : Statement N V) (r : PauseReason)
      (id : ℕ)
      → All (GoesOnAt pf s) before
      → IsAt last
      → Pauses last.engine pf s last.file last.line r id
      → (t : Session N) × Executes pf (framed s fs) before t
        × Stops last.engine pf t (call pf t last)
  runs fs [] last r id calm at_line p = (framed s fs, all_done, stops fs last r id at_line p)
  runs fs (st ∷ before) last r id (here, calm) at_line p =
      let (going, silent, e) = goes fs st here in
      let (t, run, stopped) =
        runs (call pf (framed s fs) st).0.frame_stack before last r id calm at_line p in
      (t, goes_on going silent (subst (λ x. Executes pf x before t) (sym e) run), stopped)

  -- In an enabled session, a script that executes statements at positive lines at which the
  -- contract gives no reason to pause, and then comes to one at which it does, runs silently up to
  -- that one and pauses there.
  pub run_until_pause :
      (before : List (Statement N V)) (last : Statement N V) (r : PauseReason) (id : ℕ)
      → All (GoesOnAt pf s) before
      → IsAt last
      → Pauses last.engine pf s last.file last.line r id
      → (t : Session N) × Executes pf s before t × Stops last.engine pf t (call pf t last)
  run_until_pause = runs s.frame_stack
