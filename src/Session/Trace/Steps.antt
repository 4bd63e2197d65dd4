-- ===== src/Session/Trace/Steps.antt =====
-- Steps from where a script stands, and what a false condition does to them.
use mathlib.Core.Path.{ap}
use quick_js_debugger.Prelude.{◌≤◌, ◌≡◌, refl, false, List, ◌∷◌, arith, length}
use quick_js_debugger.Prelude.Int.{ℤ, ==ℤ_iff}
use quick_js_debugger.Text.Bytes.{Bytes, equal_iff}
use quick_js_debugger.Json.Floats.{Floats}
use quick_js_debugger.Session.Breakpoints.{check_breakpoint}
use quick_js_debugger.Session.Control.{top_file, top_line, step_over, step_into, step_out}
use quick_js_debugger.Session.Engine.{Engine}
use quick_js_debugger.Session.Paths.{Platform}
use quick_js_debugger.Session.State.{FrameInfo, StepMode, Session}
use quick_js_debugger.Session.Trace.{pass, step_verdict, verdict}

module _ {N V : Type 0} ⦃fl : Floats N⦄ (e : Engine N V) (pf : Platform) (s : Session N) where
  -- The step that a session holds stays where the session stands.
  stays :
      (file : Bytes) (line : ℤ)
      → s.pause_requested ≡ false
      → s.pause_on_start ≡ false
      → check_breakpoint pf s file line ≡ false
      → step_verdict e s.step_mode s file line ≡ pass
      → verdict e pf s file line ≡ pass
  unfolding verdict
  stays file line request entry miss h = ground (arith, request, entry, miss, h)

  unmoved :
      (file : Bytes) (line : ℤ)
      → s.step_start_line ≡ line
      → s.step_start_file ≡ file
      → (step_verdict e StepMode.into s file line ≡ pass)
        × (step_verdict e StepMode.over s file line ≡ pass)
  unfolding step_verdict
  unmoved file line same_line same_file =
      let f = equal_iff s.step_start_file file in
      let l = ==ℤ_iff line s.step_start_line in
      (ground (arith, same_line, same_file, f, l), ground (arith, same_line, same_file, f, l))

module _ {N V : Type 0} ⦃fl : Floats N⦄ (e : Engine N V) (pf : Platform) (s : Session N) where
  -- At the file and line of the innermost frame, a step into or over does not end, nor does a step
  -- out at the same depth or deeper, if no breakpoint is hit there and no entry pause is left.
  step_stays :
      (top : FrameInfo) (rest : List FrameInfo)
      → s.frame_stack ≡ top ∷ rest
      → s.pause_on_start ≡ false
      → check_breakpoint pf s top.filename top.line ≡ false
      → (verdict e pf (step_into s) top.filename top.line ≡ pass)
        × (verdict e pf (step_over s) top.filename top.line ≡ pass)
        × (length s.frame_stack ≤ e.stack_depth
            → verdict e pf (step_out s) top.filename top.line ≡ pass)
  unfolding step_into step_over step_out check_breakpoint
  step_stays top rest stack entry miss =
      let file = ap top_file stack in
      let line = ap top_line stack in
      (
        stays e pf (step_into s) top.filename top.line refl entry miss
            (unmoved e pf (step_into s) top.filename top.line line file).0,
        stays e pf (step_over s) top.filename top.line refl entry miss
            (unmoved e pf (step_over s) top.filename top.line line file).1,
        λ deep.
            stays e pf (step_out s) top.filename top.line refl entry miss
              (unfold step_verdict in ground arith),
      )
