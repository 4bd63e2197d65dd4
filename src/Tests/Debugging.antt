-- ===== src/Tests/Debugging.antt =====
-- Breakpoints, steps and the trace handler on a small session.
use quick_js_debugger.Prelude.{ℕ, ◌≡◌, ◌≢◌, ◌↔◌, ◌⊎◌, refl, true, false, [], ◌∷◌, none, some, arith}
use quick_js_debugger.Prelude.Int.{ℤ, pos}
use quick_js_debugger.Text.Bytes.{Bytes, codes}
use quick_js_debugger.Session.Breakpoints.{check_breakpoint, find_breakpoint, hits}
use quick_js_debugger.Session.Breakpoints.Hits.{FirstHit, AllMiss, check_breakpoint-FirstHit}
use quick_js_debugger.Session.Evaluate.{get_properties, evaluate_on_call_frame}
use quick_js_debugger.Session.Evaluate.Properties.{get_properties-evaluate_on_call_frame}
use quick_js_debugger.Session.Remote.{object_id}
use quick_js_debugger.Session.Scripts.{add_script, get_script_by_id, new_script}
use quick_js_debugger.Session.Scripts.Ids.{IsRegistered, get_script_by_id-add_script}
use quick_js_debugger.Session.State.{FrameInfo, Breakpoint, PauseReason, Session, new_session}
use quick_js_debugger.Session.Trace.{stop, verdict, debug_trace_handler}
use quick_js_debugger.Session.Trace.Verdicts.{Pauses, verdict_iff}
use quick_js_debugger.Session.Trace.Pauses.{Outcome, tracked, debug_trace_handler-Outcome}
use quick_js_debugger.Tests.Machine.{whole_floats, posix, engine}

abbrev bp_at : ℕ → ℤ → Bytes → Breakpoint
bp_at id line condition = record {
  id = id;
  url = codes "a.js";
  line = line;
  column = pos 0;
  enabled = true;
  is_regex = false;
  condition = condition;
}

abbrev top : FrameInfo
top = record { filename = codes "/w/a.js"; funcname = codes "f"; line = pos 5; col = pos 1 }

-- Two breakpoints at line 3, the first of which has a false condition; the script stands at line 5.
abbrev session : Session ℤ
session = record new_session {
  enabled = true;
  send_event = true;
  breakpoints = (1, bp_at 1 (pos 3) (codes "false")) ∷ (2, bp_at 2 (pos 3) []) ∷ [];
  next_bp_id = 3;
  frame_stack = top ∷ [];
  next_obj_id = 2;
  paused = true;
}

verdict_iff_example :
    (verdict engine posix session (codes "/w/a.js") (pos 4) ≡ stop PauseReason.step 0)
    ↔ Pauses engine posix session (codes "/w/a.js") (pos 4) PauseReason.step 0
verdict_iff_example = verdict_iff engine posix session (codes "/w/a.js") (pos 4) PauseReason.step 0

debug_trace_handler-Outcome_example :
    Outcome engine posix session
      (codes "/w/a.js")
      (pos 4)
      (tracked engine posix session (codes "/w/a.js") none (pos 4) (pos 1))
      (debug_trace_handler engine posix session (some (codes "/w/a.js")) none (pos 4) (pos 1))
debug_trace_handler-Outcome_example =
    debug_trace_handler-Outcome engine posix session (codes "/w/a.js") none (pos 4) (pos 1) refl
      refl

missed : check_breakpoint posix session top.filename top.line ≡ false
unfolding check_breakpoint hits
missed = refl

check_breakpoint-FirstHit_example :
    ((check_breakpoint posix session (codes "/w/a.js") (pos 3) ≡ true)
      × (session.bp_active ≡ true)
      × ((id : ℕ) × (bp : Breakpoint) × FirstHit posix
            (codes "/w/a.js")
            (pos 3)
            session.breakpoints
            id
            bp
          × (find_breakpoint posix session (codes "/w/a.js") (pos 3) ≡ (id, bp.condition))))
    ⊎ ((check_breakpoint posix session (codes "/w/a.js") (pos 3) ≡ false)
        × ((session.bp_active ≡ false)
            ⊎ AllMiss posix (codes "/w/a.js") (pos 3) session.breakpoints))
check_breakpoint-FirstHit_example =
    check_breakpoint-FirstHit posix (codes "/w/a.js") (pos 3) session

get_properties-evaluate_on_call_frame_example :
    get_properties (evaluate_on_call_frame engine session (codes "0") (codes "x")).0 (object_id 1)
    ≡ get_properties session (object_id 1)
get_properties-evaluate_on_call_frame_example =
    get_properties-evaluate_on_call_frame engine session (codes "0") (codes "x") 1 (omega arith)

-- One script has been added.
abbrev with_script : Session ℤ
with_script = record session {
  scripts = new_script 1 (codes "/w/a.js") (codes "f();") ∷ [];
  next_script_id = 2;
}

with_script-IsRegistered : IsRegistered with_script
unfolding new_script
with_script-IsRegistered = ((1, omega arith, refl), tt)

get_script_by_id-add_script_example :
    (get_script_by_id
        (add_script with_script (codes "/w/b.js") (codes "g();")).0.scripts
        (add_script with_script (codes "/w/b.js") (codes "g();")).1
      ≡ some (new_script 2 (codes "/w/b.js") (codes "g();")))
    × ((j : Bytes)
        → (add_script with_script (codes "/w/b.js") (codes "g();")).1 ≢ j
        → get_script_by_id (add_script with_script (codes "/w/b.js") (codes "g();")).0.scripts j
          ≡ get_script_by_id with_script.scripts j)
get_script_by_id-add_script_example =
    get_script_by_id-add_script with_script (codes "/w/b.js") (codes "g();")
      with_script-IsRegistered
