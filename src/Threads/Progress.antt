-- ===== src/Threads/Progress.antt =====
-- What the script's thread does by itself: it answers a request, and it leaves a pause that has
-- been ended, unless it is about to block or blocked.
use quick_js_debugger.Prelude.{◌≡◌, ◌≢◌, refl, true, false, arith}
use quick_js_debugger.Threads.State.{
  Script, running, at_loop, check_paused, check_pending, deciding, asleep, test_paused,
  test_pending, locking, holding, signalled, State, ScriptMove, loop, leave, see_resumed,
  see_paused, see_request, test_on, test_off, found, lost, lock, answer, withdrawn, unlock,
  ScriptRun, done, then_step, Reach,
}
use quick_js_debugger.Threads.Invariant.{Inv, Reach-Inv}

-- The script's thread gets to a state with `P` by its own steps.
abbrev pub Gets : (State → Type 0) → State → Type 0
Gets P s = (t : State) × ScriptRun s t × P t

first : {P : State → Type 0} {s t : State} → ScriptMove s t → Gets P t → Gets P s
first mv (u, run, p) = (u, then_step mv run, p)

abbrev pub IsAnswered : State → Type 0
IsAnswered t = t.ready ≡ true

abbrev IsRunning : State → Type 0
IsRunning t = t.script ≡ running

-- Towards an answer, from further and further back.
module _ (s : State) (request : s.pending ≡ true) where
  abbrev standing : Script → State
  standing p = record s { script = p }

  from_locking : Gets IsAnswered (standing locking)
  from_locking = first (lock refl) (_, then_step (answer refl request) done, refl)

  from_test_pending : Gets IsAnswered (standing test_pending)
  from_test_pending = first (found refl request) from_locking

  module _ (on : s.paused ≡ true) where
    from_test_paused : Gets IsAnswered (standing test_paused)
    from_test_paused = first (test_on refl on) from_test_pending

    from_check_paused : Gets IsAnswered (standing check_paused)
    from_check_paused =
        first (see_paused refl on) (first (see_request refl request) from_test_paused)

  answers :
      (p : Script) → Inv (standing p) → p ≢ deciding → p ≢ asleep → Gets IsAnswered (standing p)
  answers running v d a = absurd (off v)
    where
      off : Inv (standing running) → ⊥
      off w = ground arith
  answers at_loop v d a = first (loop refl (on v)) (from_check_paused (on v))
    where
      on : Inv (standing at_loop) → s.paused ≡ true
      on w = ground arith
  answers check_paused v d a = from_check_paused (ground arith)
  answers check_pending v d a = first (see_request refl request) (from_test_paused (ground arith))
  answers deciding v d a = absurd (d refl)
  answers asleep v d a = absurd (a refl)
  answers test_paused v d a = from_test_paused (ground arith)
  answers test_pending v d a = from_test_pending
  answers locking v d a = from_locking
  answers holding v d a = (_, then_step (answer refl request) done, refl)
  answers signalled v d a = (_, done, v.given refl)

-- Towards the end of a pause.
module _ (s : State) (off : s.paused ≡ false) where
  abbrev here : Script → State
  here p = record s { script = p }

  from_loop : Gets IsRunning (here at_loop)
  from_loop = (_, then_step (leave refl off) done, refl)

  leaves :
      (p : Script)
      → Inv (here p)
      → p ≢ check_pending
      → p ≢ deciding
      → p ≢ asleep
      → Gets IsRunning (here p)
  leaves running v q d a = (_, done, refl)
  leaves at_loop v q d a = from_loop
  leaves check_paused v q d a = first (see_resumed refl off) (first (test_off refl off) from_loop)
  leaves check_pending v q d a = absurd (q refl)
  leaves deciding v q d a = absurd (d refl)
  leaves asleep v q d a = absurd (a refl)
  leaves test_paused v q d a = first (test_off refl off) from_loop
  leaves test_pending v q d a = first (lost refl (ground arith)) from_loop
  leaves locking v q d a = first (lock refl) (first (withdrawn refl (ground arith)) from_loop)
  leaves holding v q d a = first (withdrawn refl (ground arith)) from_loop
  leaves signalled v q d a = first (unlock refl) from_loop

-- In a reachable state with a request at hand, the script's thread by itself gets to answer it,
-- unless it is about to block or blocked.
pub gets_to_answer :
    {s : State}
    → Reach s
    → s.pending ≡ true
    → s.script ≢ deciding
    → s.script ≢ asleep
    → Gets IsAnswered s
gets_to_answer {s} r request d a = answers s request s.script (Reach-Inv r) d a

-- In a reachable state where the pause has been ended, the script's thread by itself gets to run
-- on, unless it is blocked, about to block, or reading whether there is a request.
gets_to_run :
    {s : State}
    → Reach s
    → s.paused ≡ false
    → s.script ≢ check_pending
    → s.script ≢ deciding
    → s.script ≢ asleep
    → Gets IsRunning s
gets_to_run {s} r off q d a = leaves s off s.script (Reach-Inv r) q d a
