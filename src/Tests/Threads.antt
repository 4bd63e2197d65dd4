-- ===== src/Tests/Threads.antt =====
-- Runs of the two threads: a pause, and a request or its end that comes while the script's thread is
-- about to block.
use quick_js_debugger.Prelude.{◌≡◌, ◌≢◌, ◌⊎◌, refl, true, false}
use quick_js_debugger.Threads.State.{
  running, at_loop, deciding, signalled, Client, free, posting, State, ScriptMove, pause, loop,
  see_paused, see_nothing, resume, ask, accept, post, of_script, of_client, started, Reach, Steps,
  start, resuming, later,
}
use quick_js_debugger.Threads.Invariant.{evaluating, evaluation_safe}
use quick_js_debugger.Threads.Progress.{Gets, IsAnswered, gets_to_answer}
use quick_js_debugger.Threads.Deadlock.{IsDeadlocked, deadlock, lost_resume}
use quick_js_debugger.Threads.Start.{
  Starting, Starter, StarterMove, StarterRun, StartReach, RunsIfWaiting, two_threads, fresh,
  lost_start,
}

-- In the loop of `do_pause`.
abbrev paused_once : State
paused_once = record started { paused = true; script = at_loop }

paused_once-Reach : Reach paused_once
paused_once-Reach = later start (of_script (pause refl))

-- About to block, with nothing to do.
abbrev idle : State
idle = record paused_once { script = deciding }

idle-Reach : Reach idle
idle-Reach =
    later
      (later (later paused_once-Reach (of_script (loop refl refl)))
        (of_script (see_paused refl refl)))
      (of_script (see_nothing refl refl))

-- A request is about to be posted, and has been.
abbrev asked : State → State
asked s = record s { client = posting }

posting-Reach : {s : State} → Reach s → s.client ≡ free → s.paused ≡ true → Reach (asked s)
posting-Reach r c p = later (later r (of_client (ask c))) (of_client (accept refl p))

abbrev requested : State
requested = record paused_once { pending = true; ready = false; client = Client.waking }

requested-Reach : Reach requested
requested-Reach = later (posting-Reach paused_once-Reach refl refl) (of_client (post refl refl))

evaluation_safe_example :
    ((requested.pending ≡ false) ⊎ (evaluating requested.client ≡ true))
    × ((evaluating requested.client ≡ false) ⊎ (requested.script ≢ running))
    × ((requested.script ≢ signalled)
        ⊎ (requested.ready ≡ true) × (evaluating requested.client ≡ true))
evaluation_safe_example = evaluation_safe requested-Reach

gets_to_answer_example : Gets IsAnswered requested
gets_to_answer_example = gets_to_answer requested-Reach refl (λ e. cc) (λ e. cc)

deadlock_example :
    (t : State) × Steps (asked idle) t
    × Reach t
    × IsDeadlocked t
    × (t.pending ≡ true)
    × (t.paused ≡ true)
deadlock_example = deadlock (posting-Reach idle-Reach refl refl) refl refl

-- The client is about to resume.
abbrev leaving : State
leaving = record idle { client = resuming }

lost_resume_example :
    (t : State) × Steps leaving t
    × Reach t
    × (t.paused ≡ false)
    × (t.client ≡ free)
    × ((u : State) → ScriptMove t u → ⊥)
lost_resume_example = lost_resume (later idle-Reach (of_client (resume refl))) refl refl

lost_start_example :
    (u : Starting) × (t : Starting) × RunsIfWaiting two_threads u
    × StarterRun u t
    × StartReach t
    × (t.starter ≡ Starter.blocked)
    × (t.waiting ≡ true)
    × ((v : Starting) → StarterMove t v → ⊥)
lost_start_example = lost_start fresh refl refl
