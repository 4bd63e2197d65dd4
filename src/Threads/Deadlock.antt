-- ===== src/Threads/Deadlock.antt =====
-- The notifications that are lost, because `paused_` and `pending_eval_` change without
-- `pause_mutex_` between the predicate of the script's wait and its blocking.
use quick_js_debugger.Prelude.{◌≡◌, refl, true, false, arith}
use quick_js_debugger.Threads.Invariant.{Reach-Inv}
use quick_js_debugger.Threads.State.{
  deciding, asleep, free, resuming, posting, dozing, State, ScriptMove, pause, loop, leave,
  see_resumed, see_paused, see_request, see_nothing, block, test_on, test_off, found, lost, lock,
  answer, withdrawn, unlock, ClientMove, resume, store, notify, ask, refuse, accept, post, call,
  finish, doze, of_script, of_client, Reach, Steps, still, and_then, Steps-Reach,
}

-- Neither thread can move: both are blocked.
pub record IsDeadlocked (t : State) : Type 0 where
  pub no_script : (u : State) → ScriptMove t u → ⊥
  pub no_client : (u : State) → ClientMove t u → ⊥

asleep-stuck : {t : State} → t.script ≡ asleep → (u : State) → ScriptMove t u → ⊥
asleep-stuck a _ (pause h) = ground arith
asleep-stuck a _ (loop h _) = ground arith
asleep-stuck a _ (leave h _) = ground arith
asleep-stuck a _ (see_resumed h _) = ground arith
asleep-stuck a _ (see_paused h _) = ground arith
asleep-stuck a _ (see_request h _) = ground arith
asleep-stuck a _ (see_nothing h _) = ground arith
asleep-stuck a _ (block h) = ground arith
asleep-stuck a _ (test_on h _) = ground arith
asleep-stuck a _ (test_off h _) = ground arith
asleep-stuck a _ (found h _) = ground arith
asleep-stuck a _ (lost h _) = ground arith
asleep-stuck a _ (lock h) = ground arith
asleep-stuck a _ (answer h _) = ground arith
asleep-stuck a _ (withdrawn h _) = ground arith
asleep-stuck a _ (unlock h) = ground arith

dozing-stuck : {t : State} → t.client ≡ dozing → (u : State) → ClientMove t u → ⊥
dozing-stuck a _ (resume h) = ground arith
dozing-stuck a _ (store h) = ground arith
dozing-stuck a _ (notify h) = ground arith
dozing-stuck a _ (ask h) = ground arith
dozing-stuck a _ (refuse h _) = ground arith
dozing-stuck a _ (accept h _) = ground arith
dozing-stuck a _ (post h _) = ground arith
dozing-stuck a _ (call h) = ground arith
dozing-stuck a _ (finish h _ _) = ground arith
dozing-stuck a _ (doze h _ _) = ground arith

-- From every reachable state in which a request is about to be posted, while the script's thread
-- has found nothing to do and is about to block, steps of the two threads lead to a state in which
-- neither thread can move, except by a wake-up without a notification, though the request has been
-- posted and the script is paused.
pub deadlock :
    {s : State}
    → Reach s
    → s.client ≡ posting
    → s.script ≡ deciding
    → (t : State) × Steps s t × Reach t × IsDeadlocked t × (t.pending ≡ true) × (t.paused ≡ true)
deadlock {s} r c p =
    let run =
      and_then
        (and_then
          (and_then (and_then still (of_client (post c (ground arith)))) (of_client (call refl)))
          (of_script (block (ground arith))))
        (of_client (doze refl (ground arith) refl)) in
    (
      _,
      run,
      Steps-Reach r run,
      record { no_script = asleep-stuck refl; no_client = dozing-stuck refl },
      refl,
      (Reach-Inv r).in_pause (ground arith),
    )

-- From every reachable state in which `resume` is about to end the pause, while the script's thread
-- is about to block, steps of the two threads lead to a state where `resume` is over and the script's
-- thread, though it is no longer paused, is blocked, and moves only when it is woken again.
pub lost_resume :
    {s : State}
    → Reach s
    → s.client ≡ resuming
    → s.script ≡ deciding
    → (t : State) × Steps s t
      × Reach t
      × (t.paused ≡ false)
      × (t.client ≡ free)
      × ((u : State) → ScriptMove t u → ⊥)
lost_resume {s} r c p =
    let run =
      and_then (and_then (and_then still (of_client (store c))) (of_client (notify refl)))
        (of_script (block (ground arith))) in
    (_, run, Steps-Reach r run, refl, refl, asleep-stuck refl)
