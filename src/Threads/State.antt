-- ===== src/Threads/State.antt =====
-- The shared variables, where each thread stands, and the steps of one access each. The script's
-- thread is the only one that takes `pause_mutex_`, so that mutex excludes nothing and is left out.
-- A section of the WebSocket thread under `eval_mutex_` is one step, which waits while the script's
-- thread holds that mutex.
use quick_js_debugger.Prelude.{◌≡◌, Bool, true, false}

-- Where the script's thread stands.
pub data Script : Type 0 where
  running : Script  -- outside of `do_pause`
  at_loop : Script  -- before `while (paused_.load())`
  check_paused : Script  -- in the predicate of `pause_cv_.wait`, before each of its loads
  check_pending : Script
  deciding : Script  -- the predicate was false; not blocked yet
  asleep : Script  -- blocked
  test_paused : Script  -- behind the wait, before each load of `if (paused_.load() && …)`
  test_pending : Script
  locking : Script  -- before `eval_mutex_` is taken
  holding : Script  -- with it, before `if (pending_eval_)`
  signalled : Script  -- the request has been answered, and the mutex is still held

-- Where the WebSocket thread stands.
pub data Client : Type 0 where
  free : Client  -- between two messages
  resuming : Client  -- in `resume` or `on_disconnect`, before `paused_.store(false)`
  notifying : Client  -- before `pause_cv_.notify_all()` there
  asking : Client  -- in `evaluate_on_call_frame`, before `paused_.load()`
  posting : Client  -- before `pending_eval_ = &req`
  waking : Client  -- before `pause_cv_.notify_all()` there
  waiting : Client  -- before `req.ready` is read in the wait on `eval_done_cv_`
  dozing : Client  -- blocked in that wait

-- `paused_`, whether `pending_eval_` is not null, and `ready` of the request at hand.
pub record State : Type 0 where
  pub paused : Bool
  pub pending : Bool
  pub ready : Bool
  pub script : Script
  pub client : Client

-- The script's thread holds `eval_mutex_`.
abbrev pub holds : Script → Bool
holds holding = true
holds signalled = true
holds _ = false

-- `pause_cv_.notify_all()`, and `eval_done_cv_.notify_all()`.
abbrev pub wake_script : Script → Script
wake_script asleep = check_paused
wake_script p = p

abbrev pub wake_client : Client → Client
wake_client dozing = waiting
wake_client c = c

-- A step of the script's thread. Each constructor is named for what the thread does or finds.
pub data ScriptMove (s : State) : State → Type 0 where
  pause : s.script ≡ running → ScriptMove s (record s { paused = true; script = at_loop })
  loop : s.script ≡ at_loop → s.paused ≡ true → ScriptMove s (record s { script = check_paused })
  leave : s.script ≡ at_loop → s.paused ≡ false → ScriptMove s (record s { script = running })
  see_resumed :
      s.script ≡ check_paused → s.paused ≡ false → ScriptMove s (record s { script = test_paused })
  see_paused :
      s.script ≡ check_paused → s.paused ≡ true → ScriptMove s (record s { script = check_pending })
  see_request :
      s.script ≡ check_pending → s.pending ≡ true → ScriptMove s (record s { script = test_paused })
  see_nothing :
      s.script ≡ check_pending → s.pending ≡ false → ScriptMove s (record s { script = deciding })
  block : s.script ≡ deciding → ScriptMove s (record s { script = asleep })
  test_on :
      s.script ≡ test_paused → s.paused ≡ true → ScriptMove s (record s { script = test_pending })
  test_off :
      s.script ≡ test_paused → s.paused ≡ false → ScriptMove s (record s { script = at_loop })
  found : s.script ≡ test_pending → s.pending ≡ true → ScriptMove s (record s { script = locking })
  lost : s.script ≡ test_pending → s.pending ≡ false → ScriptMove s (record s { script = at_loop })
  lock : s.script ≡ locking → ScriptMove s (record s { script = holding })
  answer :
      s.script ≡ holding
      → s.pending ≡ true
      → ScriptMove s (record s { ready = true; script = signalled; client = wake_client s.client })
  withdrawn : s.script ≡ holding → s.pending ≡ false → ScriptMove s (record s { script = at_loop })
  unlock : s.script ≡ signalled → ScriptMove s (record s { script = at_loop })

-- A step of the WebSocket thread.
pub data ClientMove (s : State) : State → Type 0 where
  resume : s.client ≡ free → ClientMove s (record s { client = resuming })
  store : s.client ≡ resuming → ClientMove s (record s { paused = false; client = notifying })
  notify :
      s.client ≡ notifying
      → ClientMove s (record s { script = wake_script s.script; client = free })
  ask : s.client ≡ free → ClientMove s (record s { client = asking })
  refuse : s.client ≡ asking → s.paused ≡ false → ClientMove s (record s { client = free })
  accept : s.client ≡ asking → s.paused ≡ true → ClientMove s (record s { client = posting })
  post :
      s.client ≡ posting
      → holds s.script ≡ false
      → ClientMove s (record s { pending = true; ready = false; client = waking })
  call :
      s.client ≡ waking
      → ClientMove s (record s { script = wake_script s.script; client = waiting })
  finish :
      s.client ≡ waiting
      → holds s.script ≡ false
      → s.ready ≡ true
      → ClientMove s (record s { pending = false; client = free })
  doze :
      s.client ≡ waiting
      → holds s.script ≡ false
      → s.ready ≡ false
      → ClientMove s (record s { client = dozing })

-- A step of the program, or a wake-up without a notification, which either wait allows.
pub data Step (s : State) : State → Type 0 where
  of_script : {t : State} → ScriptMove s t → Step s t
  of_client : {t : State} → ClientMove s t → Step s t
  spurious_script : s.script ≡ asleep → Step s (record s { script = check_paused })
  spurious_client : s.client ≡ dozing → Step s (record s { client = waiting })

-- The script runs and no request is at hand.
abbrev pub started : State
started = record { paused = false; pending = false; ready = false; script = running; client = free }

pub data Reach : State → Type 0 where
  start : Reach started
  later : {s t : State} → Reach s → Step s t → Reach t

-- Steps of the program from a state on.
pub data Steps (s : State) : State → Type 0 where
  still : Steps s s
  and_then : {t u : State} → Steps s t → Step t u → Steps s u

pub Steps-Reach : {s t : State} → Reach s → Steps s t → Reach t
Steps-Reach r still = r
Steps-Reach r (and_then run st) = later (Steps-Reach r run) st

-- Steps of the script's thread alone.
pub data ScriptRun : State → State → Type 0 where
  done : {s : State} → ScriptRun s s
  then_step : {s t u : State} → ScriptMove s t → ScriptRun t u → ScriptRun s u
