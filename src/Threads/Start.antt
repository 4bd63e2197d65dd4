-- ===== src/Threads/Start.antt =====
-- `wait_for_debugger` (debug_session.cpp) on the script's thread, which `main` calls once with
-- `pause_on_start_` set and the WebSocket thread running, against `run_if_waiting` there: one access of
-- `waiting_`, one notification or one blocking in a step. `wait_mutex_` is only taken by the script's
-- thread and is left out.
use quick_js_debugger.Prelude.{◌≡◌, refl, Bool, true, false, arith}

-- Where the script's thread stands.
pub data Starter : Type 0 where
  before_store : Starter  -- before `waiting_.store(true)`
  before_check : Starter  -- in the predicate of `wait_cv_.wait`
  before_block : Starter  -- the predicate was false; not blocked yet
  blocked : Starter
  evaluating : Starter  -- behind the wait

-- Where the WebSocket thread stands.
pub data Releaser : Type 0 where
  idle : Releaser  -- outside of `run_if_waiting` and `on_disconnect`
  before_notify : Releaser  -- between `waiting_.store(false)` and `wait_cv_.notify_all()`

-- `waiting_`, and where the threads stand.
pub record Starting : Type 0 where
  pub waiting : Bool
  pub starter : Starter
  pub releaser : Releaser

-- `wait_cv_.notify_all()`.
abbrev pub wake_starter : Starter → Starter
wake_starter blocked = before_check
wake_starter p = p

pub data StarterMove (s : Starting) : Starting → Type 0 where
  store_true :
      s.starter ≡ before_store → StarterMove s (record s { waiting = true; starter = before_check })
  still_waiting :
      s.starter ≡ before_check
      → s.waiting ≡ true
      → StarterMove s (record s { starter = before_block })
  released :
      s.starter ≡ before_check
      → s.waiting ≡ false
      → StarterMove s (record s { starter = evaluating })
  sleep : s.starter ≡ before_block → StarterMove s (record s { starter = blocked })

pub data ReleaserMove (s : Starting) : Starting → Type 0 where
  store_false :
      s.releaser ≡ idle → ReleaserMove s (record s { waiting = false; releaser = before_notify })
  notify_start :
      s.releaser ≡ before_notify
      → ReleaserMove s (record s { starter = wake_starter s.starter; releaser = idle })

-- A step of either thread, or a wake-up without a notification.
pub data StartStep (s : Starting) : Starting → Type 0 where
  of_starter : {t : Starting} → StarterMove s t → StartStep s t
  of_releaser : {t : Starting} → ReleaserMove s t → StartStep s t
  spurious : s.starter ≡ blocked → StartStep s (record s { starter = before_check })

abbrev pub two_threads : Starting
two_threads = record { waiting = false; starter = before_store; releaser = idle }

pub data StartReach : Starting → Type 0 where
  fresh : StartReach two_threads
  next : {s t : Starting} → StartReach s → StartStep s t → StartReach t

blocked-stuck : {t : Starting} → t.starter ≡ blocked → (u : Starting) → StarterMove t u → ⊥
blocked-stuck b _ (store_true h) = ground arith
blocked-stuck b _ (still_waiting h _) = ground arith
blocked-stuck b _ (released h _) = ground arith
blocked-stuck b _ (sleep h) = ground arith

-- Steps of the script's thread alone.
pub data StarterRun : Starting → Starting → Type 0 where
  rest : {s : Starting} → StarterRun s s
  then_starter : {s t u : Starting} → StarterMove s t → StarterRun t u → StarterRun s u

StartReach-StarterRun : {s t : Starting} → StartReach s → StarterRun s t → StartReach t
StartReach-StarterRun r rest = r
StartReach-StarterRun r (then_starter mv run) = StartReach-StarterRun (next r (of_starter mv)) run

-- The two steps of `run_if_waiting`, with no step of the script's thread between them.
pub record RunsIfWaiting (s u : Starting) : Type 0 where
  pub between : Starting
  pub at_store : s.releaser ≡ idle
  pub stores : ReleaserMove s between
  pub notifies : ReleaserMove between u
  pub returned : u.releaser ≡ idle

-- From every reachable state in which the script's thread has not begun to wait and the WebSocket
-- thread is about to run `run_if_waiting`: that function runs from its store to its notification, and
-- then steps of the script's thread alone lead to a state in which it is blocked, waiting to be
-- released, and can take no step by itself.
pub lost_start :
    {s : Starting}
    → StartReach s
    → s.starter ≡ before_store
    → s.releaser ≡ idle
    → (u : Starting) × (t : Starting) × RunsIfWaiting s u
      × StarterRun u t
      × StartReach t
      × (t.starter ≡ blocked)
      × (t.waiting ≡ true)
      × ((v : Starting) → StarterMove t v → ⊥)
lost_start {s} r p c =
    let released : RunsIfWaiting s
        (record s { waiting = false; starter = wake_starter s.starter; releaser = idle }) =
      record {
        between = record s { waiting = false; releaser = before_notify };
        at_store = c;
        stores = store_false c;
        notifies = notify_start refl;
        returned = refl;
      } in
    let run =
      then_starter (store_true (ground arith))
        (then_starter (still_waiting refl refl) (then_starter (sleep refl) rest)) in
    (
      _,
      _,
      released,
      run,
      StartReach-StarterRun
          (next (next r (of_releaser released.stores)) (of_releaser released.notifies)) run,
      refl,
      refl,
      blocked-stuck refl,
    )
