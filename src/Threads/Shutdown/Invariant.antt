-- ===== src/Threads/Shutdown/Invariant.antt =====
-- What holds in every reachable state of the end of the program.
use quick_js_debugger.Prelude.{ℕ, ◌<◌, ◌≡◌, refl, Bool, true, false, arith}
use quick_js_debugger.Threads.Shutdown.{
  Ending, evaluating, before_clear, joining, ended, Listener, entering, receiving, reaccepting,
  accepting, exited, Finish, OwnMove, clear, disconnect, join, go_on, stop, enter, turn_back,
  give_up, see_dropped, leave, replace, close, OuterMove, script_ends, message, control,
  empty_message, lost, client_comes, accept_fails, of_own, of_outer, FinishReach, start, later,
}

-- `ws_running` has been cleared.
abbrev pub cleared : Ending → Bool
cleared evaluating = false
cleared before_clear = false
cleared _ = true

-- The thread takes the client for a probe.
abbrev pub probed : Listener → Bool
probed reaccepting = true
probed accepting = true
probed _ = false

-- The messages that a thread can still be given once `ws_running` is cleared.
abbrev pub to_come : Listener → ℕ
to_come entering = 1
to_come receiving = 1
to_come _ = 0

-- `main` has disconnected.
abbrev pub past : Ending → Bool
past joining = true
past ended = true
past _ = false

pub record Closes (s : Finish) : Type 0 where
  pub stopping : cleared s.ending ≡ true → s.ws_running ≡ false
  pub over : s.ending ≡ ended → s.listener ≡ exited
  pub probes : probed s.listener ≡ true → s.msg_count ≡ 0
  pub unheard : past s.ending ≡ true → 0 < to_come s.listener → s.connected ≡ false

pub Closes-OwnMove : {s t : Finish} → OwnMove s t → Closes s → Closes t
Closes-OwnMove (clear h) v = ground arith
Closes-OwnMove (disconnect h) v = ground arith
Closes-OwnMove (join h k) v = ground arith
Closes-OwnMove (go_on h k) v = ground arith
Closes-OwnMove (stop h k) v = ground arith
Closes-OwnMove (enter h k) v = ground arith
Closes-OwnMove (turn_back h k) v = ground arith
Closes-OwnMove (give_up h k) v = ground arith
Closes-OwnMove (see_dropped h k) v = ground arith
Closes-OwnMove (leave h k) v = ground arith
Closes-OwnMove (replace h k) v = ground arith
Closes-OwnMove (close h) v = ground arith

pub Closes-OuterMove : {s t : Finish} → OuterMove s t → Closes s → Closes t
Closes-OuterMove (script_ends h) v = ground arith
Closes-OuterMove (message h) v = ground arith
Closes-OuterMove (control h) v = ground arith
Closes-OuterMove (empty_message h) v = ground arith
Closes-OuterMove (lost h) v = ground arith
Closes-OuterMove (client_comes h) v = ground arith
Closes-OuterMove (accept_fails h) v = ground arith

pub FinishReach-Closes : {s : Finish} → FinishReach s → Closes s
FinishReach-Closes start = record {
  stopping = λ e. cc;
  over = λ e. cc;
  probes = λ e. refl;
  unheard = λ e h. cc;
}
FinishReach-Closes (later r (of_own mv)) = Closes-OwnMove mv (FinishReach-Closes r)
FinishReach-Closes (later r (of_outer mv)) = Closes-OuterMove mv (FinishReach-Closes r)
