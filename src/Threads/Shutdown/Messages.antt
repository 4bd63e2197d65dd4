-- ===== src/Threads/Shutdown/Messages.antt =====
-- How many messages are still handled once `ws_running` is cleared.
use quick_js_debugger.Prelude.{◌+◌, ◌≤◌, ◌≡◌, ◌≢◌, refl, false, arith, ◌⊎◌, inl, inr}
use quick_js_debugger.Threads.Shutdown.{
  Ending, evaluating, before_clear, before_disconnect, joining, ended, exited, Finish, OwnMove,
  clear, disconnect, join, go_on, stop, enter, turn_back, give_up, see_dropped, leave, replace,
  close, OuterMove, script_ends, message, control, empty_message, lost, client_comes, accept_fails,
  FinishStep, of_own, of_outer, Run, here, then_run, FinishReach, later,
}
use quick_js_debugger.Threads.Shutdown.Invariant.{to_come, Closes, FinishReach-Closes}

record Fewer (s t : Finish) : Type 0 where
  cleared_still : t.ws_running ≡ false
  fewer : t.msg_count + to_come t.listener ≤ s.msg_count + to_come s.listener

Fewer-OwnMove : {s t : Finish} → OwnMove s t → s.ws_running ≡ false → Fewer s t
Fewer-OwnMove (clear h) v = ground arith
Fewer-OwnMove (disconnect h) v = ground arith
Fewer-OwnMove (join h k) v = ground arith
Fewer-OwnMove (go_on h k) v = ground arith
Fewer-OwnMove (stop h k) v = ground arith
Fewer-OwnMove (enter h k) v = ground arith
Fewer-OwnMove (turn_back h k) v = ground arith
Fewer-OwnMove (give_up h k) v = ground arith
Fewer-OwnMove (see_dropped h k) v = ground arith
Fewer-OwnMove (leave h k) v = ground arith
Fewer-OwnMove (replace h k) v = ground arith
Fewer-OwnMove (close h) v = ground arith

Fewer-OuterMove : {s t : Finish} → OuterMove s t → s.ws_running ≡ false → Fewer s t
Fewer-OuterMove (script_ends h) v = ground arith
Fewer-OuterMove (message h) v = ground arith
Fewer-OuterMove (control h) v = ground arith
Fewer-OuterMove (empty_message h) v = ground arith
Fewer-OuterMove (lost h) v = ground arith
Fewer-OuterMove (client_comes h) v = ground arith
Fewer-OuterMove (accept_fails h) v = ground arith

Fewer-FinishStep : {s t : Finish} → FinishStep s t → s.ws_running ≡ false → Fewer s t
Fewer-FinishStep (of_own mv) v = Fewer-OwnMove mv v
Fewer-FinishStep (of_outer mv) v = Fewer-OuterMove mv v

Fewer-Run : {s t : Finish} → Run s t → s.ws_running ≡ false → Fewer s t
Fewer-Run here v = record { cleared_still = v; fewer = omega arith }
Fewer-Run (then_run st run) v =
    let one = Fewer-FinishStep st v in
    let more = Fewer-Run run one.cleared_still in
    record { cleared_still = more.cleared_still; fewer = omega (arith, one.fewer, more.fewer) }

reach_run : {s t : Finish} → FinishReach s → Run s t → FinishReach t
reach_run r here = r
reach_run r (then_run st run) = reach_run (later r st) run

has_exited : (s : Finish) → Closes s → (s.ending ≢ ended) ⊎ (s.listener ≡ exited)
has_exited s v = ended_or s.ending v.over
  where
    ended_or :
        (p : Ending) → (p ≡ ended → s.listener ≡ exited) → (p ≢ ended) ⊎ (s.listener ≡ exited)
    ended_or evaluating h = inl (λ e. cc)
    ended_or before_clear h = inl (λ e. cc)
    ended_or before_disconnect h = inl (λ e. cc)
    ended_or joining h = inl (λ e. cc)
    ended_or ended h = inr (h refl)

-- From a reachable state in which `ws_running` has been cleared, at most one more message is handled,
-- and none unless the WebSocket thread has entered `receive` by then; and where the join has come back,
-- that thread has returned.
few_messages :
    {s t : Finish}
    → FinishReach s
    → s.ws_running ≡ false
    → Run s t
    → (t.msg_count ≤ s.msg_count + to_come s.listener)
      × ((t.ending ≢ ended) ⊎ (t.listener ≡ exited))
few_messages {s} {t} r off run =
    let f = Fewer-Run run off in
    (omega (arith, f.fewer), has_exited t (FinishReach-Closes (reach_run r run)))
