-- ===== src/Threads/Shutdown/Join.antt =====
-- When the join at the end of `main` comes back.
use quick_js_debugger.Prelude.{◌<◌, ◌≡◌, ◌≢◌, refl, true, false, arith}
use quick_js_debugger.Threads.Shutdown.{
  before_clear, joining, ended, Listener, receiving, emptied, accepting, Finish, OwnMove, OuterMove,
  clear, disconnect, join, go_on, stop, enter, turn_back, give_up, see_dropped, leave, replace,
  close, lost, of_own, of_outer, OwnRun, own_here, then_own, FinishReach, later,
}
use quick_js_debugger.Threads.Shutdown.Invariant.{past, Closes}

-- The program gets to its end without anything from outside.
abbrev pub Ends : Finish → Type 0
Ends s = (t : Finish) × OwnRun s t × (t.ending ≡ ended)

FinishReach-OwnRun : {s t : Finish} → FinishReach s → OwnRun s t → FinishReach t
FinishReach-OwnRun r own_here = r
FinishReach-OwnRun r (then_own mv run) = FinishReach-OwnRun (later r (of_own mv)) run

-- Towards the end, from further and further back.
module _ (s : Finish) (off : s.ws_running ≡ false) (joined : s.ending ≡ joining)
    (some_messages : 0 < s.msg_count) where
  abbrev at_ : Listener → Finish
  at_ p = record s { listener = p }

-- Behind the disconnection, with a message received and not in `recv`.
record Closing (s : Finish) : Type 0 where
  closes : Closes s
  behind : past s.ending ≡ true
  counted : 0 < s.msg_count
  away : s.listener ≢ receiving

-- A step of a thread by itself keeps this.
record Kept (t : Finish) : Type 0 where
  behind : past t.ending ≡ true
  counted : 0 < t.msg_count
  away : t.listener ≢ receiving

-- From every reachable state in which the script has ended and the client, which has sent nothing, is
-- still being listened to: `main` and the WebSocket thread by themselves get to the join, where the
-- connection is off; the `recv` that is still waiting may then return with nothing; and steps of the
-- WebSocket thread by itself lead from there to a state in which it waits for another client, while
-- `main` still joins it: neither can move by itself.
pub join_waits :
    {s : Finish}
    → FinishReach s
    → s.ending ≡ before_clear
    → s.listener ≡ receiving
    → s.msg_count ≡ 0
    → (a : Finish) × (b : Finish) × (t : Finish) × OwnRun s a
      × ((a.ending ≡ joining) × (a.listener ≡ receiving) × (a.connected ≡ false))
      × OuterMove a b
      × ((b.listener ≡ emptied) × (b.msg_count ≡ 0))
      × OwnRun b t
      × FinishReach t
      × (t.ending ≡ joining)
      × (t.listener ≡ accepting)
      × ((u : Finish) → OwnMove t u → ⊥)
join_waits r e l m =
    let to_join = then_own (clear e) (then_own (disconnect refl) own_here) in
    let back = lost l in
    let to_accept =
      then_own (see_dropped refl refl)
        (then_own (replace refl m) (then_own (close refl) own_here)) in
    (
      _,
      _,
      _,
      to_join,
      (refl, l, refl),
      back,
      (refl, m),
      to_accept,
      FinishReach-OwnRun (later (FinishReach-OwnRun r to_join) (of_outer back)) to_accept,
      refl,
      refl,
      waiting refl refl,
    )
  where
    waiting :
        {t : Finish} → t.ending ≡ joining → t.listener ≡ accepting → (u : Finish) → OwnMove t u → ⊥
    waiting j a _ (clear h) = ground arith
    waiting j a _ (disconnect h) = ground arith
    waiting j a _ (join h k) = ground arith
    waiting j a _ (go_on h k) = ground arith
    waiting j a _ (stop h k) = ground arith
    waiting j a _ (enter h k) = ground arith
    waiting j a _ (turn_back h k) = ground arith
    waiting j a _ (give_up h k) = ground arith
    waiting j a _ (see_dropped h k) = ground arith
    waiting j a _ (leave h k) = ground arith
    waiting j a _ (replace h k) = ground arith
    waiting j a _ (close h) = ground arith
