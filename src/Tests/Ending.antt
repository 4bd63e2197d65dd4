-- ===== src/Tests/Ending.antt =====
-- The end of the program, with a client that has sent one message and with one that has sent none.
use quick_js_debugger.Prelude.{◌≡◌, refl, false}
use quick_js_debugger.Threads.Shutdown.{
  before_disconnect, joining, testing, receiving, accepting, Finish, OwnMove, go_on, enter,
  script_ends, of_own, of_outer, serving, FinishReach, start, later, OwnRun, OuterMove, emptied,
  before_clear,
}
use quick_js_debugger.Threads.Shutdown.Join.{join_waits}

-- The thread waits for a message.
abbrev listening : Finish
listening = record serving { listener = receiving }

listening-FinishReach : FinishReach listening
listening-FinishReach = later (later start (of_own (go_on refl refl))) (of_own (enter refl refl))

-- A message has come, and `main` has gone on to the join.
abbrev cleared : Finish
cleared = record listening { ws_running = false; ending = before_disconnect }

abbrev answered : Finish
answered = record cleared { connected = false; ending = joining; msg_count = 1; listener = testing }

-- The script has ended.
abbrev finished : Finish
finished = record listening { ending = before_clear }

join_waits_example :
    (a : Finish) × (b : Finish) × (t : Finish) × OwnRun finished a
    × ((a.ending ≡ joining) × (a.listener ≡ receiving) × (a.connected ≡ false))
    × OuterMove a b
    × ((b.listener ≡ emptied) × (b.msg_count ≡ 0))
    × OwnRun b t
    × FinishReach t
    × (t.ending ≡ joining)
    × (t.listener ≡ accepting)
    × ((u : Finish) → OwnMove t u → ⊥)
join_waits_example =
    join_waits (later listening-FinishReach (of_outer (script_ends refl))) refl refl refl
