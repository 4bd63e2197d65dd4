-- ===== src/Threads/Invariant.antt =====
-- What holds in every reachable state of the two threads.
use quick_js_debugger.Prelude.{◌⊎◌, inl, inr, Bool-cases, ◌≡◌, ◌≢◌, refl, Bool, true, false, arith}
use quick_js_debugger.Threads.State.{
  at_loop, check_paused, check_pending, deciding, asleep, test_paused, test_pending, locking,
  holding, Script, running, signalled, Client, dozing, State, ScriptMove, ClientMove, pause, loop,
  leave, see_resumed, see_paused, see_request, see_nothing, block, test_on, test_off, found, lost,
  lock, answer, withdrawn, unlock, resume, store, notify, ask, refuse, accept, post, call, finish,
  doze, Step, of_script, of_client, spurious_script, spurious_client, Reach, start, later,
}

-- `evaluate_on_call_frame` has found the script paused and has not returned.
abbrev pub evaluating : Client → Bool
evaluating Client.posting = true
evaluating Client.waking = true
evaluating Client.waiting = true
evaluating Client.dozing = true
evaluating _ = false

-- It has posted its request, which lives on its stack.
abbrev pub posted : Client → Bool
posted Client.waking = true
posted Client.waiting = true
posted Client.dozing = true
posted _ = false

pub record Inv (s : State) : Type 0 where
  pub in_pause : evaluating s.client ≡ true → s.paused ≡ true
  pub alive : s.pending ≡ posted s.client
  pub out_of_pause : s.script ≡ running → s.paused ≡ false
  pub given : s.script ≡ signalled → s.ready ≡ true
  pub kept : s.script ≡ signalled → s.pending ≡ true
  pub unread : s.client ≡ dozing → s.ready ≡ false

Inv-ScriptMove : {s t : State} → ScriptMove s t → Inv s → Inv t
Inv-ScriptMove (pause e) v = ground arith
Inv-ScriptMove (loop e h) v = ground arith
Inv-ScriptMove (leave e h) v = ground arith
Inv-ScriptMove (see_resumed e h) v = ground arith
Inv-ScriptMove (see_paused e h) v = ground arith
Inv-ScriptMove (see_request e h) v = ground arith
Inv-ScriptMove (see_nothing e h) v = ground arith
Inv-ScriptMove (block e) v = ground arith
Inv-ScriptMove (test_on e h) v = ground arith
Inv-ScriptMove (test_off e h) v = ground arith
Inv-ScriptMove (found e h) v = ground arith
Inv-ScriptMove (lost e h) v = ground arith
Inv-ScriptMove (lock e) v = ground arith
Inv-ScriptMove (answer e h) v = ground arith
Inv-ScriptMove (withdrawn e h) v = ground arith
Inv-ScriptMove (unlock e) v = ground arith

Inv-ClientMove : {s t : State} → ClientMove s t → Inv s → Inv t
Inv-ClientMove (resume e) v = ground arith
Inv-ClientMove (store e) v = ground arith
Inv-ClientMove (notify e) v = ground arith
Inv-ClientMove (ask e) v = ground arith
Inv-ClientMove (refuse e h) v = ground arith
Inv-ClientMove (accept e h) v = ground arith
Inv-ClientMove (post e h) v = ground arith
Inv-ClientMove (call e) v = ground arith
Inv-ClientMove (finish e h k) v = ground arith
Inv-ClientMove (doze e h k) v = ground arith

Inv-Step : {s t : State} → Step s t → Inv s → Inv t
Inv-Step (of_script mv) v = Inv-ScriptMove mv v
Inv-Step (of_client mv) v = Inv-ClientMove mv v
Inv-Step (spurious_script e) v = ground arith
Inv-Step (spurious_client e) v = ground arith

pub Reach-Inv : {s : State} → Reach s → Inv s
Reach-Inv start = record {
  in_pause = λ e. cc;
  alive = refl;
  out_of_pause = λ e. refl;
  given = λ e. cc;
  kept = λ e. cc;
  unread = λ e. refl;
}
Reach-Inv (later r st) = Inv-Step st (Reach-Inv r)

signalled-cases : (p : Script) → (p ≡ signalled) ⊎ (p ≢ signalled)
signalled-cases signalled = inl refl
signalled-cases running = inr (λ e. cc)
signalled-cases at_loop = inr (λ e. cc)
signalled-cases check_paused = inr (λ e. cc)
signalled-cases check_pending = inr (λ e. cc)
signalled-cases deciding = inr (λ e. cc)
signalled-cases asleep = inr (λ e. cc)
signalled-cases test_paused = inr (λ e. cc)
signalled-cases test_pending = inr (λ e. cc)
signalled-cases locking = inr (λ e. cc)
signalled-cases holding = inr (λ e. cc)

-- In every reachable state: a request is posted only while the call that posted it has not returned;
-- while a call has found the script paused and has not returned, the script is not running; and where the script's thread has
-- answered and still holds the mutex, the request is marked ready and its call has not returned.
pub evaluation_safe :
    {s : State}
    → Reach s
    → ((s.pending ≡ false) ⊎ (evaluating s.client ≡ true))
      × ((evaluating s.client ≡ false) ⊎ (s.script ≢ running))
      × ((s.script ≢ signalled) ⊎ (s.ready ≡ true) × (evaluating s.client ≡ true))
evaluation_safe {s} r =
    let v = Reach-Inv r in
    (
      elim (Bool-cases s.pending) [ inl p ↦ inr (ground arith) | inr p ↦ inl p ],
      elim (Bool-cases (evaluating s.client)) [ inl c ↦ inr (λ e. ground arith) | inr c ↦ inl c ],
      elim (signalled-cases s.script) [ inl g ↦ inr (ground arith) | inr g ↦ inl g ],
    )
