-- ===== src/Threads/Sending/Frames.antt =====
-- Frames do not mix: what a client has been sent is whole frames and a front of one.
use mathlib.Core.Path.{subst}
use quick_js_debugger.Prelude.{
  ℕ, zero, suc, ◌+◌, ◌≤◌, ◌≡◌, ◌⊎◌, refl, sym, ap, ◌∙◌, inl, inr, Bool, true, false, ◌||◌, ◌&&◌,
  List, [], ◌∷◌, ◌++◌, length, take, drop, append_assoc, append-nil, arith, Bool-cases,
}
use quick_js_debugger.Text.Bytes.{Bytes}
use quick_js_debugger.Ws.Frames.{frame_header, send_ws_frame}
use quick_js_debugger.Threads.Sending.{
  Writer, idle, locking, checking, at_header, at_payload, unlocking, Line, Side, Move, begin,
  begin_pong, begin_close, lock, refuse, accept, send_header, cut_header, send_part, fail_part,
  finish, unlock, Senders, SendStep, of_script, of_client, hang_up, SendReach, opened, then_sends,
}

-- The thread holds `send_mutex_`.
abbrev pub inside : Writer → Bool
inside idle = false
inside (locking guarded opcode payload) = false
inside _ = true

-- The part of its frame that a thread has sent.
abbrev pub part : Writer → Bytes
part (at_payload opcode payload sent) = frame_header opcode (length payload) ++ take sent payload
part _ = []

-- Whole frames, one after the other.
abbrev pub frames : List (ℕ × Bytes) → Bytes
frames [] = []
frames ((opcode, payload) ∷ fs) = send_ws_frame opcode payload ++ frames fs

frames-append :
    (fs : List (ℕ × Bytes)) (opcode : ℕ) (payload : Bytes)
    → frames (fs ++ (opcode, payload) ∷ []) ≡ frames fs ++ send_ws_frame opcode payload
frames-append [] opcode payload = append-nil (send_ws_frame opcode payload)
frames-append ((o, p) ∷ fs) opcode payload =
    ap (◌++◌ (send_ws_frame o p)) (frames-append fs opcode payload)
    ∙ sym (append_assoc (send_ws_frame o p) (frames fs) (send_ws_frame opcode payload))

take_nil : (n : ℕ) → take {A = ℕ} n [] ≡ []
take_nil zero = refl
take_nil (suc n) = refl

pub take_more : (m n : ℕ) (d : Bytes) → take m d ++ take n (drop m d) ≡ take (m + n) d
take_more zero n d = let e : n ≡ 0 + n = omega arith in ap (λ k. take k d) e
take_more (suc m) n [] = take_nil n ∙ sym (take_nil (suc m + n))
take_more (suc m) n (c ∷ d) =
    let e : suc (m + n) ≡ suc m + n = omega arith in
    ap (◌∷◌ c) (take_more m n d) ∙ ap (λ k. take k (c ∷ d)) e

pub take_whole : (n : ℕ) (d : Bytes) → length d ≤ n → take n d ≡ d
take_whole zero [] h = refl
take_whole (suc n) [] h = refl
take_whole zero (c ∷ d) h = absurd (omega arith)
take_whole (suc n) (c ∷ d) h = ap (◌∷◌ c) (take_whole n d (omega arith))

send_ws_frame_lem :
    (opcode : ℕ) (payload : Bytes)
    → send_ws_frame opcode payload ≡ frame_header opcode (length payload) ++ payload
unfolding send_ws_frame
send_ws_frame_lem opcode payload = refl

-- The client has been sent whole frames, and `rest`.
abbrev pub IsFramed : Bytes → Bytes → Type 0
IsFramed wire rest = (fs : List (ℕ × Bytes)) × (wire ≡ frames fs ++ rest)

-- Unless a `::send` has failed.
abbrev pub Whole : Line → Bytes → Type 0
Whole l rest = (l.broken ≡ true) ⊎ IsFramed l.wire rest

IsFramed-append :
    (wire rest more : Bytes) → IsFramed wire rest → IsFramed (wire ++ more) (rest ++ more)
IsFramed-append wire rest more (fs, e) =
    (fs, ap (λ x. x ++ more) e ∙ append_assoc (frames fs) rest more)

-- What a step of the thread that holds the mutex makes of what was sent.
framed :
    {who : Side} {l l' : Line} {w w' : Writer}
    → Move who l w l' w'
    → inside w ≡ true
    → Whole l (part w)
    → Whole l' (part w')
framed (begin message) i f = absurd (ground arith)
framed (begin_pong payload h) i f = absurd (ground arith)
framed (begin_close h) i f = absurd (ground arith)
framed (lock h) i f = absurd (ground arith)
framed (refuse h) i f = f
framed (accept h) i f = f
framed send_header i (inl b) = inl b
framed {l = l} (send_header {opcode} {payload}) i (inr f) = inr (
    subst (IsFramed _) (sym (append-nil (frame_header opcode (length payload))))
      (IsFramed-append l.wire [] _ f))
framed (cut_header n h) i f = inl refl
framed (send_part n pos h) i (inl b) = inl b
framed {l = l} (send_part {opcode} {payload} {sent} n pos h) i (inr f) = inr (
    subst (IsFramed _)
      (append_assoc (frame_header opcode (length payload)) _ _
        ∙ ap (◌++◌ (frame_header opcode (length payload))) (take_more sent n payload))
      (IsFramed-append l.wire _ (take n (drop sent payload)) f))
framed (fail_part h) i f = inl refl
framed (finish h) i (inl b) = inl b
framed {l = l} (finish {opcode} {payload} {sent} h) i (inr (fs, e)) = inr (
  fs ++ (opcode, payload) ∷ [],
  e
      ∙ ap (λ d. frames fs ++ (frame_header opcode (length payload) ++ d))
          (take_whole sent payload h)
      ∙ ap (◌++◌ (frames fs)) (sym (send_ws_frame_lem opcode payload))
      ∙ sym (frames-append fs opcode payload)
      ∙ sym (append-nil (frames (fs ++ (opcode, payload) ∷ []))),
)
framed unlock i f = f

-- A step of a thread that does not hold the mutex sends nothing.
quiet :
    {who : Side} {l l' : Line} {w w' : Writer}
    → Move who l w l' w'
    → inside w ≡ false
    → (l'.wire ≡ l.wire) × (l'.broken ≡ l.broken) × (part w ≡ []) × (part w' ≡ [])
quiet (begin message) i = (refl, refl, refl, refl)
quiet (begin_pong payload h) i = (refl, refl, refl, refl)
quiet (begin_close h) i = (refl, refl, refl, refl)
quiet (lock {guarded = true} h) i = (refl, refl, refl, refl)
quiet (lock {guarded = false} h) i = (refl, refl, refl, refl)
quiet (refuse h) i = absurd (ground arith)
quiet (accept h) i = absurd (ground arith)
quiet send_header i = absurd (ground arith)
quiet (cut_header n h) i = absurd (ground arith)
quiet (send_part n pos h) i = absurd (ground arith)
quiet (fail_part h) i = absurd (ground arith)
quiet (finish h) i = absurd (ground arith)
quiet unlock i = absurd (ground arith)

-- The mutex is held by the thread that is inside, and by one only.
locks :
    {who : Side} {l l' : Line} {w w' : Writer} (other : Bool)
    → Move who l w l' w'
    → (l.locked ≡ inside w || other) × (inside w && other ≡ false)
    → (l'.locked ≡ inside w' || other) × (inside w' && other ≡ false)
locks other (begin message) v = v
locks other (begin_pong payload h) v = v
locks other (begin_close h) v = v
locks other (lock {guarded = true} h) v = ground arith
locks other (lock {guarded = false} h) v = ground arith
locks other (refuse h) v = v
locks other (accept h) v = v
locks other send_header v = v
locks other (cut_header n h) v = v
locks other (send_part n pos h) v = v
locks other (fail_part h) v = v
locks other (finish h) v = v
locks other unlock v = ground arith

-- What holds in every reachable state.
record IsOrderly (s : Senders) : Type 0 where
  owner : s.line.locked ≡ inside s.script || inside s.client
  alone : inside s.script && inside s.client ≡ false
  whole : Whole s.line (part s.script ++ part s.client)

outside-part : (w : Writer) → inside w ≡ false → part w ≡ []
outside-part idle i = refl
outside-part (locking guarded opcode payload) i = refl
outside-part (checking opcode payload) i = refl
outside-part (at_header opcode payload) i = refl
outside-part (at_payload opcode payload sent) i = absurd (ground arith)
outside-part unlocking i = refl

-- What was sent, behind a step of a thread, while the other one has sent the part `q` of a frame.
moved :
    {who : Side} {l l' : Line} {w w' : Writer} (q : Bytes)
    → Move who l w l' w'
    → (inside w ≡ true → q ≡ [])
    → Whole l (part w ++ q)
    → Whole l' (part w' ++ q)
moved {l = l} {l'} {w} {w'} q mv other f = elim (Bool-cases (inside w)) [
  | inl i ↦
      let bare : (p : Bytes) → p ++ q ≡ p = λ p. ap (◌++◌ p) (other i) ∙ append-nil p in
      subst (Whole l') (sym (bare (part w'))) (framed mv i (subst (Whole l) (bare (part w)) f))
  | inr o ↦
      let (same_wire, same, p, p') = quiet mv o in
      let rest : part w ++ q ≡ part w' ++ q = ap (λ x. x ++ q) (p ∙ sym p') in
      elim f [
        | inl b ↦ inl (same ∙ b)
        | inr (fs, e) ↦ inr (fs, same_wire ∙ e ∙ ap (◌++◌ (frames fs)) rest)
      ]
]

-- One of the two parts is empty, so their order does not matter.
swapped : (w v : Writer) → inside w && inside v ≡ false → part w ++ part v ≡ part v ++ part w
swapped w v h = elim (Bool-cases (inside w)) [
  | inl i ↦ rw (outside-part v (ground arith)) (append-nil (part w))
  | inr o ↦ rw (outside-part w o) (sym (append-nil (part v)))
]

IsOrderly-SendStep : {s t : Senders} → SendStep s t → IsOrderly s → IsOrderly t
IsOrderly-SendStep {s} (of_script {l} {w} mv) v =
    let (owner, alone) = locks (inside s.client) mv (v.owner, v.alone) in
    record {
      owner = owner;
      alone = alone;
      whole =
          moved (part s.client) mv (λ i. outside-part s.client (ground (arith, v.alone))) v.whole;
    }
IsOrderly-SendStep {s} (of_client {l} {w} mv) v =
    let (owner, alone) =
      locks (inside s.script) mv (ground (arith, v.owner), ground (arith, v.alone)) in
    let apart : inside s.script && inside w ≡ false = ground arith in
    record {
      owner = ground arith;
      alone = apart;
      whole = subst (Whole l) (sym (swapped s.script w apart)) (
          moved (part s.script) mv (λ i. outside-part s.script (ground (arith, v.alone)))
            (subst (Whole s.line) (swapped s.script s.client v.alone) v.whole));
    }
IsOrderly-SendStep hang_up v = record { owner = v.owner; alone = v.alone; whole = v.whole }

SendReach-IsOrderly : {s : Senders} → SendReach s → IsOrderly s
SendReach-IsOrderly opened = record { owner = refl; alone = refl; whole = inr ([], refl) }
SendReach-IsOrderly (then_sends r st) = IsOrderly-SendStep st (SendReach-IsOrderly r)

-- In every reachable state, however the sends of the two threads are interleaved: unless a call of
-- `::send` has failed or was cut short, the client has been sent whole frames one after the other,
-- and behind them the part that the one thread that is sending has sent of its frame; and never are
-- both threads sending.
pub frames_do_not_mix :
    {s : Senders}
    → SendReach s
    → (inside s.script && inside s.client ≡ false)
      × ((s.line.broken ≡ true) ⊎ IsFramed s.line.wire (part s.script ++ part s.client))
frames_do_not_mix r = let v = SendReach-IsOrderly r in (v.alone, v.whole)
