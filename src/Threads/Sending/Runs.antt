-- ===== src/Threads/Sending/Runs.antt =====
-- `send_ws_frame` as a function (`Ws.Sending.send_frame`) takes the steps that its loop is made of here.
use mathlib.Core.Path.{subst}
use quick_js_debugger.Prelude.{
  ℕ, zero, suc, ◌+◌, ◌-◌, ◌≤◌, ◌<◌, ◌≡◌, refl, sym, ap, ◌∙◌, Bool, true, false, [], ◌∷◌, ◌++◌,
  length, length-drop, take, drop, append-nil, arith, Bool-cases, Option-cases, inl, inr, ◌==◌,
  ==_iff, if◌then◌else◌,
}
use quick_js_debugger.Text.Bytes.{Bytes}
use quick_js_debugger.Ws.Frames.{frame_header}
use quick_js_debugger.Ws.Sending.{
  Sender, IsSender, send_frame, send_rest, send_rest-failed, send_rest-next, send_frame-failed,
  send_frame-short, send_frame-next,
}
use quick_js_debugger.Threads.Sending.Frames.{take_whole}
use quick_js_debugger.Threads.Sending.{
  Side, Writer, at_header, at_payload, unlocking, Line, Move, Moves, stop, and_then, send_header,
  cut_header, send_part, fail_part, finish,
}

header_length : (opcode n : ℕ) → 0 < length (frame_header opcode n)
unfolding frame_header
header_length opcode n = omega arith

drop_nil : (n : ℕ) → drop {A = ℕ} n [] ≡ []
drop_nil zero = refl
drop_nil (suc n) = refl

drop_more : (m n : ℕ) (d : Bytes) → drop n (drop m d) ≡ drop (m + n) d
drop_more zero n d = let e : n ≡ 0 + n = omega arith in ap (λ k. drop k d) e
drop_more (suc m) n [] = drop_nil n ∙ sym (drop_nil (suc m + n))
drop_more (suc m) n (c ∷ d) =
    let e : suc (m + n) ≡ suc m + n = omega arith in drop_more m n d ∙ ap (λ k. drop k (c ∷ d)) e

module _ {S : Type 0} (out : Sender S) (wire : S → Bytes) (sender : IsSender out wire) (who : Side)
    (l : Line) (opcode : ℕ) (payload : Bytes) where
  -- The line once the system has taken what `s` says.
  abbrev on : S → Line
  on s = record l { wire = wire s }

  -- The steps from a place to the end of the call, with its result.
  abbrev Runs : S → Writer → Bool × S → Type 0
  Runs s w r =
      Moves who (on s) w (record l { wire = wire r.1; broken = if r.0 then l.broken else true })
        unlocking

  continues :
      (s s' : S) (x : Bytes) (w v : Writer) (r : Bool × S)
      → wire s' ≡ x
      → Move who (on s) w (record l { wire = x }) v
      → Runs s' v r
      → Runs s w r
  continues s s' x w v r e mv ms = and_then mv (
      subst
        (λ y.
          Moves who (record l { wire = y }) v
            (record l { wire = wire r.1; broken = if r.0 then l.broken else true }) unlocking)
        e ms)

  cut :
      (s s' : S) (n : ℕ)
      → n < length (frame_header opcode (length payload))
      → wire s' ≡ wire s ++ take n (frame_header opcode (length payload))
      → Runs s (at_header opcode payload) (false, s')
  cut s s' n lt w =
      subst
        (λ y.
          Moves who (on s) (at_header opcode payload) (record l { wire = y; broken = true })
            unlocking)
        (sym w) (and_then (cut_header n lt) stop)

  send_rest-Runs :
      (fuel : ℕ) (s : S) (sent : ℕ) (d : Bytes)
      → d ≡ drop sent payload
      → length d ≤ fuel
      → Runs s (at_payload opcode payload sent) (send_rest out fuel s d)
  unfolding send_rest
  send_rest-Runs fuel s sent [] e h =
      let all : length payload ≤ sent = omega (arith, ap length e, length-drop sent payload) in
      and_then (finish all) stop
  send_rest-Runs zero s sent (c ∷ d) e h = absurd (omega arith)
  send_rest-Runs (suc fuel) s sent (c ∷ d) e h =
      let left : suc (length d) ≡ length payload - sent = ap length e ∙ length-drop sent payload in
      elim (Option-cases (out.send s (c ∷ d))) [
        | inl failed ↦
            subst (Runs s (at_payload opcode payload sent))
              (sym (send_rest-failed out fuel c s d failed))
              (and_then (fail_part (omega (arith, left))) stop)
        | inr ((n, s'), taken) ↦
            let (some_bytes, few, w) = sender.taken s s' (c ∷ d) n taken in
            let rest : drop n (c ∷ d) ≡ drop (sent + n) payload =
              ap (drop n) e ∙ drop_more sent n payload in
            let later =
              send_rest-Runs fuel s' (sent + n) (drop n (c ∷ d)) rest
                (omega (arith, length-drop n (c ∷ d))) in
            subst (Runs s (at_payload opcode payload sent))
              (sym (send_rest-next out fuel c n s s' d taken))
              (continues s s' _ _ _ _ (w ∙ ap (λ x. wire s ++ take n x) e)
                (send_part n some_bytes (omega (arith, left, few, some_bytes))) later)
      ]

  -- A call of `send_ws_frame` is a run of the steps of one thread from the header to the release of
  -- the mutex, whatever parts the system takes; where it returns false, a `::send` has failed or was cut
  -- short.
  pub send_frame-Moves :
      (s : S)
      → Moves who
          (record l { wire = wire s })
          (at_header opcode payload)
          (record l {
            wire = wire (send_frame out s opcode payload).1;
            broken = if (send_frame out s opcode payload).0 then l.broken else true;
          })
          unlocking
  send_frame-Moves s =
      let header = frame_header opcode (length payload) in
      elim (Option-cases (out.send s header)) [
        | inl failed ↦
            subst (Runs s (at_header opcode payload))
              (sym (send_frame-failed out s opcode payload failed))
              (cut s s 0 (header_length opcode (length payload)) (sym (append-nil (wire s))))
        | inr ((n, s'), taken) ↦
            let (some_bytes, few, w) = sender.taken s s' header n taken in
            elim (Bool-cases (n == length header)) [
              | inl t ↦
                  subst (Runs s (at_header opcode payload))
                    (sym (send_frame-next out s s' opcode n payload taken t))
                    (continues s s' _ _ _ _
                      (w
                        ∙ ap (λ x. wire s ++ x)
                            (take_whole n header (omega (arith, (==_iff n (length header)).0 t))))
                      send_header (send_rest-Runs (length payload) s' 0 payload refl (omega arith)))
              | inr t ↦
                  subst (Runs s (at_header opcode payload))
                    (sym (send_frame-short out s s' opcode n payload taken t))
                    (cut s s' n (ground (arith, few, ==_iff n (length header), t)) w)
            ]
      ]
