-- ===== src/Ws/Sending.antt =====
-- `send_ws_frame` on a socket whose `send` may take a part of the bytes, or fail.
pub mod Outputs
use mathlib.Core.Path.{subst}
use quick_js_debugger.Prelude.{
  ℕ, zero, suc, ◌≤◌, ◌<◌, ◌^◌, ◌≡◌, ◌⊎◌, refl, ap, ◌∙◌, sym, Bool, true, false, [], ◌∷◌, ◌++◌,
  Option, none, some, ◌==◌, ==_iff, inl, inr, Bool-cases, Option-cases, length, length-drop, take,
  drop, take-append, take-append-drop, append_assoc, append-nil, arith,
}
use quick_js_debugger.Text.Bytes.{Bytes}
use quick_js_debugger.Ws.Frames.{frame_header, send_ws_frame}

-- `send`, which gives how many of the bytes were taken, or `none` where it returns 0 or an error.
pub record Sender (S : Type 0) : Type 0 where
  pub send : S → Bytes → Option (ℕ × S)

-- What the system promises of `send`, where `wire` is what has been taken: it takes bytes from the
-- front, at least one.
pub record IsSender {S : Type 0} (out : Sender S) (wire : S → Bytes) : Type 0 where
  pub taken :
      (s s' : S) (d : Bytes) (n : ℕ)
      → out.send s d ≡ some (n, s')
      → (0 < n) × (n ≤ length d) × (wire s' ≡ wire s ++ take n d)

module _ {S : Type 0} (out : Sender S) where
  -- The loop over the payload. Each call takes a byte at least, so its length is fuel enough.
  unfoldable pub send_rest : ℕ → S → Bytes → Bool × S
  send_rest fuel s [] = (true, s)
  send_rest zero s (c ∷ d) = (false, s)
  send_rest (suc fuel) s (c ∷ d) = elim (out.send s (c ∷ d)) [
    | none ↦ (false, s)
    | some (n, s') ↦ send_rest fuel s' (drop n (c ∷ d))
  ]

  -- The header has to be taken by one call.
  unfoldable pub send_frame : S → ℕ → Bytes → Bool × S
  send_frame s opcode payload =
      let header = frame_header opcode (length payload) in
      elim (out.send s header) [
        | none ↦ (false, s)
        | some (n, s') ↦ elim (n == length header) [
          | true ↦ send_rest (length payload) s' payload
          | false ↦ (false, s')
        ]
      ]

-- All of `d` has been put behind `before`, or the sending failed behind a part of it.
abbrev pub IsSent : Bytes → Bytes → Bool → Bytes → Type 0
IsSent before d success after =
    (front : Bytes) × (back : Bytes) × (d ≡ front ++ back)
    × (after ≡ before ++ front)
    × ((success ≡ false) ⊎ (back ≡ []))

-- What is sent behind a part that has been taken.
IsSent-behind :
    (before middle after p d : Bytes) (success : Bool)
    → middle ≡ before ++ p
    → IsSent middle d success after
    → IsSent before (p ++ d) success after
IsSent-behind before middle after p d success m (front, back, e, a, whole) = (
  p ++ front,
  back,
  ap (λ r. p ++ r) e ∙ sym (append_assoc p front back),
  a ∙ ap (λ r. r ++ front) m ∙ append_assoc before p front,
  whole,
)

-- Nothing has been sent, for a failure.
IsSent-nothing : (before d : Bytes) → IsSent before d false before
IsSent-nothing before d = ([], d, refl, sym (append-nil before), inl refl)

module _ {S : Type 0} (out : Sender S) where
  -- The passes of the loop.
  pub send_rest-failed :
      (fuel c : ℕ) (s : S) (d : Bytes)
      → out.send s (c ∷ d) ≡ none
      → send_rest out (suc fuel) s (c ∷ d) ≡ (false, s)
  unfolding send_rest
  send_rest-failed fuel c s d e = ground arith

  pub send_rest-next :
      (fuel c n : ℕ) (s s' : S) (d : Bytes)
      → out.send s (c ∷ d) ≡ some (n, s')
      → send_rest out (suc fuel) s (c ∷ d) ≡ send_rest out fuel s' (drop n (c ∷ d))
  unfolding send_rest
  send_rest-next fuel c n s s' d e = ground arith

  pub send_frame-failed :
      (s : S) (opcode : ℕ) (payload : Bytes)
      → out.send s (frame_header opcode (length payload)) ≡ none
      → send_frame out s opcode payload ≡ (false, s)
  unfolding send_frame
  send_frame-failed s opcode payload e = ground arith

  module _ (s s' : S) (opcode n : ℕ) (payload : Bytes)
      (e : out.send s (frame_header opcode (length payload)) ≡ some (n, s')) where
    pub send_frame-short :
        (n == length (frame_header opcode (length payload))) ≡ false
        → send_frame out s opcode payload ≡ (false, s')
    unfolding send_frame
    send_frame-short t = ground arith

    pub send_frame-next :
        (n == length (frame_header opcode (length payload))) ≡ true
        → send_frame out s opcode payload ≡ send_rest out (length payload) s' payload
    unfolding send_frame
    send_frame-next t = ground arith

module _ {S : Type 0} (out : Sender S) (wire : S → Bytes) (sender : IsSender out wire) where
  abbrev IsOutcome : S → Bytes → Bool × S → Type 0
  IsOutcome s d r = IsSent (wire s) d r.0 (wire r.1)

  send_rest-IsSent :
      (fuel : ℕ) (s : S) (d : Bytes)
      → length d ≤ fuel
      → IsSent (wire s) d (send_rest out fuel s d).0 (wire (send_rest out fuel s d).1)
  unfolding send_rest
  send_rest-IsSent fuel s [] h = ([], [], refl, sym (append-nil (wire s)), inr refl)
  send_rest-IsSent zero s (c ∷ d) h = absurd (omega arith)
  send_rest-IsSent (suc fuel) s (c ∷ d) h = elim (Option-cases (out.send s (c ∷ d))) [
    | inl e ↦
        subst (IsOutcome s (c ∷ d)) (sym (send_rest-failed out fuel c s d e))
          (IsSent-nothing (wire s) (c ∷ d))
    | inr ((n, s'), e) ↦
        let (some_bytes, few, w) = sender.taken s s' (c ∷ d) n e in
        let (success, s₂) = send_rest out fuel s' (drop n (c ∷ d)) in
        let later =
          send_rest-IsSent fuel s' (drop n (c ∷ d)) (omega (arith, length-drop n (c ∷ d))) in
        subst (IsOutcome s (c ∷ d)) (sym (send_rest-next out fuel c n s s' d e)) (
          subst (λ all. IsSent (wire s) all success (wire s₂)) (take-append-drop n (c ∷ d))
            (IsSent-behind (wire s) (wire s') _ (take n (c ∷ d)) (drop n (c ∷ d)) _ w later))
  ]

  -- For a payload whose length fits an int: where `send_ws_frame` returns true, the whole frame has
  -- been taken, in order; where it returns false, a part from its front has.
  pub send_frame-IsSent :
      (s : S) (opcode : ℕ) (payload : Bytes)
      → length payload < 2 ^ 31
      → IsSent
          (wire s)
          (send_ws_frame opcode payload)
          (send_frame out s opcode payload).0
          (wire (send_frame out s opcode payload).1)
  unfolding send_ws_frame
  send_frame-IsSent s opcode payload small =
      let header = frame_header opcode (length payload) in
      let frame = header ++ payload in
      elim (Option-cases (out.send s header)) [
        | inl e ↦
            subst (IsOutcome s frame) (sym (send_frame-failed out s opcode payload e))
              (IsSent-nothing (wire s) frame)
        | inr ((n, s'), e) ↦
            let (some_bytes, few, w) = sender.taken s s' header n e in
            elim (Bool-cases (n == length header)) [
              | inl t ↦
                  subst (IsOutcome s frame) (sym (send_frame-next out s s' opcode n payload e t)) (
                    IsSent-behind (wire s) (wire s') _ header payload _
                      (w
                        ∙ ap (λ k. wire s ++ take k header) ((==_iff n (length header)).0 t)
                        ∙ ap (λ r. wire s ++ r)
                            (ap (take (length header)) (sym (append-nil header))
                              ∙ take-append header []))
                      (send_rest-IsSent (length payload) s' payload (omega arith)))
              | inr t ↦
                  subst (IsOutcome s frame) (sym (send_frame-short out s s' opcode n payload e t)) (
                    take n header,
                    drop n header ++ payload,
                    sym (ap (λ r. r ++ payload) (take-append-drop n header))
                        ∙ append_assoc (take n header) (drop n header) payload,
                    w,
                    inl refl,
                  )
            ]
      ]
