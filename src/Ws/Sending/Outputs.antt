-- ===== src/Ws/Sending/Outputs.antt =====
-- What the calls of `send_ws_frame` put on the wire of a connection, one behind the other: nobody looks
-- at their result, so a failure does not keep the later ones back. The calls are those of one thread;
-- for two of them see `Threads.Sending`. The responses of the HTTP server and of the handshake are sent
-- in `Ws.Server`, before there is a connection or over another one, and are passed over here.
use quick_js_debugger.Prelude.{
  ℕ, zero, suc, ◌==◌, ◌<◌, ◌≤◌, ◌^◌, ◌≡◌, ◌≢◌, refl, ap, ◌∙◌, sym, true, List, [], ◌∷◌, ◌++◌, some,
  length, All, inl, inr, append_assoc, append-nil, arith, drop,
}
use quick_js_debugger.Text.Bytes.{Bytes}
use quick_js_debugger.Ws.Frames.{Output, plain, framed, send_ws_frame, frame_header}
use quick_js_debugger.Ws.Sending.{
  Sender, IsSender, send_frame, send_frame-IsSent, send_rest, send_rest-next, send_frame-next,
}

module _ {S : Type 0} (out : Sender S) where
  unfoldable pub transmit : S → List Output → S
  transmit s [] = s
  transmit s (plain d ∷ os) = transmit s os
  transmit s (framed opcode payload ∷ os) = transmit (send_frame out s opcode payload).1 os

-- All bytes of a frame.
abbrev pub output_bytes : Output → Bytes
output_bytes (plain d) = []
output_bytes (framed opcode payload) = send_ws_frame opcode payload

-- The payload of a frame has a length that is an int.
abbrev pub Fits : Output → Type 0
Fits (plain d) = Unit
Fits (framed opcode payload) = length payload < 2 ^ 31

-- A part from the front of each frame, in order.
abbrev pub AreFronts : List Output → Bytes → Type 0
AreFronts [] w = w ≡ []
AreFronts (o ∷ os) w =
    (front : Bytes) × (back : Bytes) × (rest : Bytes) × (output_bytes o ≡ front ++ back)
    × (w ≡ front ++ rest)
    × AreFronts os rest

module _ {S : Type 0} (out : Sender S) (wire : S → Bytes) (sender : IsSender out wire) where
  -- What is put on the wire for some frames: a part from the front of each.
  abbrev Put : S → List Output → S → Type 0
  Put s os t = (w : Bytes) × (wire t ≡ wire s ++ w) × AreFronts os w

  Put-behind :
      (s s' t : S) (o : Output) (os : List Output) (front back : Bytes)
      → output_bytes o ≡ front ++ back
      → wire s' ≡ wire s ++ front
      → Put s' os t
      → Put s (o ∷ os) t
  Put-behind s s' t o os front back e w (later, w', fronts) = (
    front ++ later,
    w' ∙ ap (λ r. r ++ later) w ∙ append_assoc (wire s) front later,
    (front, back, later, e, refl, fronts),
  )

  -- However the system fails or shortens the sends: behind what was on the wire stands a part from the
  -- front of each frame, in their order, and nothing else, if every payload's length is an int.
  pub transmit-AreFronts :
      (s : S) (os : List Output)
      → All Fits os
      → (w : Bytes) × (wire (transmit out s os) ≡ wire s ++ w) × AreFronts os w
  unfolding transmit
  transmit-AreFronts s [] fits = ([], sym (append-nil (wire s)), refl)
  transmit-AreFronts s (plain d ∷ os) (fit, fits) =
      Put-behind s s _ (plain d) os [] [] refl (sym (append-nil (wire s)))
        (transmit-AreFronts s os fits)
  transmit-AreFronts s (framed opcode payload ∷ os) (fit, fits) =
      let (front, back, e, w, whole) = send_frame-IsSent out wire sender s opcode payload fit in
      Put-behind s (send_frame out s opcode payload).1 _ (framed opcode payload) os front back e w
        (transmit-AreFronts (send_frame out s opcode payload).1 os fits)

-- A blocking socket whose connection stands: each call takes all that it is given.
pub record IsUnfailing {S : Type 0} (out : Sender S) : Type 0 where
  pub takes_all : (s : S) (d : Bytes) → d ≢ [] → (s' : S) × (out.send s d ≡ some (length d, s'))

-- All bytes of the frames, one behind the other.
abbrev pub all_output : List Output → Bytes
all_output [] = []
all_output (o ∷ os) = output_bytes o ++ all_output os

drop_all : (d : Bytes) → drop (length d) d ≡ []
drop_all [] = refl
drop_all (c ∷ d) = drop_all d

same_length : (n : ℕ) → (n == n) ≡ true
same_length n = ground arith

module _ {S : Type 0} (out : Sender S) (unfailing : IsUnfailing out) where
  send_rest-true :
      (fuel : ℕ) (s : S) (d : Bytes) → length d ≤ fuel → (send_rest out fuel s d).0 ≡ true
  unfolding send_rest
  send_rest-true fuel s [] h = refl
  send_rest-true zero s (c ∷ d) h = absurd (omega arith)
  send_rest-true (suc fuel) s (c ∷ d) h =
      let (s', e) = unfailing.takes_all s (c ∷ d) (λ z. cc) in
      ap (λ r. r.0) (send_rest-next out fuel c (length (c ∷ d)) s s' d e)
      ∙ ap (λ rest. (send_rest out fuel s' rest).0) (drop_all (c ∷ d))

  send_frame-true :
      (s : S) (opcode : ℕ) (payload : Bytes) → (send_frame out s opcode payload).0 ≡ true
  send_frame-true s opcode payload =
      let header = frame_header opcode (length payload) in
      let (s', e) = unfailing.takes_all s header (unfold frame_header in λ z. cc) in
      ap (λ r. r.0)
        (send_frame-next out s s' opcode (length header) payload e (same_length (length header)))
      ∙ send_rest-true (length payload) s' payload (omega arith)

  module _ (wire : S → Bytes) (sender : IsSender out wire) where
    send_frame-wire :
        (s : S) (opcode : ℕ) (payload : Bytes)
        → length payload < 2 ^ 31
        → wire (send_frame out s opcode payload).1 ≡ wire s ++ send_ws_frame opcode payload
    send_frame-wire s opcode payload fit =
        let (front, back, e, w, whole) = send_frame-IsSent out wire sender s opcode payload fit in
        elim whole [
          | inl failed ↦ absurd (ground (arith, failed, send_frame-true s opcode payload))
          | inr empty ↦
              w
              ∙ ap (λ r. wire s ++ r)
                  (sym (append-nil front) ∙ ap (λ r. front ++ r) (sym empty) ∙ sym e)
        ]

    -- On a blocking socket whose connection stands, the frames are put on the wire whole and one behind
    -- the other, if every payload's length is an int.
    pub transmit-whole :
        (s : S) (os : List Output)
        → All Fits os
        → wire (transmit out s os) ≡ wire s ++ all_output os
    unfolding transmit
    transmit-whole s [] fits = sym (append-nil (wire s))
    transmit-whole s (plain d ∷ os) (fit, fits) = transmit-whole s os fits
    transmit-whole s (framed opcode payload ∷ os) (fit, fits) =
        transmit-whole (send_frame out s opcode payload).1 os fits
        ∙ ap (λ r. r ++ all_output os) (send_frame-wire s opcode payload fit)
        ∙ append_assoc (wire s) (send_ws_frame opcode payload) (all_output os)
