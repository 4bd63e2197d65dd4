-- ===== src/Ws/RoundTrip.antt =====
-- A frame is read back whole, in whatever pieces the socket delivers it.
use mathlib.Core.Path.{subst}
use quick_js_debugger.Prelude.{
  ℕ, zero, suc, ◌+◌, ◌-◌, ◌*◌, ◌/◌, ◌%◌, ◌^◌, ◌≤◌, ◌<◌, ◌≡◌, ◌≢◌, refl, sym, ap, ◌∙◌, true, false,
  [], ◌∷◌, ◌++◌, some, ltb, leb, ◌==◌, length, length-append, append_assoc, arith, Bool-cases, inl,
  inr,
}
use quick_js_debugger.Text.Bytes.{Bytes}
use quick_js_debugger.Ws.Frames.{
  Socket, IsStream, short_length, extended_length, two_bytes, eight_bytes, big_endian, unmask,
  recv_loop, recv_exact, read_length, read_ws_frame, int_size, read_header, read_payload,
  FrameHeader,
}
use quick_js_debugger.Json.Result.{ok}
use quick_js_debugger.Ws.Masks.{AreBytes, unmask-unmask, length-unmask}

-- A shorter front of a text is the front of a longer one.
front_of_front :
    (c t d r : Bytes)
    → c ++ t ≡ d ++ r
    → length c ≤ length d
    → (d' : Bytes) × (d ≡ c ++ d') × (t ≡ d' ++ r)
front_of_front [] t d r e h = (d, refl, e)
front_of_front (x ∷ c) t [] r e h = absurd (omega arith)
front_of_front (x ∷ c) t (y ∷ d) r e h =
    let head : y ≡ x = cc in
    let tail : c ++ t ≡ d ++ r = cc in
    let (d', ed, et) = front_of_front c t d r tail (omega arith) in
    (d', ap (λ z. z ∷ d) head ∙ ap (◌∷◌ x) ed, et)

big_endian-two_bytes : (len : ℕ) → len < 65536 → big_endian 0 (two_bytes len) ≡ len
unfolding big_endian
big_endian-two_bytes len h = omega arith

big_endian-eight_bytes : (len : ℕ) → len < 2 ^ 64 → big_endian 0 (eight_bytes len) ≡ len
unfolding big_endian
big_endian-eight_bytes len h =
    let top : 0 * 256 + len / 2 ^ 56 % 256 ≡ len / 2 ^ 56 = omega arith in
    let b6 : len / 2 ^ 56 * 256 + len / 2 ^ 48 % 256 ≡ len / 2 ^ 48 = omega arith in
    let b5 : len / 2 ^ 48 * 256 + len / 2 ^ 40 % 256 ≡ len / 2 ^ 40 = omega arith in
    let b4 : len / 2 ^ 40 * 256 + len / 2 ^ 32 % 256 ≡ len / 2 ^ 32 = omega arith in
    let b3 : len / 2 ^ 32 * 256 + len / 2 ^ 24 % 256 ≡ len / 2 ^ 24 = omega arith in
    let b2 : len / 2 ^ 24 * 256 + len / 2 ^ 16 % 256 ≡ len / 2 ^ 16 = omega arith in
    let b1 : len / 2 ^ 16 * 256 + len / 2 ^ 8 % 256 ≡ len / 2 ^ 8 = omega arith in
    let b0 : len / 2 ^ 8 * 256 + len % 256 ≡ len = omega arith in
    rw (top, b6, b5, b4, b3, b2, b1, b0)

short_length-lt : (len : ℕ) → short_length len < 128
unfolding short_length
short_length-lt len = ground arith

-- A client's frame (RFC 6455): the mask bit, and a payload that is masked with a key.
abbrev pub client_frame : Bytes → ℕ → Bytes → Bytes
client_frame mask opcode payload =
    (0x80 + opcode)
    ∷ (0x80 + short_length (length payload))
    ∷ (extended_length (length payload) ++ (mask ++ unmask mask 0 payload))

int_size-small : (n : ℕ) → n < 2 ^ 31 → int_size n ≡ n
unfolding int_size
int_size-small n h =
    let low : n % 2 ^ 32 ≡ n = omega arith in
    let positive : ltb n (2 ^ 31) ≡ true = ground arith in rw (low, positive) refl

module _ {S : Type 0} (sock : Socket S) (pending : S → Bytes) (stream : IsStream sock pending) where
  -- The loop gets the bytes that come next, all of them and no more.
  recv_loop-served :
      (fuel n : ℕ) (s : S) (d rest : Bytes)
      → n ≤ fuel
      → n < 2 ^ 31
      → length d ≡ n
      → pending s ≡ d ++ rest
      → (s' : S) × (recv_loop sock fuel s n ≡ some (d, s')) × (pending s' ≡ rest)
  unfolding recv_loop
  recv_loop-served fuel zero s [] rest h small len p = (s, refl, p)
  recv_loop-served fuel zero s (x ∷ d) rest h small len p = absurd (omega arith)
  recv_loop-served zero (suc n) s d rest h small len p = absurd (omega arith)
  recv_loop-served (suc fuel) (suc n) s [] rest h small len p = absurd (omega arith)
  recv_loop-served (suc fuel) (suc n) s (x ∷ d) rest h small len p =
      let (c, s₁, e, split, some_bytes, few) =
        stream.served s n (λ z. nonempty (sym p ∙ z)) small in
      let (d', ed, et) = front_of_front c (pending s₁) (x ∷ d) rest (sym split ∙ p) (omega arith) in
      let sizes = ap length ed ∙ length-append c d' in
      let long = at_least_one c some_bytes in
      let (s₂, e₂, p₂) =
        recv_loop-served fuel (suc n - length c) s₁ d' rest (omega arith) (omega arith)
          (omega arith) et in
      (s₂, rw (int_size-small (suc n) small, e, e₂) (ap (λ z. some (z, s₂)) (sym ed)), p₂)
    where
      nonempty : x ∷ (d ++ rest) ≡ [] → ⊥
      nonempty z = cc

      at_least_one : (c : Bytes) → c ≢ [] → 1 ≤ length c
      at_least_one [] q = absurd (q refl)
      at_least_one (y ∷ c) q = omega arith

  recv_exact-served :
      (s : S) (d rest : Bytes)
      → length d < 2 ^ 31
      → pending s ≡ d ++ rest
      → (s' : S) × (recv_exact sock s (length d) ≡ some (d, s')) × (pending s' ≡ rest)
  unfolding recv_exact
  recv_exact-served s d rest small p =
      recv_loop-served (length d) (length d) s d rest (omega arith) small refl p

  -- What `read_length` does with a number of bytes that hold the length.
  read_length-served :
      (s : S) (len : ℕ) (rest : Bytes)
      → len < 2 ^ 31
      → pending s ≡ extended_length len ++ rest
      → (s' : S) × (read_length sock s (short_length len) ≡ some (len, s')) × (pending s' ≡ rest)
  unfolding read_length extended_length short_length
  read_length-served s len rest h p = elim (Bool-cases (ltb len 126)) [
    | inl a ↦
        let p₁ = rw a at p in
        let no_two : (len == 126) ≡ false = ground arith in
        let no_eight : (len == 127) ≡ false = ground arith in
        (s, rw a (rw no_two (rw no_eight refl)), p₁)
    | inr a ↦ elim (Bool-cases (ltb len 65536)) [
      | inl b ↦
          let p₁ : pending s ≡ two_bytes len ++ rest = rw (a, b) at p in
          let (s₁, e, q) = recv_exact-served s (two_bytes len) rest (omega arith) p₁ in
          (s₁, rw (a, b, e) (ap (λ n. some (n, s₁)) (big_endian-two_bytes len (ground arith))), q)
      | inr b ↦
          let p₁ : pending s ≡ eight_bytes len ++ rest = rw (a, b) at p in
          let (s₁, e, q) = recv_exact-served s (eight_bytes len) rest (omega arith) p₁ in
          (s₁, rw (a, b, e) (ap (λ n. some (n, s₁)) (big_endian-eight_bytes len (omega arith))), q)
    ]
  ]

  read_ws_frame_of :
      (s s' : S) (h : FrameHeader) (frame : (Bytes × ℕ) × S)
      → read_header sock s ≡ some (h, s')
      → sock.resizes h.payload_len ≡ true
      → read_payload sock h s' ≡ some frame
      → read_ws_frame sock s ≡ ok (some frame)
  unfolding read_ws_frame
  read_ws_frame_of s s' h frame e roomy e' = ground arith

  -- A client's masked frame, with a key of four bytes, an opcode below 16 and less than 2^31 bytes
  -- of payload, is read as the payload that was masked, and its opcode, in whatever pieces a stream
  -- socket delivers it, and what comes behind it is left to be read.
  pub read_ws_frame-client_frame :
      (s : S) (opcode : ℕ) (mask payload rest : Bytes)
      → opcode < 16
      → length mask ≡ 4
      → AreBytes mask
      → AreBytes payload
      → length payload < 2 ^ 31
      → pending s ≡ client_frame mask opcode payload ++ rest
      → (s' : S) × (read_ws_frame sock s ≡ ok (some ((payload, opcode), s'))) × (pending s' ≡ rest)
  unfolding read_header read_payload
  read_ws_frame-client_frame s opcode mask payload rest ho hm bm bp hl p =
      let len = length payload in
      let masked = unmask mask 0 payload in
      let b0 = 0x80 + opcode in
      let b1 = 0x80 + short_length len in
      let small = short_length-lt len in
      let (s₁, e₁, p₁) =
        recv_exact-served s (b0 ∷ b1 ∷ []) (extended_length len ++ (mask ++ (masked ++ rest)))
          (omega arith)
          (p
            ∙ ap (λ z. b0 ∷ b1 ∷ z)
                (append_assoc (extended_length len) (mask ++ masked) rest
                  ∙ ap (◌++◌ (extended_length len)) (append_assoc mask masked rest))) in
      let (s₂, e₂, p₂) = read_length-served s₁ len (mask ++ (masked ++ rest)) hl p₁ in
      let (s₃, e₃, p₃) = recv_exact-served s₂ mask (masked ++ rest) (omega (arith, hm)) p₂ in
      let (s₄, e₄, p₄) =
        recv_exact-served s₃ masked rest (omega (arith, hl, length-unmask mask payload 0)) p₃ in
      let key : recv_exact sock s₂ 4 ≡ some (mask, s₃) =
        subst (λ n. recv_exact sock s₂ n ≡ some (mask, s₃)) hm e₃ in
      let body : recv_exact sock s₃ len ≡ some (masked, s₄) =
        subst (λ n. recv_exact sock s₃ n ≡ some (masked, s₄)) (length-unmask mask payload 0) e₄ in
      let set : leb 128 b1 ≡ true = ground arith in
      let short : b1 % 128 ≡ short_length len = omega arith in
      let code : b0 % 16 ≡ opcode = omega arith in
      let h : FrameHeader = record {
        opcode = opcode;
        masked = true;
        payload_len = len;
        mask = mask;
      } in
      (
        s₄,
        read_ws_frame_of s s₃ h ((payload, opcode), s₄) (rw (e₁, set, short, e₂, key, code) refl)
            (stream.memory len hl)
            (rw body (ap (λ z. some ((z, opcode), s₄)) (unmask-unmask mask payload 0 bm bp))),
        p₄,
      )
