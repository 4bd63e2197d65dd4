-- ===== src/Ws/Frames.antt =====
-- `send_ws_frame`, `recv_exact` and `read_ws_frame`. The socket is a parameter. Shifts and masks of
-- bits are written as divisions and remainders by powers of two.
use Prim.Native.Nat.{bit_xor}
use quick_js_debugger.Prelude.{
  ℕ, zero, suc, Bool, true, ◌<◌, ◌+◌, ◌-◌, ◌*◌, ◌/◌, ◌%◌, ◌^◌, ◌≤◌, ◌≡◌, ◌≢◌, [], ◌∷◌, ◌++◌, Option,
  none, some, ltb, leb, ◌==◌, if◌then◌else◌, length,
}
use quick_js_debugger.Text.Bytes.{Bytes}
use quick_js_debugger.Json.Result.{Result, ok, throws}

-- A socket: `recv` that is asked for so many bytes at most gives those that it wrote, or `none` where
-- it returns 0 or an error. With it goes whether `std::string::resize` to a size succeeds, instead of
-- throwing an exception.
pub record Socket (S : Type 0) : Type 0 where
  pub recv : S → ℕ → Option (Bytes × S)
  pub resizes : ℕ → Bool

-- What the system promises of a stream socket, whose peer's bytes that are still to come are
-- `pending`: while there are some, a call that asks for a positive int of bytes gives a part of them,
-- in order, in pieces of any size. There is memory for a message whose length is an int.
pub record IsStream {S : Type 0} (sock : Socket S) (pending : S → Bytes) : Type 0 where
  pub served :
      (s : S) (n : ℕ)
      → pending s ≢ []
      → suc n < 2 ^ 31
      → (c : Bytes) × (s' : S) × (sock.recv s (suc n) ≡ some (c, s'))
        × (pending s ≡ c ++ pending s')
        × (c ≢ [])
        × (length c ≤ suc n)
  pub memory : (n : ℕ) → n < 2 ^ 31 → sock.resizes n ≡ true

-- The second byte of the header, and the bytes behind it that hold a longer length.
unfoldable pub short_length : ℕ → ℕ
short_length len = if ltb len 126 then len else if ltb len 65536 then 126 else 127

abbrev pub two_bytes : ℕ → Bytes
two_bytes len = (len / 2 ^ 8 % 256) ∷ (len % 256) ∷ []

abbrev pub eight_bytes : ℕ → Bytes
eight_bytes len =
    (len / 2 ^ 56 % 256)
    ∷ (len / 2 ^ 48 % 256)
    ∷ (len / 2 ^ 40 % 256)
    ∷ (len / 2 ^ 32 % 256)
    ∷ (len / 2 ^ 24 % 256)
    ∷ (len / 2 ^ 16 % 256)
    ∷ (len / 2 ^ 8 % 256)
    ∷ (len % 256)
    ∷ []

unfoldable pub extended_length : ℕ → Bytes
extended_length len =
    if ltb len 126 then [] else if ltb len 65536 then two_bytes len else eight_bytes len

-- The header that `send_ws_frame` writes, and all that it sends where no call of `send` fails.
unfoldable pub frame_header : ℕ → ℕ → Bytes
frame_header opcode len = (0x80 + opcode % 16) ∷ short_length len ∷ extended_length len

unfoldable pub send_ws_frame : ℕ → Bytes → Bytes
send_ws_frame opcode payload = frame_header opcode (length payload) ++ payload

-- What the program sends, in order: a response of the HTTP server or the handshake, which one call of
-- `::send` is given, or a call of `send_ws_frame` with an opcode and a payload. How much of a frame the
-- system takes is told by `Ws.Sending`; `send_ws_frame` returns false if that is not all of it, but no
-- caller looks at it.
pub data Output : Type 0 where
  plain : Bytes → Output
  framed : ℕ → Bytes → Output

-- Bytes as a number, the highest first. Eight of them fill a uint64_t, so nothing wraps around.
unfoldable pub big_endian : ℕ → Bytes → ℕ
big_endian acc [] = acc
big_endian acc (c ∷ s) = big_endian (acc * 256 + c) s

abbrev pub byte_at : ℕ → Bytes → ℕ
byte_at n [] = 0
byte_at zero (c ∷ s) = c
byte_at (suc n) (c ∷ s) = byte_at n s

-- `payload[i] ^= mask[i % 4]`, from an index on.
unfoldable pub unmask : Bytes → ℕ → Bytes → Bytes
unmask mask i [] = []
unmask mask i (c ∷ s) = bit_xor c (byte_at (i % 4) mask) ∷ unmask mask (suc i) s

infixl 5 ◌>>=◌
abbrev pub ◌>>=◌ {ℓ κ} : {A : Type ℓ} {B : Type κ} → Option A → (A → Option B) → Option B
none >>= f = none
some a >>= f = f a

-- The variables of `read_ws_frame`.
pub record FrameHeader : Type 0 where
  pub opcode : ℕ
  pub masked : Bool
  pub payload_len : ℕ
  pub mask : Bytes

-- `(int)(len - received)`, as the size_t that `recv` takes it for: a negative int is a large one.
unfoldable pub int_size : ℕ → ℕ
int_size n = let low = n % 2 ^ 32 in if ltb low (2 ^ 31) then low else low + (2 ^ 64 - 2 ^ 32)

module _ {S : Type 0} (sock : Socket S) where
  -- The loop of `recv_exact`; each call of `recv` brings at least a byte, so the number of bytes
  -- that are wanted is fuel enough.
  unfoldable pub recv_loop : ℕ → S → ℕ → Option (Bytes × S)
  unfolding int_size
  recv_loop fuel s zero = some ([], s)
  recv_loop zero s (suc n) = none
  recv_loop (suc fuel) s (suc n) = do
    (c, s₁) ← sock.recv s (int_size (suc n))
    (d, s₂) ← recv_loop fuel s₁ (suc n - length c)
    some (c ++ d, s₂)

  unfoldable pub recv_exact : S → ℕ → Option (Bytes × S)
  recv_exact s n = recv_loop n s n

  -- The length of the payload, from the seven bits of the header.
  unfoldable pub read_length : S → ℕ → Option (ℕ × S)
  read_length s short =
      if short == 126
      then (do (ext, s₁) ← recv_exact s 2; some (big_endian 0 ext, s₁))
      else if short == 127
      then (do (ext, s₁) ← recv_exact s 8; some (big_endian 0 ext, s₁))
      else some (short, s)

  -- What comes before the payload: its length, whether it is masked, the key, and the opcode.
  unfoldable pub read_header : S → Option (FrameHeader × S)
  read_header s = do
    (header, s₁) ← recv_exact s 2
    let masked = leb 128 (byte_at 1 header)
    (len, s₂) ← read_length s₁ (byte_at 1 header % 128)
    (mask, s₃) ← (if masked then recv_exact s₂ 4 else some (0 ∷ 0 ∷ 0 ∷ 0 ∷ [], s₂))
    some (
      record { opcode = byte_at 0 header % 16; masked = masked; payload_len = len; mask = mask },
      s₃,
    )

  -- The payload behind it, in a string of its size.
  unfoldable pub read_payload : FrameHeader → S → Option ((Bytes × ℕ) × S)
  read_payload h s = do
    (payload, s') ← recv_exact s h.payload_len
    some (((if h.masked then unmask h.mask 0 payload else payload), h.opcode), s')

  -- The payload and the opcode of the next frame, or `none` where it returns false.
  unfoldable pub read_ws_frame : S → Result (Option ((Bytes × ℕ) × S))
  unfolding read_header read_payload
  read_ws_frame s = elim (read_header s) [
    | none ↦ ok none
    | some (h, s') ↦ if sock.resizes h.payload_len then ok (read_payload h s') else throws
  ]
