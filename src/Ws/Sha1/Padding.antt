-- ===== src/Ws/Sha1/Padding.antt =====
-- The padding that `sha1_hash` builds in its buffer, against the one of FIPS 180-4.
use quick_js_debugger.Prelude.{
  ℕ, zero, suc, ◌+◌, ◌-◌, ◌*◌, ◌%◌, ◌^◌, ◌<◌, ◌≡◌, refl, ap, ◌∙◌, sym, [], ◌∷◌, ◌++◌, some, length,
  length-append, length-replicate, replicate, append_assoc, append-nil, arith,
}
use quick_js_debugger.Text.Bytes.{Bytes}
use quick_js_debugger.Ws.Frames.{eight_bytes}
use quick_js_debugger.Ws.Sha1.{write, bit_length, padded_length, pad}

-- Bytes written over as many bytes that stand in a buffer.
write-append :
    (front old back bytes : Bytes)
    → length old ≡ length bytes
    → write (length front) bytes (front ++ (old ++ back)) ≡ some (front ++ (bytes ++ back))
unfolding write
write-append [] [] back [] h = refl
write-append [] [] back (b ∷ bytes) h = absurd (omega arith)
write-append [] (x ∷ old) back [] h = absurd (omega arith)
write-append [] (x ∷ old) back (b ∷ bytes) h =
    rw (write-append [] old back bytes (omega arith)) refl
write-append (x ∷ front) old back bytes h = rw (write-append front old back bytes h) refl

abbrev zeroed : ℕ → Bytes
zeroed n = replicate n 0

replicate-add : (m n : ℕ) → zeroed (m + n) ≡ zeroed m ++ zeroed n
replicate-add zero n = ground arith
replicate-add (suc m) n =
    let e : suc m + n ≡ suc (m + n) = omega arith in ap zeroed e ∙ ap (◌∷◌ 0) (replicate-add m n)

-- The length of the buffer is the next multiple of 64 behind nine bytes more, and the count of bits
-- does not wrap around.
padded_length-split :
    (len : ℕ)
    → len < 2 ^ 61
    → (zeros : ℕ) × (padded_length len ≡ len + suc (zeros + 8))
      × (zeros < 64)
      × ((len + suc (zeros + 8)) % 64 ≡ 0)
      × (bit_length len ≡ 8 * len)
unfolding padded_length bit_length
padded_length-split len h =
    (padded_length len - (len + 9), omega arith, omega arith, omega arith, omega arith)

-- The last write, of eight bytes at the end of the buffer.
write-end :
    (message count : Bytes) (zeros at : ℕ)
    → at ≡ length message + suc zeros
    → length count ≡ 8
    → write at count (message ++ (0x80 ∷ (zeroed zeros ++ zeroed 8)))
      ≡ some (message ++ (0x80 ∷ (zeroed zeros ++ count)))
write-end message count zeros at h k =
    let front = message ++ (0x80 ∷ zeroed zeros) in
    let size : at ≡ length front =
      omega (arith, length-append message (0x80 ∷ zeroed zeros), length-replicate zeros zero, h) in
    let done = write-append front (zeroed 8) [] count (omega (arith, k)) in
    rw
      (
        size,
        sym (append_assoc message (0x80 ∷ zeroed zeros) (zeroed 8)),
        sym (append_assoc message (0x80 ∷ zeroed zeros) count),
      )
      (rw (append-nil count) at done)

-- The buffer of a message shorter than 2 ^ 61 bytes holds each of the three writes, and ends up as
-- the message, a byte 0x80, fewer than 64 zeros, and the number of bits in eight bytes, the highest
-- first; its length is a multiple of 64.
pub pad-IsPadded :
    (message : Bytes)
    → length message < 2 ^ 61
    → (zeros : ℕ) × (pad message
        ≡ some (message ++ (0x80 ∷ (replicate zeros 0 ++ eight_bytes (8 * length message)))))
      × (zeros < 64)
      × ((length message + suc (zeros + 8)) % 64 ≡ 0)
unfolding pad
pad-IsPadded message h =
    let (zeros, total, few, whole, bits) = padded_length-split (length message) h in
    let all =
      ap zeroed total
      ∙ replicate-add (length message) (suc (zeros + 8))
      ∙ ap (λ rest. zeroed (length message) ++ (0 ∷ rest)) (replicate-add zeros 8) in
    let rest = zeroed zeros ++ zeroed 8 in
    (
      zeros,
      rw
          (
            all,
            write-append [] (zeroed (length message)) (0 ∷ rest) message
                (length-replicate (length message) 0),
            write-append message (0 ∷ []) rest (0x80 ∷ []) refl,
            total,
            bits,
          )
          (write-end message (eight_bytes (8 * length message)) zeros
            (length message + suc (zeros + 8) - 8) (omega arith) refl),
      few,
      whole,
    )
