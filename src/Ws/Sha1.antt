-- ===== src/Ws/Sha1.antt =====
-- `sha1_hash` as it is built for systems other than Windows, and `compute_ws_accept`. A uint32_t is
-- a number below 2 ^ 32, whose sums wrap around.
use Prim.Native.Nat.{bit_and, bit_or, bit_xor}
use quick_js_debugger.Prelude.{
  ℕ, zero, suc, ◌+◌, ◌-◌, ◌*◌, ◌/◌, ◌%◌, ◌^◌, List, [], ◌∷◌, ◌++◌, Option, none, some, ltb,
  if◌then◌else◌, length, replicate, drop,
}
use quick_js_debugger.Text.Bytes.{Bytes, codes}
use quick_js_debugger.Ws.Frames.{byte_at, eight_bytes, ◌>>=◌}
use quick_js_debugger.Ws.Base64.{base64_encode}
pub mod Padding

-- Bytes written over those of a buffer, from an index on; `none` is a write behind its end.
unfoldable pub write : ℕ → Bytes → Bytes → Option Bytes
write zero [] buffer = some buffer
write zero (b ∷ bytes) [] = none
write zero (b ∷ bytes) (x ∷ buffer) = elim (write zero bytes buffer) [
  | none ↦ none
  | some rest ↦ some (b ∷ rest)
]
write (suc n) bytes [] = none
write (suc n) bytes (x ∷ buffer) = elim (write n bytes buffer) [
  | none ↦ none
  | some rest ↦ some (x ∷ rest)
]

-- `ml` and `padded_len`, which are of type size_t.
unfoldable pub bit_length : ℕ → ℕ
bit_length len = len * 8 % 2 ^ 64

unfoldable pub padded_length : ℕ → ℕ
padded_length len = ((len + 8) % 2 ^ 64 / 64 + 1) * 64 % 2 ^ 64

-- The message with its padding.
unfoldable pub pad : Bytes → Option Bytes
unfolding write bit_length padded_length
pad message = do
  let len = length message
  let padded_len = padded_length len
  m₁ ← write 0 message (replicate padded_len 0)
  m₂ ← write len (0x80 ∷ []) m₁
  write (padded_len - 8) (eight_bytes (bit_length len)) m₂

abbrev pub wrap : ℕ → ℕ
wrap n = n % 2 ^ 32

abbrev pub rol : ℕ → ℕ → ℕ
rol v b = bit_or (wrap (v * 2 ^ b)) (v / 2 ^ (32 - b))

-- The first sixteen words of a block, the last in front.
unfoldable pub first_words : ℕ → Bytes → List ℕ → List ℕ
first_words zero block words = words
first_words (suc n) block words =
    let high = byte_at 0 block * 2 ^ 24 + byte_at 1 block * 2 ^ 16 in
    let low = byte_at 2 block * 2 ^ 8 + byte_at 3 block in
    first_words n (drop 4 block) ((high + low) ∷ words)

-- So many words more, each made of four of those before it, the last in front.
unfoldable pub more_words : ℕ → List ℕ → List ℕ
more_words zero words = words
more_words (suc n) words =
    let mixed =
      bit_xor (bit_xor (bit_xor (byte_at 2 words) (byte_at 7 words)) (byte_at 13 words))
        (byte_at 15 words) in
    more_words n (rol mixed 1 ∷ words)

pub record Words : Type 0 where
  pub a : ℕ
  pub b : ℕ
  pub c : ℕ
  pub d : ℕ
  pub e : ℕ

-- `f` and `k` of a round.
unfoldable pub round_mix : ℕ → Words → ℕ
round_mix i w =
    if ltb i 20
    then bit_or (bit_and w.b w.c) (bit_and (2 ^ 32 - 1 - w.b) w.d)
    else if ltb i 40
    then bit_xor (bit_xor w.b w.c) w.d
    else if ltb i 60
    then bit_or (bit_or (bit_and w.b w.c) (bit_and w.b w.d)) (bit_and w.c w.d)
    else bit_xor (bit_xor w.b w.c) w.d

unfoldable pub round_constant : ℕ → ℕ
round_constant i =
    if ltb i 20
    then 0x5A827999
    else if ltb i 40
    then 0x6ED9EBA1
    else if ltb i 60
    then 0x8F1BBCDC
    else 0xCA62C1D6

-- The rounds of a block, from the words in reverse: that of the last word is the outermost.
unfoldable pub rounds : ℕ → List ℕ → Words → Words
unfolding round_mix round_constant
rounds i [] w = w
rounds zero (x ∷ xs) w = w
rounds (suc i) (x ∷ xs) w =
    let v = rounds i xs w in
    record {
      a = wrap (rol v.a 5 + round_mix i v + v.e + round_constant i + x);
      b = v.a;
      c = rol v.b 30;
      d = v.c;
      e = v.d;
    }

-- A block added to the hash.
unfoldable pub hash_block : Bytes → Words → Words
unfolding first_words more_words rounds
hash_block block h =
    let w = rounds 80 (more_words 64 (first_words 16 block [])) h in
    record {
      a = wrap (h.a + w.a);
      b = wrap (h.b + w.b);
      c = wrap (h.c + w.c);
      d = wrap (h.d + w.d);
      e = wrap (h.e + w.e);
    }

-- The blocks at the front of a message.
unfoldable pub hash_blocks : ℕ → Bytes → Words → Words
unfolding hash_block
hash_blocks zero message h = h
hash_blocks (suc n) message h = hash_blocks n (drop 64 message) (hash_block message h)

abbrev pub initial : Words
initial = record { a = 0x67452301; b = 0xEFCDAB89; c = 0x98BADCFE; d = 0x10325476; e = 0xC3D2E1F0 }

abbrev pub four_bytes : ℕ → Bytes
four_bytes n = (n / 2 ^ 24 % 256) ∷ (n / 2 ^ 16 % 256) ∷ (n / 2 ^ 8 % 256) ∷ (n % 256) ∷ []

unfoldable pub digest : Words → Bytes
digest h =
    four_bytes h.a ++ (four_bytes h.b ++ (four_bytes h.c ++ (four_bytes h.d ++ four_bytes h.e)))

-- The digest of a padded message.
unfoldable pub hash_padded : Bytes → Bytes
unfolding digest hash_blocks
hash_padded message = digest (hash_blocks (length message / 64) message initial)

unfoldable pub sha1_hash : Bytes → Option Bytes
sha1_hash message = do padded ← pad message; some (hash_padded padded)

unfoldable pub compute_ws_accept : Bytes → Option Bytes
compute_ws_accept key = do
  hash ← sha1_hash (key ++ codes "258EAFA5-E914-47DA-95CA-C5AB0DC85B11")
  some (base64_encode hash)
