-- ===== src/Ws/Base64.antt =====
-- `base64_encode`, and the decoder of RFC 4648 that it is measured by. The bits that the source puts
-- together with `|` do not overlap, so they are added.
use quick_js_debugger.Prelude.{
  ℕ, suc, ◌+◌, ◌*◌, ◌/◌, ◌%◌, ◌^◌, ◌<◌, ◌≡◌, refl, Bool, true, false, not, ◌&&◌, [], ◌∷◌, ◌++◌,
  arith, ◌==◌, if◌then◌else◌,
}
use quick_js_debugger.Prelude.Ranges.{passes_from, passes_from-passes}
use quick_js_debugger.Text.Bytes.{Bytes, codes}
use quick_js_debugger.Ws.Frames.{byte_at}
use quick_js_debugger.Ws.Masks.{AreBytes}

abbrev pub table : Bytes
table = codes "ABCDEFGHIJKLMNOPQRSTUVWXYZabcdefghijklmnopqrstuvwxyz0123456789+/"

-- `table[(n >> shift) & 63]`, of the shifted number.
unfoldable pub digit64 : ℕ → ℕ
digit64 n = byte_at (n % 64) table

unfoldable pub base64_encode : Bytes → Bytes
base64_encode [] = []
base64_encode (a ∷ []) =
    let n = a * 2 ^ 16 in digit64 (n / 2 ^ 18) ∷ digit64 (n / 2 ^ 12) ∷ b'=' ∷ b'=' ∷ []
base64_encode (a ∷ b ∷ []) =
    let n = a * 2 ^ 16 + b * 2 ^ 8 in
    digit64 (n / 2 ^ 18) ∷ digit64 (n / 2 ^ 12) ∷ digit64 (n / 2 ^ 6) ∷ b'=' ∷ []
base64_encode (a ∷ b ∷ c ∷ s) =
    let n = a * 2 ^ 16 + b * 2 ^ 8 + c in
    digit64 (n / 2 ^ 18) ∷ digit64 (n / 2 ^ 12) ∷ digit64 (n / 2 ^ 6) ∷ digit64 n ∷ base64_encode s

-- The place of a character in the alphabet.
pub place : ℕ → Bytes → ℕ
place c [] = 0
place c (x ∷ s) = let rest = suc (place c s) in if x == c then 0 else rest

-- The bytes that four characters stand for: one or two where the last are padding.
pub decode_group : ℕ → ℕ → ℕ → ℕ → Bytes
decode_group w x y z =
    let high = place w table * 2 ^ 18 + place x table * 2 ^ 12 in
    let middle = high + place y table * 2 ^ 6 in
    let n = middle + place z table in
    if y == b'='
    then high / 2 ^ 16 ∷ []
    else if z == b'='
    then middle / 2 ^ 16 ∷ (middle / 2 ^ 8 % 256) ∷ []
    else n / 2 ^ 16 ∷ (n / 2 ^ 8 % 256) ∷ (n % 256) ∷ []

unfoldable pub base64_decode : Bytes → Bytes
base64_decode (w ∷ x ∷ y ∷ z ∷ s) = decode_group w x y z ++ base64_decode s
base64_decode _ = []

abbrev is_read : ℕ → Bool
is_read k = place (byte_at k table) table == k && not (byte_at k table == b'=')

alphabet_read : passes_from is_read 0 64 ≡ true
unfolding passes_from place
alphabet_read = refl

digit64-read : (n : ℕ) → (place (digit64 n) table ≡ n % 64) × ((digit64 n == b'=') ≡ false)
unfolding digit64
digit64-read n =
    split (byte_at (n % 64) table)
      (passes_from-passes is_read 64 0 (n % 64) (omega arith) (omega arith) alphabet_read)
  where
    split :
        (c : ℕ)
        → ((place c table == n % 64) && not (c == b'=')) ≡ true
        → (place c table ≡ n % 64) × ((c == b'=') ≡ false)
    split c h = ground (arith, h)

-- A group of characters, back to numbers of six bits.
decode_group-three :
    (p q r t : ℕ)
    → decode_group (digit64 p) (digit64 q) (digit64 r) (digit64 t) ≡ (
        let n = p % 64 * 2 ^ 18 + q % 64 * 2 ^ 12 + r % 64 * 2 ^ 6 + t % 64 in
        n / 2 ^ 16 ∷ (n / 2 ^ 8 % 256) ∷ (n % 256) ∷ [])
unfolding decode_group
decode_group-three p q r t =
    let (rp, _) = digit64-read p in
    let (rq, _) = digit64-read q in
    let (rr, no_pad) = digit64-read r in
    let (rt, no_pad') = digit64-read t in rw (rp, rq, rr, rt, no_pad, no_pad') refl

decode_group-two :
    (p q r : ℕ)
    → decode_group (digit64 p) (digit64 q) (digit64 r) b'=' ≡ (
        let n = p % 64 * 2 ^ 18 + q % 64 * 2 ^ 12 + r % 64 * 2 ^ 6 in
        n / 2 ^ 16 ∷ (n / 2 ^ 8 % 256) ∷ [])
unfolding decode_group
decode_group-two p q r =
    let (rp, _) = digit64-read p in
    let (rq, _) = digit64-read q in
    let (rr, no_pad) = digit64-read r in rw (rp, rq, rr, no_pad) refl

decode_group-one :
    (p q : ℕ)
    → decode_group (digit64 p) (digit64 q) b'=' b'='
      ≡ (p % 64 * 2 ^ 18 + q % 64 * 2 ^ 12) / 2 ^ 16 ∷ []
unfolding decode_group
decode_group-one p q =
    let (rp, _) = digit64-read p in let (rq, _) = digit64-read q in rw (rp, rq) refl

-- Four groups of six bits make up a number of twenty-four.
sextets :
    (n : ℕ)
    → n < 2 ^ 24
    → n / 2 ^ 18 % 64 * 2 ^ 18 + n / 2 ^ 12 % 64 * 2 ^ 12 + n / 2 ^ 6 % 64 * 2 ^ 6 + n % 64 ≡ n
sextets n h =
    let top : n / 2 ^ 18 % 64 ≡ n / 2 ^ 18 = omega arith in
    let next : n / 2 ^ 18 * 64 + n / 2 ^ 12 % 64 ≡ n / 2 ^ 12 = omega arith in
    let last : n / 2 ^ 12 * 64 + n / 2 ^ 6 % 64 ≡ n / 2 ^ 6 = omega arith in omega arith

-- Every string of bytes is decoded again from what it was encoded to.
pub base64_decode-base64_encode : (s : Bytes) → AreBytes s → base64_decode (base64_encode s) ≡ s
unfolding base64_encode base64_decode
base64_decode-base64_encode [] h = refl
base64_decode-base64_encode (a ∷ []) h =
    let n = a * 2 ^ 16 in
    let all = sextets n (omega arith) in
    let whole : (n / 2 ^ 18 % 64 * 2 ^ 18 + n / 2 ^ 12 % 64 * 2 ^ 12) / 2 ^ 16 ≡ a = omega arith in
    rw (decode_group-one (n / 2 ^ 18) (n / 2 ^ 12), whole) refl
base64_decode-base64_encode (a ∷ b ∷ []) h =
    let n = a * 2 ^ 16 + b * 2 ^ 8 in
    let all = sextets n (omega arith) in
    let whole : n / 2 ^ 18 % 64 * 2 ^ 18 + n / 2 ^ 12 % 64 * 2 ^ 12 + n / 2 ^ 6 % 64 * 2 ^ 6 ≡ n =
      omega arith in
    let first : n / 2 ^ 16 ≡ a = omega arith in
    let second : n / 2 ^ 8 % 256 ≡ b = omega arith in
    rw (decode_group-two (n / 2 ^ 18) (n / 2 ^ 12) (n / 2 ^ 6), whole, first, second) refl
base64_decode-base64_encode (a ∷ b ∷ c ∷ s) h =
    let n = a * 2 ^ 16 + b * 2 ^ 8 + c in
    let whole = sextets n (omega arith) in
    let first : n / 2 ^ 16 ≡ a = omega arith in
    let second : n / 2 ^ 8 % 256 ≡ b = omega arith in
    let third : n % 256 ≡ c = omega arith in
    rw
      (
        decode_group-three (n / 2 ^ 18) (n / 2 ^ 12) (n / 2 ^ 6) n,
        whole,
        first,
        second,
        third,
        base64_decode-base64_encode s h.1.1.1,
      )
      refl
