-- ===== src/Json/RoundTrip/Strings.antt =====
-- A printed string is read back, whatever bytes it holds.
use quick_js_debugger.Prelude.{
  ℕ, zero, suc, ◌/◌, ◌%◌, ◌≤◌, ◌<◌, ◌≡◌, ◌≢◌, refl, ◌∙◌, Bool, true, false, [], ◌∷◌, ◌++◌, none,
  some, arith, ◌==◌, length, append_assoc, append-nil, length-append,
}
use quick_js_debugger.Prelude.Ranges.{passes_from, passes_from-passes}
use quick_js_debugger.Text.Bytes.{Bytes}
use quick_js_debugger.Json.Result.{ok}
use quick_js_debugger.Json.Print.{hex_digit, escape_byte, escape}
use quick_js_debugger.Json.Scan.{
  stoul16, encode_utf8, read_escape, read_string, parse_string, unescape,
}

-- The test that the four digits written for a control byte give it back.
abbrev reads_hex : ℕ → Bool
reads_hex c = elim (stoul16 (b'0' ∷ b'0' ∷ hex_digit (c / 16) ∷ hex_digit (c % 16) ∷ [])) [
  | none ↦ false
  | some d ↦ d == c
]

hex_table : passes_from reads_hex 0 0x20 ≡ true
unfolding passes_from stoul16
hex_table = refl

stoul16-hex_digit :
    (c : ℕ)
    → c < 0x20
    → stoul16 (b'0' ∷ b'0' ∷ hex_digit (c / 16) ∷ hex_digit (c % 16) ∷ []) ≡ some c
stoul16-hex_digit c h =
    let checked = passes_from-passes reads_hex 0x20 0 c (omega arith) h hex_table in ground arith

read_escape-unicode :
    (c : ℕ) (t : Bytes)
    → c < 0x20
    → read_escape b'u' (b'0' ∷ b'0' ∷ hex_digit (c / 16) ∷ hex_digit (c % 16) ∷ t) ≡ ok (c ∷ [], t)
unfolding read_escape encode_utf8
read_escape-unicode c t h = ground (arith, stoul16-hex_digit c h)

read_escape_plain : (e : ℕ) (t : Bytes) → e ≢ b'u' → read_escape e t ≡ ok (unescape e ∷ [], t)
unfolding read_escape
read_escape_plain e t h = ground arith

-- One byte, as it was printed, costs one round of the loop.
read_string-escape_byte :
    (f c : ℕ) (r t : Bytes)
    → read_string (suc f) r (escape_byte c ++ t) ≡ read_string f (r ++ c ∷ []) t
unfolding read_string escape_byte unescape
read_string-escape_byte f c r t = ground (
  arith,
  read_escape-unicode c t,
  read_escape_plain b'"' t,
  read_escape_plain b'\\' t,
  read_escape_plain b'b' t,
  read_escape_plain b'f' t,
  read_escape_plain b'n' t,
  read_escape_plain b'r' t,
  read_escape_plain b't' t,
)

length-escape_byte : (c : ℕ) → 0 < length (escape_byte c)
unfolding escape_byte
length-escape_byte c = ground arith

pub length-escape : (s : Bytes) → length s ≤ length (escape s)
unfolding escape
length-escape [] = omega arith
length-escape (c ∷ s) =
    omega (arith, length-escape s, length-escape_byte c, length-append (escape_byte c) (escape s))

read_string-escape :
    (s r rest : Bytes) (f : ℕ)
    → length s < f
    → read_string f r (escape s ++ b'"' ∷ rest) ≡ ok (r ++ s, rest)
unfolding escape
read_string-escape s r rest zero h = absurd (omega arith)
read_string-escape [] r rest (suc f) h = rw append-nil (unfold read_string in refl)
read_string-escape (c ∷ s) r rest (suc f) h =
    rw (append_assoc (escape_byte c) (escape s) (b'"' ∷ rest), read_string-escape_byte f c r)
      (read_string-escape s (r ++ c ∷ []) rest f (omega arith) ∙ rw append_assoc)

-- Behind its opening quote, an escaped string of any bytes is read back up to the closing quote,
-- and what follows is left.
pub parse_string-escape : (s rest : Bytes) → parse_string (escape s ++ b'"' ∷ rest) ≡ ok (s, rest)
unfolding parse_string
parse_string-escape s rest =
    read_string-escape s [] rest _
      (omega (arith, length-escape s, length-append (escape s) (b'"' ∷ rest)))
