-- ===== src/Json/Scan.antt =====
-- The scanners of json.h below values: blanks, strings, the text of a number. The position `p` in
-- the string `s` is the rest of the string from `p` on.
use Prim.Native.Nat.{bit_or, bit_and}
use quick_js_debugger.Prelude.{
  ℕ, zero, suc, ◌+◌, ◌-◌, ◌*◌, ◌/◌, ◌%◌, ◌^◌, Bool, true, false, ◌&&◌, ◌||◌, [], ◌∷◌, ◌++◌, Option,
  none, some, leb, ltb, ◌==◌, if◌then◌else◌, length, take, drop,
}
use quick_js_debugger.Text.Bytes.{Bytes, is_digit}
use quick_js_debugger.Text.Decimal.{skip_space}
use quick_js_debugger.Json.Result.{Result, ok, out_of_fuel, ◌>>=◌, or_throw}

abbrev pub is_ws : ℕ → Bool
is_ws c = c == b' ' || c == 9 || c == 10 || c == 13

unfoldable pub skip_ws : Bytes → Bytes
skip_ws [] = []
skip_ws (c ∷ s) = let rest = skip_ws s in if is_ws c then rest else c ∷ s

-- `p < s.size() && s[p] == c`.
abbrev pub next_is : ℕ → Bytes → Bool
next_is c [] = false
next_is c (x ∷ s) = x == c

-- The value of a hexadecimal digit.
abbrev pub hex_value : ℕ → Option ℕ
hex_value c =
    if is_digit c
    then some (c - b'0')
    else if leb b'a' c && leb c b'f'
    then some (c - 87)
    else if leb b'A' c && leb c b'F'
    then some (c - 55)
    else none

-- The hexadecimal digits at the front, behind those that gave `acc`.
unfoldable pub read_hex : ℕ → Bytes → ℕ
read_hex acc [] = acc
read_hex acc (c ∷ s) = elim (hex_value c) [ none ↦ acc | some d ↦ read_hex (acc * 16 + d) s ]

abbrev starts_hex : Bytes → Bool
starts_hex [] = false
starts_hex (c ∷ s) = elim (hex_value c) [ none ↦ false | some _ ↦ true ]

-- A "0x" is skipped if a digit follows it.
skip_prefix : Bytes → Bytes
skip_prefix (z ∷ x ∷ s) =
    if z == b'0' && (x == b'x' || x == b'X') && starts_hex s then s else z ∷ x ∷ s
skip_prefix s = s

read_unsigned : Bool → Bytes → Option ℕ
read_unsigned negative s =
    let n = read_hex 0 (skip_prefix s) % 2 ^ 32 in
    if starts_hex s then some (if negative then (2 ^ 32 - n) % 2 ^ 32 else n) else none

-- `(unsigned)std::stoul(s, nullptr, 16)`, for at most four bytes; `none` is std::invalid_argument.
stoul_signed : Bytes → Option ℕ
unfolding read_unsigned read_hex skip_prefix
stoul_signed [] = none
stoul_signed (c ∷ s) =
    if c == b'-'
    then read_unsigned true s
    else if c == b'+'
    then read_unsigned false s
    else read_unsigned false (c ∷ s)

unfoldable pub stoul16 : Bytes → Option ℕ
unfolding stoul_signed skip_space
stoul16 s = stoul_signed (skip_space s)

-- The bytes that a `\u` escape appends; a cast to char keeps the low eight bits.
unfoldable pub encode_utf8 : ℕ → Bytes
encode_utf8 cp =
    if ltb cp 0x80
    then cp ∷ []
    else if ltb cp 0x800
    then bit_or 0xC0 (cp / 2 ^ 6) ∷ bit_or 0x80 (bit_and cp 0x3F) ∷ []
    else (bit_or 0xE0 (cp / 2 ^ 12) % 256)
      ∷ bit_or 0x80 (bit_and (cp / 2 ^ 6) 0x3F)
      ∷ bit_or 0x80 (bit_and cp 0x3F)
      ∷ []

-- What the escape `\e` appends, for an `e` that is not `u`.
unfoldable pub unescape : ℕ → ℕ
unescape e =
    if e == b'b'
    then 8
    else if e == b'f'
    then 12
    else if e == b'n'
    then 10
    else if e == b'r'
    then 13
    else if e == b't'
    then 9
    else e

-- The bytes that the escape behind `\` appends, and what follows it. With fewer than four bytes
-- behind `\u` nothing is appended, and the scan goes on behind the `u`.
unfoldable pub read_escape : ℕ → Bytes → Result (Bytes × Bytes)
read_escape e s =
    if e == b'u'
    then if ltb (length s) 4
      then ok ([], s)
      else (do cp ← or_throw (stoul16 (take 4 s)); ok (encode_utf8 cp, drop 4 s))
    else ok (unescape e ∷ [], s)

-- The loop of `parse_string`, behind the opening quote; `r` is the string read so far.
unfoldable pub read_string : ℕ → Bytes → Bytes → Result (Bytes × Bytes)
read_string zero r s = out_of_fuel
read_string (suc f) r [] = ok (r, [])
read_string (suc f) r (c ∷ s) = elim (c == b'"') [
  | true ↦ ok (r, s)
  | false ↦ elim (c == b'\\') [
    | false ↦ read_string f (r ++ c ∷ []) s
    | true ↦ elim s [
      | [] ↦ ok (r, [])
      | e ∷ s' ↦ do (piece, rest) ← read_escape e s'; read_string f (r ++ piece) rest
    ]
  ]
]

-- `parse_string`, at the byte behind the opening quote.
unfoldable pub parse_string : Bytes → Result (Bytes × Bytes)
parse_string s = read_string (suc (length s)) [] s

-- A run of digits, and what follows it.
unfoldable pub span_digits : Bytes → Bytes × Bytes
span_digits [] = ([], [])
span_digits (c ∷ s) =
    let (ds, rest) = span_digits s in if is_digit c then (c ∷ ds, rest) else ([], c ∷ s)

-- An optional byte out of a class, and what follows it.
abbrev pub span_one : (ℕ → Bool) → Bytes → Bytes × Bytes
span_one p [] = ([], [])
span_one p (c ∷ s) = if p c then (c ∷ [], s) else ([], c ∷ s)

-- A point and the digits behind it, if a point comes next.
unfoldable pub span_fraction : Bytes → Bytes × Bytes
span_fraction s =
    let (ds, rest) = span_digits (drop 1 s) in if next_is b'.' s then (b'.' ∷ ds, rest) else ([], s)

-- An exponent, if an `e` comes next.
unfoldable pub span_exponent : Bytes → Bytes × Bytes
span_exponent s =
    let (sign, s₁) = span_one (λ c. c == b'+' || c == b'-') (drop 1 s) in
    let (ds, s₂) = span_digits s₁ in
    if next_is b'e' s || next_is b'E' s then (take 1 s ++ (sign ++ ds), s₂) else ([], s)

-- The text from `start` to `p` in `parse_number`, and what follows it.
unfoldable pub span_number : Bytes → Bytes × Bytes
span_number s =
    let (sign, s₁) = span_one (λ c. c == b'-') s in
    let (whole, s₂) = span_digits s₁ in
    let (fraction, s₃) = span_fraction s₂ in
    let (exponent, s₄) = span_exponent s₃ in (sign ++ (whole ++ (fraction ++ exponent)), s₄)
