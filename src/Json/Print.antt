-- ===== src/Json/Print.antt =====
-- `Value::serialize` of json.h. The output stream is the bytes written to it.
use quick_js_debugger.Prelude.{
  ℕ, ◌+◌, ◌/◌, ◌%◌, Bool, true, false, [], ◌∷◌, ◌++◌, ◌&&◌, ltb, ◌==◌, if◌then◌else◌,
}
use quick_js_debugger.Prelude.Int.{pos, ◌-ℤ◌}
use quick_js_debugger.Text.Bytes.{Bytes, codes}
use quick_js_debugger.Text.Decimal.{to_string}
use quick_js_debugger.Json.Floats.{Floats, limit}
use quick_js_debugger.Json.Value.{
  Value, Items, Fields, null, bool, number, string, array, object, nil, cons, end, field,
}

-- A digit of "%x".
abbrev pub hex_digit : ℕ → ℕ
hex_digit d = if ltb d 10 then b'0' + d else 87 + d

-- `snprintf("\\u%04x", c)`, for a byte.
abbrev pub unicode_escape : ℕ → Bytes
unicode_escape c = b'\\' ∷ b'u' ∷ b'0' ∷ b'0' ∷ hex_digit (c / 16) ∷ hex_digit (c % 16) ∷ []

-- What the String case writes for one byte.
unfoldable pub escape_byte : ℕ → Bytes
escape_byte c =
    if c == b'"'
    then b'\\' ∷ b'"' ∷ []
    else if c == b'\\'
    then b'\\' ∷ b'\\' ∷ []
    else if c == 8
    then b'\\' ∷ b'b' ∷ []
    else if c == 12
    then b'\\' ∷ b'f' ∷ []
    else if c == 10
    then b'\\' ∷ b'n' ∷ []
    else if c == 13
    then b'\\' ∷ b'r' ∷ []
    else if c == 9
    then b'\\' ∷ b't' ∷ []
    else if ltb c 0x20
    then unicode_escape c
    else c ∷ []

unfoldable pub escape : Bytes → Bytes
escape [] = []
escape (c ∷ s) = escape_byte c ++ escape s

unfoldable pub print_string : Bytes → Bytes
print_string s = b'"' ∷ (escape s ++ b'"' ∷ [])

module _ {N : Type 0} ⦃fl : Floats N⦄ where
  -- Whole numbers up to 10^15 in size are written as integers.
  unfoldable pub print_number : N → Bytes
  print_number d =
      let iv = fl.to_int64 d in
      if fl.same d (fl.of_int iv)
        && fl.at_most (fl.of_int (pos 0 -ℤ pos limit)) d
        && fl.at_most d (fl.of_int (pos limit))
      then to_string iv
      else fl.print_g d

  unfoldable mutual
    pub serialize : Value N → Bytes
    serialize null = codes "null"
    serialize (bool b) = if b then codes "true" else codes "false"
    serialize (number d) = print_number d
    serialize (string s) = print_string s
    serialize (array xs) = b'[' ∷ (serialize_items true xs ++ b']' ∷ [])
    serialize (object fs) = b'{' ∷ (serialize_fields true fs ++ b'}' ∷ [])

    pub serialize_items : Bool → Items N → Bytes
    serialize_items first nil = []
    serialize_items first (cons v xs) =
        (if first then [] else b',' ∷ []) ++ (serialize v ++ serialize_items false xs)

    pub serialize_fields : Bool → Fields N → Bytes
    serialize_fields first end = []
    serialize_fields first (field k v fs) =
        (if first then [] else b',' ∷ [])
        ++ (print_string k ++ b':' ∷ (serialize v ++ serialize_fields false fs))
