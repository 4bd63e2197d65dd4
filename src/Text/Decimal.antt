-- ===== src/Text/Decimal.antt =====
-- std::to_string and std::stoi, on decimal numerals.
use quick_js_debugger.Prelude.{
  ℕ, zero, suc, ◌+◌, ◌-◌, ◌*◌, ◌/◌, ◌%◌, ◌≤◌, ◌<◌, ◌≡◌, refl, sym, ap, ◌∙◌, Bool, true, false, [],
  ◌∷◌, ◌++◌, Option, none, some, arith, leb, ◌==◌, if◌then◌else◌, All,
}
use quick_js_debugger.Prelude.Int.{ℤ, pos, negsuc}
use quick_js_debugger.Text.Bytes.{Bytes, is_space, is_digit}

-- The digits of `n` in front of `out`; a number has fewer digits than its value plus one.
digits_onto : ℕ → ℕ → Bytes → Bytes
digits_onto zero n out = out
digits_onto (suc fuel) n out =
    let shown = (b'0' + n % 10) ∷ out in
    let more = digits_onto fuel (n / 10) shown in if n / 10 == 0 then shown else more

unfoldable pub nat_to_string : ℕ → Bytes
unfolding digits_onto
nat_to_string n = digits_onto (suc n) n []

-- `std::to_string` of an int.
unfoldable pub to_string : ℤ → Bytes
unfolding nat_to_string
to_string (pos n) = nat_to_string n
to_string (negsuc n) = b'-' ∷ nat_to_string (suc n)

-- The value of the digits at the front, behind those that gave `acc`.
unfoldable pub read_digits : ℕ → Bytes → ℕ
read_digits acc [] = acc
read_digits acc (c ∷ s) =
    let rest = read_digits (acc * 10 + (c - b'0')) s in if is_digit c then rest else acc

abbrev pub starts_digit : Bytes → Bool
starts_digit [] = false
starts_digit (c ∷ s) = is_digit c

unfoldable pub skip_space : Bytes → Bytes
skip_space [] = []
skip_space (c ∷ s) = let rest = skip_space s in if is_space c then rest else c ∷ s

abbrev int_max : ℕ
int_max = 2147483647

-- Digits read as an int of the given sign: `none` where there is no digit, or no int that large.
read_int : Bool → Bytes → Option ℤ
unfolding read_digits
read_int negative s =
    let n = read_digits 0 s in
    if starts_digit s
    then if negative
      then if leb n (suc int_max) then some (if n == 0 then pos 0 else negsuc (n - 1)) else none
      else if leb n int_max
      then some (pos n)
      else none
    else none

read_signed : Bytes → Option ℤ
unfolding read_int
read_signed [] = none
read_signed (c ∷ s) =
    if c == b'-'
    then read_int true s
    else if c == b'+'
    then read_int false s
    else read_int false (c ∷ s)

-- `std::stoi`; `none` is the exception that it throws (std::invalid_argument, std::out_of_range).
unfoldable pub stoi : Bytes → Option ℤ
unfolding skip_space read_signed
stoi s = read_signed (skip_space s)

digits_onto-value :
    (fuel n : ℕ) (out : Bytes)
    → n < fuel
    → read_digits 0 (digits_onto fuel n out) ≡ read_digits n out
unfolding digits_onto read_digits
digits_onto-value zero n out h = absurd (omega arith)
digits_onto-value (suc fuel) n out h =
    ground (arith, digits_onto-value fuel (n / 10) ((b'0' + n % 10) ∷ out))

read_digits_stop : (n : ℕ) (rest : Bytes) → starts_digit rest ≡ false → read_digits n rest ≡ n
unfolding read_digits
read_digits_stop n [] h = refl
read_digits_stop n (c ∷ rest) h = ground arith

digits_onto-starts_digit :
    (fuel n : ℕ) (out : Bytes) → starts_digit (digits_onto (suc fuel) n out) ≡ true
unfolding digits_onto
digits_onto-starts_digit zero n out = ground arith
digits_onto-starts_digit (suc fuel) n out =
    ground (arith, digits_onto-starts_digit fuel (n / 10) ((b'0' + n % 10) ∷ out))

digits_onto-append :
    (fuel n : ℕ) (out rest : Bytes)
    → digits_onto fuel n out ++ rest ≡ digits_onto fuel n (out ++ rest)
unfolding digits_onto
digits_onto-append zero n out rest = refl
digits_onto-append (suc fuel) n out rest =
    ground (arith, digits_onto-append fuel (n / 10) ((b'0' + n % 10) ∷ out) rest)

-- A numeral is read back up to the first byte that is no digit.
pub read_digits-nat_to_string :
    (n : ℕ) (rest : Bytes) → starts_digit rest ≡ false → read_digits 0 (nat_to_string n ++ rest) ≡ n
unfolding nat_to_string
read_digits-nat_to_string n rest h =
    rw (digits_onto-append (suc n) n [] rest, digits_onto-value (suc n) n rest (omega arith))
      (read_digits_stop n rest h)

pub nat_to_string-starts_digit :
    (n : ℕ) (rest : Bytes) → starts_digit (nat_to_string n ++ rest) ≡ true
unfolding nat_to_string
nat_to_string-starts_digit n rest =
    rw (digits_onto-append (suc n) n [] rest) (digits_onto-starts_digit n n rest)

read_signed-digit :
    (s : Bytes) → starts_digit s ≡ true → read_signed (skip_space s) ≡ read_int false s
unfolding read_signed skip_space
read_signed-digit [] h = cc
read_signed-digit (c ∷ s) h = ground arith

-- `std::stoi` reads back the front of what `std::to_string` wrote.
pub stoi-nat_to_string :
    (n : ℕ) (rest : Bytes)
    → starts_digit rest ≡ false
    → n ≤ 2147483647
    → stoi (nat_to_string n ++ rest) ≡ some (pos n)
unfolding stoi
stoi-nat_to_string n rest h bound =
    read_signed-digit (nat_to_string n ++ rest) (nat_to_string-starts_digit n rest)
    ∙ unfold read_int in
      ground (arith, nat_to_string-starts_digit n rest, read_digits-nat_to_string n rest h)

-- Two numbers are not written alike.
pub nat_to_string-injective : (m n : ℕ) → nat_to_string m ≡ nat_to_string n → m ≡ n
nat_to_string-injective m n e =
    sym (read_digits-nat_to_string m [] refl)
    ∙ ap (λ s. read_digits 0 (s ++ [])) e
    ∙ read_digits-nat_to_string n [] refl

digits_onto-digits :
    (fuel n : ℕ) (out : Bytes)
    → All (λ c. is_digit c ≡ true) out
    → All (λ c. is_digit c ≡ true) (digits_onto fuel n out)
unfolding digits_onto
digits_onto-digits zero n out h = h
digits_onto-digits (suc fuel) n out h =
    ground (arith, digits_onto-digits fuel (n / 10) ((b'0' + n % 10) ∷ out))

-- A numeral holds digits only.
pub nat_to_string-digits : (n : ℕ) → All (λ c. is_digit c ≡ true) (nat_to_string n)
unfolding nat_to_string
nat_to_string-digits n = digits_onto-digits (suc n) n [] tt
