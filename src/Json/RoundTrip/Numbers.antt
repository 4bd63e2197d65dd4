-- ===== src/Json/RoundTrip/Numbers.antt =====
-- A printed integer is read back, where a comma, a closing bracket or nothing follows it.
use quick_js_debugger.Prelude.{
  ℕ, suc, ◌≡◌, refl, Bool, true, false, ◌||◌, [], ◌∷◌, ◌++◌, arith, ◌==◌, All, append-nil,
}
use quick_js_debugger.Prelude.Int.{ℤ, pos, negsuc}
use quick_js_debugger.Text.Bytes.{Bytes, is_digit}
use quick_js_debugger.Text.Decimal.{
  nat_to_string, to_string, starts_digit, nat_to_string-digits, nat_to_string-starts_digit,
}
use quick_js_debugger.Json.Floats.{Floats, IsExact, IsSmall}
use quick_js_debugger.Json.Value.{number}
use quick_js_debugger.Json.Result.{ok}
use quick_js_debugger.Json.Print.{print_number}
use quick_js_debugger.Json.Scan.{span_digits, span_one, span_fraction, span_exponent, span_number}
use quick_js_debugger.Json.Parse.{parse_number}

-- What may follow a number inside a printed value.
abbrev pub delimits : Bytes → Bool
delimits [] = true
delimits (c ∷ s) = c == b',' || c == b']' || c == b'}'

span_digits-append :
    (ds rest : Bytes)
    → All (λ c. is_digit c ≡ true) ds
    → starts_digit rest ≡ false
    → span_digits (ds ++ rest) ≡ (ds, rest)
unfolding span_digits
span_digits-append [] [] h e = refl
span_digits-append [] (c ∷ rest) h e = ground arith
span_digits-append (d ∷ ds) rest h e = rw (span_digits-append ds rest h.1 e) (ground arith)

span_digits-nat_to_string :
    (n : ℕ) (rest : Bytes)
    → delimits rest ≡ true
    → span_digits (nat_to_string n ++ rest) ≡ (nat_to_string n, rest)
span_digits-nat_to_string n rest h =
    span_digits-append (nat_to_string n) rest (nat_to_string-digits n) (plain rest h)
  where
    plain : (s : Bytes) → delimits s ≡ true → starts_digit s ≡ false
    plain [] e = refl
    plain (c ∷ s) e = ground arith

-- No sign, point or exponent is taken for one.
span_digit : (s : Bytes) → starts_digit s ≡ true → span_one (λ c. c == b'-') s ≡ ([], s)
span_digit [] h = refl
span_digit (c ∷ s) h = ground arith

span_tail :
    (sign whole s rest : Bytes)
    → delimits rest ≡ true
    → span_one (λ c. c == b'-') s ≡ (sign, whole ++ rest)
    → span_digits (whole ++ rest) ≡ (whole, rest)
    → span_number s ≡ (sign ++ whole, rest)
unfolding span_number span_fraction span_exponent span_digits
span_tail sign whole s [] h e d = rw (e, d) (ground (arith, append-nil whole))
span_tail sign whole s (c ∷ rest) h e d = rw (e, d) (ground (arith, append-nil whole))

span_number-to_string :
    (i : ℤ) (rest : Bytes)
    → delimits rest ≡ true
    → span_number (to_string i ++ rest) ≡ (to_string i, rest)
unfolding to_string
span_number-to_string (pos n) rest h =
    span_tail [] (nat_to_string n) (nat_to_string n ++ rest) rest h
      (span_digit _ (nat_to_string-starts_digit n rest)) (span_digits-nat_to_string n rest h)
span_number-to_string (negsuc n) rest h =
    span_tail (b'-' ∷ []) (nat_to_string (suc n)) (b'-' ∷ (nat_to_string (suc n) ++ rest)) rest h
      refl (span_digits-nat_to_string (suc n) rest h)

module _ {N : Type 0} ⦃fl : Floats N⦄ where
  pub print_number_small :
      (i : ℤ) → IsExact fl → IsSmall i → print_number (fl.of_int i) ≡ to_string i
  unfolding print_number
  print_number_small i exact small =
      rw
        (exact.cast_back i small, exact.same_self i small, exact.above i small, exact.below i small)

  pub parse_number-to_string :
      (i : ℤ) (rest : Bytes)
      → IsExact fl
      → IsSmall i
      → delimits rest ≡ true
      → parse_number (to_string i ++ rest) ≡ ok (number (fl.of_int i), rest)
  unfolding parse_number
  parse_number-to_string i rest exact small h =
      rw (span_number-to_string i rest h, exact.read_back i small)
