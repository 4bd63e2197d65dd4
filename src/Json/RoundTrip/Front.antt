-- ===== src/Json/RoundTrip/Front.antt =====
-- How a printed value begins.
use quick_js_debugger.Prelude.{
  ℕ, suc, ◌≡◌, refl, true, false, ◌||◌, [], ◌∷◌, ◌++◌, arith, ◌==◌, append-nil,
}
use quick_js_debugger.Prelude.Int.{ℤ, pos, negsuc}
use quick_js_debugger.Text.Bytes.{Bytes, is_digit}
use quick_js_debugger.Text.Decimal.{
  to_string, nat_to_string, starts_digit, nat_to_string-starts_digit,
}
use quick_js_debugger.Json.Scan.{skip_ws, is_ws}

-- A printed value begins with a byte that is neither blank nor a closing bracket.
abbrev pub Begins : Bytes → Type 0
Begins s = (c : ℕ) × (t : Bytes) × (s ≡ c ∷ t) × (is_ws c ≡ false) × ((c == b']') ≡ false)

digits-Begins : (s : Bytes) → starts_digit s ≡ true → Begins s
digits-Begins [] h = cc
digits-Begins (c ∷ s) h = (c, s, refl, ground arith, ground arith)

pub to_string-Begins : (i : ℤ) → Begins (to_string i)
unfolding to_string
to_string-Begins (pos n) =
    digits-Begins (nat_to_string n) (rw append-nil at (nat_to_string-starts_digit n []))
to_string-Begins (negsuc n) = (b'-', nat_to_string (suc n), refl, refl, refl)

pub skip_ws-Begins : (s t : Bytes) → Begins s → skip_ws (s ++ t) ≡ s ++ t
unfolding skip_ws
skip_ws-Begins s t (c, s', e, blank, bracket) = rw e (ground arith)

-- A printed number begins with a digit or a minus sign.
abbrev pub Front : Bytes → Type 0
Front s = (c : ℕ) × (t : Bytes) × (s ≡ c ∷ t) × ((c == b'-' || is_digit c) ≡ true)

digits-Front : (s : Bytes) → starts_digit s ≡ true → Front s
digits-Front [] h = cc
digits-Front (c ∷ s) h = (c, s, refl, ground arith)

pub to_string-Front : (i : ℤ) → Front (to_string i)
unfolding to_string
to_string-Front (pos n) =
    digits-Front (nat_to_string n) (rw append-nil at (nat_to_string-starts_digit n []))
to_string-Front (negsuc n) = (b'-', nat_to_string (suc n), refl, refl)
