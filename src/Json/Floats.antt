-- ===== src/Json/Floats.antt =====
-- The `double` of the platform, which a JSON number holds. Its operations are a parameter: the
-- casts, the comparisons, "%.17g" and std::stod are not the program's own.
use quick_js_debugger.Prelude.{ℕ, ◌^◌, ◌-◌, Bool, true, ◌≡◌, Option, some}
use quick_js_debugger.Prelude.Int.{ℤ, pos, negsuc, ◌≤ℤ◌}
use quick_js_debugger.Text.Bytes.{Bytes}
use quick_js_debugger.Text.Decimal.{to_string}

pub record Floats (N : Type 0) : Type 0 where
  -- `static_cast<double>(n)`.
  pub of_int : ℤ → N
  -- `static_cast<int>(d)` and `static_cast<int64_t>(d)`.
  pub to_int : N → ℤ
  pub to_int64 : N → ℤ
  -- `a == b` and `a <= b`.
  pub same : N → N → Bool
  pub at_most : N → N → Bool
  -- `snprintf("%.17g", d)`.
  pub print_g : N → Bytes
  -- `std::stod(s)`; `none` is an exception.
  pub stod : Bytes → Option N

-- The integers that the printer writes without an exponent.
abbrev pub limit : ℕ
limit = 10 ^ 15

abbrev pub IsSmall : ℤ → Type 0
IsSmall i = (negsuc (limit - 1) ≤ℤ i) × (i ≤ℤ pos limit)

-- What IEEE doubles promise of integers up to 10^15, all of which they hold exactly.
pub record IsExact {N : Type 0} (fl : Floats N) : Type 0 where
  pub cast_back : (i : ℤ) → IsSmall i → fl.to_int64 (fl.of_int i) ≡ i
  pub same_self : (i : ℤ) → IsSmall i → fl.same (fl.of_int i) (fl.of_int i) ≡ true
  pub above : (i : ℤ) → IsSmall i → fl.at_most (fl.of_int (negsuc (limit - 1))) (fl.of_int i) ≡ true
  pub below : (i : ℤ) → IsSmall i → fl.at_most (fl.of_int i) (fl.of_int (pos limit)) ≡ true
  pub read_back : (i : ℤ) → IsSmall i → fl.stod (to_string i) ≡ some (fl.of_int i)
