-- ===== src/Text/Bytes.antt =====
-- Byte strings, their equality and order (std::string's operator== and operator<), and ASCII
-- classes in the "C" locale (tolower, isspace).
use Prim.Native.Nat.{compare, Ordering}
use Prim.Native.Char.{code}
use Prim.Native.String.{String}
use quick_js_debugger.Prelude.{
  ℕ, ◌+◌, ◌≡◌, ◌↔◌, refl, Bool, true, false, ◌&&◌, ◌||◌, List, [], ◌∷◌, map, arith, leb, ◌==◌,
  if◌then◌else◌,
}

abbrev pub Bytes : Type 0
Bytes = List ℕ

-- The bytes of an ASCII literal.
abbrev pub codes : String → Bytes
codes String.[] = []
codes (String.◌∷◌ c s) = code c ∷ codes s

-- `a == b` on strings.
unfoldable pub equal : Bytes → Bytes → Bool
equal [] [] = true
equal (x ∷ xs) (y ∷ ys) = x == y && equal xs ys
equal _ _ = false

pub equal_iff : (a b : Bytes) → (equal a b ≡ true) ↔ (a ≡ b)
unfolding equal
equal_iff [] b = ground arith
equal_iff (x ∷ a) [] = ground arith
equal_iff (x ∷ a) (y ∷ b) = ground (arith, equal_iff a b)

pub equal_refl : (a : Bytes) → equal a a ≡ true
equal_refl a = (equal_iff a a).1 refl

-- The byte order of `std::map<std::string, …>`.
unfoldable pub compare_bytes : Bytes → Bytes → Ordering
compare_bytes [] [] = Ordering.eq
compare_bytes [] (y ∷ ys) = Ordering.lt
compare_bytes (x ∷ xs) [] = Ordering.gt
compare_bytes (x ∷ xs) (y ∷ ys) = elim (compare x y) [
  | Ordering.lt ↦ Ordering.lt
  | Ordering.eq ↦ compare_bytes xs ys
  | Ordering.gt ↦ Ordering.gt
]

-- `s.empty()`.
abbrev pub is_empty : Bytes → Bool
is_empty [] = true
is_empty (_ ∷ _) = false

abbrev pub tolower : ℕ → ℕ
tolower c = if leb b'A' c && leb c b'Z' then c + 32 else c

-- `std::transform` with `tolower`.
unfoldable pub to_lower : Bytes → Bytes
to_lower s = map tolower s

abbrev pub is_space : ℕ → Bool
is_space c = c == 32 || (leb 9 c && leb c 13)

abbrev pub is_digit : ℕ → Bool
is_digit c = leb b'0' c && leb c b'9'
