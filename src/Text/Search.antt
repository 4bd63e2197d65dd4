-- ===== src/Text/Search.antt =====
-- find, rfind, find_first_of and substr. A position is an index; npos is `none`.
use quick_js_debugger.Prelude.{
  ℕ, suc, ◌+◌, ◌≡◌, refl, Bool, true, false, ◌&&◌, [], ◌∷◌, ◌++◌, Option, none, some, arith, ◌==◌,
  if◌then◌else◌, take, drop, append-nil,
}
use quick_js_debugger.Text.Bytes.{Bytes}

unfoldable pub starts_with : Bytes → Bytes → Bool
starts_with [] s = true
starts_with (p ∷ ps) [] = false
starts_with (p ∷ ps) (c ∷ s) = p == c && starts_with ps s

-- `s.find(needle)`.
unfoldable pub find? : Bytes → Bytes → Option ℕ
unfolding starts_with
find? needle [] = if starts_with needle [] then some 0 else none
find? needle (c ∷ s) =
    if starts_with needle (c ∷ s)
    then some 0
    else elim (find? needle s) [ none ↦ none | some i ↦ some (suc i) ]

-- `s.find(needle, start)`.
unfoldable pub find_from? : Bytes → Bytes → ℕ → Option ℕ
unfolding find?
find_from? needle s start = elim (find? needle (drop start s)) [
  | none ↦ none
  | some i ↦ some (start + i)
]

-- `s.find(needle) != npos`.
unfoldable pub contains : Bytes → Bytes → Bool
unfolding find?
contains needle s = elim (find? needle s) [ none ↦ false | some _ ↦ true ]

-- `s.rfind(c)`.
unfoldable pub rfind? : ℕ → Bytes → Option ℕ
rfind? c [] = none
rfind? c (x ∷ s) = elim (rfind? c s) [
  | some i ↦ some (suc i)
  | none ↦ if x == c then some 0 else none
]

-- `s.find_first_of(set, start)`, for a set given by its test.
unfoldable pub find_first? : (ℕ → Bool) → Bytes → Option ℕ
find_first? p [] = none
find_first? p (x ∷ s) =
    if p x then some 0 else elim (find_first? p s) [ none ↦ none | some i ↦ some (suc i) ]

-- `s.substr(pos, count)`.
abbrev pub substr : Bytes → ℕ → ℕ → Bytes
substr s pos count = take count (drop pos s)

pub starts_with-append : (p s : Bytes) → starts_with p (p ++ s) ≡ true
unfolding starts_with
starts_with-append [] s = refl
starts_with-append (c ∷ p) s = ground (arith, starts_with-append p s)

-- What starts with `p` is `p` and a rest.
pub starts_with→append : (p s : Bytes) → starts_with p s ≡ true → (rest : Bytes) × (s ≡ p ++ rest)
unfolding starts_with
starts_with→append [] s h = (s, refl)
starts_with→append (c ∷ p) [] h = cc
starts_with→append (c ∷ p) (x ∷ s) h =
    let (rest, e) = starts_with→append p s (ground arith) in (rest, ground arith)

-- A string contains each of its parts.
pub contains-append : (a needle b : Bytes) → contains needle (a ++ (needle ++ b)) ≡ true
unfolding contains find?
contains-append [] [] [] = refl
contains-append [] [] (x ∷ b) = refl
contains-append [] (c ∷ n) b = ground (arith, starts_with-append (c ∷ n) b)
contains-append (x ∷ a) needle b = ground (arith, contains-append a needle b)

pub contains_self : (s : Bytes) → contains s s ≡ true
contains_self s = rw (append-nil s) at (contains-append [] s [])
