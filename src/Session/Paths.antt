-- ===== src/Session/Paths.antt =====
-- The path helpers at the top of debug_session.cpp, and the matching of a script's path against a
-- breakpoint's.
use quick_js_debugger.Prelude.{
  ℕ, suc, Bool, true, false, ◌&&◌, ◌||◌, [], ◌∷◌, ◌++◌, map, Option, none, some, not, leb, ◌==◌,
  if◌then◌else◌, length, drop,
}
use quick_js_debugger.Text.Bytes.{Bytes, codes, equal, to_lower}
use quick_js_debugger.Text.Search.{starts_with, contains, rfind?}

-- What the code takes from the machine it is built for.
pub record Platform : Type 0 where
  -- `_WIN32` is defined.
  pub win32 : Bool
  -- `std::regex_search(subject, std::regex(pattern, ECMAScript | icase))`, pattern first; `none`
  -- is an exception of either.
  pub regex_search : Bytes → Bytes → Option Bool

unfoldable pub normalize_url : Bytes → Bytes
normalize_url path = map (λ c. if c == b'\\' then b'/' else c) path

-- `norm[0] == '/' || (norm.size() >= 3 && norm[1] == ':')`, for a string that is not empty.
abbrev pub is_absolute : Bytes → Bool
is_absolute [] = false
is_absolute (a ∷ []) = a == b'/'
is_absolute (a ∷ b ∷ s) = a == b'/' || (leb 3 (length (a ∷ b ∷ s)) && b == b':')

abbrev pub first_is : ℕ → Bytes → Bool
first_is c [] = false
first_is c (x ∷ s) = x == c

unfoldable pub to_file_url : Bytes → Bytes
unfolding normalize_url starts_with
to_file_url path =
    let norm = normalize_url path in
    if starts_with (codes "file://") norm
    then norm
    else if is_absolute norm
    then codes "file://" ++ (if not (first_is b'/' norm) then b'/' ∷ norm else norm)
    else norm

module _ (pf : Platform) where
  unfoldable pub paths_match : Bytes → Bytes → Bool
  paths_match a b = if pf.win32 then equal (to_lower a) (to_lower b) else equal a b

-- The part behind the last slash.
unfoldable pub basename : Bytes → Bytes
basename s = elim (rfind? b'/' s) [ none ↦ s | some pos ↦ drop (suc pos) s ]

module _ (pf : Platform) where
  -- The plain comparison of a breakpoint's url with a running file, in `check_breakpoint` and again
  -- in `debug_trace_handler`.
  unfoldable pub plain_match : Bytes → Bytes → Bool
  plain_match file url =
      paths_match pf file url
      || paths_match pf (basename file) (basename url)
      || contains (to_lower url) (to_lower file)
      || contains (to_lower file) (to_lower url)

  -- The regex comparison: the file's URL first, then its path; an exception is no match.
  unfoldable pub regex_match : Bytes → Bytes → Bytes → Bool
  regex_match pattern url path = elim (pf.regex_search pattern url) [
    | none ↦ false
    | some true ↦ true
    | some false ↦ elim (pf.regex_search pattern path) [ none ↦ false | some found ↦ found ]
  ]
