-- ===== src/Cdp/Breakpoints.antt =====
-- Breakpoints as the client sees them: set by the url that a script was announced with, and
-- removed by the id that the answer names.
use mathlib.Core.Path.{subst}
use quick_js_debugger.Prelude.{
  ℕ, suc, ◌≤◌, ◌≡◌, refl, sym, ap, ◌∙◌, Bool, true, false, not, [], ◌∷◌, ◌++◌, arith, Bool-cases,
  inl, inr, if◌then◌else◌, ◌==◌, drop, take, take-append-drop, append-nil, All,
}
use quick_js_debugger.Prelude.Int.{ℤ, pos, ◌+ℤ◌}
use quick_js_debugger.Text.Bytes.{Bytes, codes, compare_bytes, equal}
use quick_js_debugger.Text.Search.{starts_with}
use quick_js_debugger.Json.Floats.{Floats}
use quick_js_debugger.Json.Value.{Value, string, has, at, get_string, set_all, lookup}
use quick_js_debugger.Session.Breakpoints.{
  breakpoint_id, new_breakpoint, set_breakpoint_by_url, check_breakpoint,
}
use quick_js_debugger.Session.Breakpoints.Hits.{check-set_breakpoint}
use quick_js_debugger.Session.Breakpoints.Ids.{IsNumbered, remove-set_breakpoint}
use quick_js_debugger.Session.Paths.{Platform, normalize_url, to_file_url, is_absolute, first_is}
use quick_js_debugger.Session.State.{Session}
use quick_js_debugger.Cdp.{Handler, string_or, int_or}
use quick_js_debugger.Cdp.Requests.{
  strip_file_url, requested_url, on_debugger_set_breakpoint_by_url, on_debugger_remove_breakpoint,
}

-- No byte is a backslash.
abbrev IsNormal : Bytes → Type 0
IsNormal = All (λ c. (c == b'\\') ≡ false)

normalize_url-IsNormal : (s : Bytes) → IsNormal (normalize_url s)
unfolding normalize_url
normalize_url-IsNormal [] = tt
normalize_url-IsNormal (c ∷ s) = (ground arith, normalize_url-IsNormal s)

normalize_url_normal : (s : Bytes) → IsNormal s → normalize_url s ≡ s
unfolding normalize_url
normalize_url_normal [] h = refl
normalize_url_normal (c ∷ s) h = ground (arith, normalize_url_normal s h.1)

IsNormal-suffix : (a b : Bytes) → IsNormal (a ++ b) → IsNormal b
IsNormal-suffix [] b h = h
IsNormal-suffix (c ∷ a) b h = IsNormal-suffix a b h.1

-- `t` is a suffix of `s`.
abbrev IsEnd : Bytes → Bytes → Type 0
IsEnd t s = (a : Bytes) × (s ≡ a ++ t)

drop-IsEnd : (n : ℕ) (s : Bytes) → IsEnd (drop n s) s
drop-IsEnd n s = (take n s, sym (take-append-drop n s))

strip_file_url-IsEnd : (s : Bytes) → IsEnd (strip_file_url s) s
unfolding strip_file_url
strip_file_url-IsEnd s = elim (Bool-cases (starts_with (codes "file:///") s)) [
  | inl a ↦ rw a (drop-IsEnd 8 s)
  | inr a ↦ elim (Bool-cases (starts_with (codes "file://") s)) [
    | inl b ↦ rw (a, b) (drop-IsEnd 7 s)
    | inr b ↦ rw (a, b) ([], refl)
  ]
]

-- What is stripped from a URL that was made of an absolute path.
strip_prefix :
    (s : Bytes)
    → IsEnd (strip_file_url (codes "file://" ++ (if not (first_is b'/' s) then b'/' ∷ s else s))) s
unfolding strip_file_url starts_with
strip_prefix [] = ([], refl)
strip_prefix (c ∷ s) = elim (Bool-cases (c == b'/')) [
  | inl e ↦
      let slash : b'/' ≡ c = ground arith in
      subst
        (λ x.
          IsEnd
            (strip_file_url
              (codes "file://" ++ (if not (first_is b'/' (x ∷ s)) then b'/' ∷ x ∷ s else x ∷ s)))
            (x ∷ s))
        slash (b'/' ∷ [], refl)
  | inr e ↦ rw e ([], refl)
]

announced-IsEnd : (s : Bytes) → IsNormal s → IsEnd (strip_file_url (to_file_url s)) s
unfolding to_file_url
announced-IsEnd s normal = elim (Bool-cases (starts_with (codes "file://") s)) [
  | inl a ↦ rw (normalize_url_normal s normal, a) (strip_file_url-IsEnd s)
  | inr a ↦ elim (Bool-cases (is_absolute s)) [
    | inl b ↦ rw (normalize_url_normal s normal, a, b) (strip_prefix s)
    | inr b ↦ rw (normalize_url_normal s normal, a, b) (strip_file_url-IsEnd s)
  ]
]

-- A client that asks for the url that was announced for a path sets a breakpoint on an end of it.
announced-normal :
    (file : Bytes)
    → IsEnd (normalize_url (strip_file_url (to_file_url (normalize_url file)))) (normalize_url file)
announced-normal file =
    let normal = normalize_url-IsNormal file in
    let (a, e) = announced-IsEnd (normalize_url file) normal in
    let end_normal = IsNormal-suffix a _ (subst IsNormal e normal) in
    (a, e ∙ ap (◌++◌ a) (sym (normalize_url_normal _ end_normal)))

module _ (pf : Platform) {N : Type 0} ⦃fl : Floats N⦄ (h : Handler N) (params : Value N) where
  -- A breakpoint that is requested by the URL under which a file was announced, with or without a
  -- condition, is hit at the line of that file that was asked for, while breakpoints are on.
  pub check-on_debugger_set_breakpoint_by_url :
      (file : Bytes)
      → h.session.bp_active ≡ true
      → has params (codes "url") ≡ true
      → get_string (at params (codes "url")) ≡ to_file_url (normalize_url file)
      → check_breakpoint pf
          (on_debugger_set_breakpoint_by_url pf h params).handler.session
          file
          (int_or (pos 0) params (codes "lineNumber") +ℤ pos 1)
        ≡ true
  unfolding on_debugger_set_breakpoint_by_url requested_url
  check-on_debugger_set_breakpoint_by_url file on given url =
      let (a, e) = announced-normal file in
      rw (given, url)
        (check-set_breakpoint pf h.session file (strip_file_url (to_file_url (normalize_url file)))
          a [] (string_or [] params (codes "condition"))
          (int_or (pos 0) params (codes "lineNumber"))
          (int_or (pos 0) params (codes "columnNumber")) on (e ∙ ap (◌++◌ a) (sym (append-nil _))))

  set_breakpoint_by_url-id :
      (s : Session N) (url : Bytes) (line column : ℤ) (is_regex : Bool) (condition : Bytes)
      → at (set_breakpoint_by_url pf s url line column is_regex condition).1 (codes "breakpointId")
        ≡ string (breakpoint_id s.next_bp_id line)
  unfolding set_breakpoint_by_url new_breakpoint at set_all lookup compare_bytes equal
  set_breakpoint_by_url-id s url line column is_regex condition = refl

  -- In a numbered table whose next id fits an int, removing the breakpoint that the answer to a
  -- request names undoes that request, whatever it asked for: only the next id is one higher.
  pub on_debugger_remove_breakpoint-on_debugger_set_breakpoint_by_url :
      (params' : Value N)
      → IsNumbered h.session
      → h.session.next_bp_id ≤ 2147483647
      → has params' (codes "breakpointId") ≡ true
      → at params' (codes "breakpointId")
        ≡ at (on_debugger_set_breakpoint_by_url pf h params).result (codes "breakpointId")
      → (on_debugger_remove_breakpoint
          (on_debugger_set_breakpoint_by_url pf h params).handler
          params').handler
        ≡ record h { session = record h.session { next_bp_id = suc h.session.next_bp_id } }
  unfolding on_debugger_set_breakpoint_by_url on_debugger_remove_breakpoint
  on_debugger_remove_breakpoint-on_debugger_set_breakpoint_by_url params' v small given id =
      let (url, is_regex) = requested_url params in
      let line = int_or (pos 0) params (codes "lineNumber") in
      let column = int_or (pos 0) params (codes "columnNumber") in
      let condition = string_or [] params (codes "condition") in
      rw (
        given,
        id,
        set_breakpoint_by_url-id h.session url line column is_regex condition,
        remove-set_breakpoint pf h.session url line column is_regex condition v small,
      )
