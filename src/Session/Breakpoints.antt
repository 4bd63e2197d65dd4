-- ===== src/Session/Breakpoints.antt =====
-- Breakpoint management of debug_session.cpp. Each operation holds `bp_mutex_` throughout.
pub mod Ids
pub mod Hits
use Prim.Native.Nat.{compare, Ordering}
use quick_js_debugger.Prelude.{
  ℕ, suc, ◌+◌, Bool, true, false, ◌&&◌, ◌||◌, List, [], ◌∷◌, ◌++◌, Option, none, some, not, ◌==◌,
  if◌then◌else◌,
}
use quick_js_debugger.Prelude.Int.{ℤ, pos, negsuc, ◌+ℤ◌, ◌==ℤ◌}
use quick_js_debugger.Text.Bytes.{Bytes, codes, is_empty, to_lower}
use quick_js_debugger.Text.Search.{contains}
use quick_js_debugger.Text.Decimal.{nat_to_string, to_string, stoi}
use quick_js_debugger.Json.Floats.{Floats}
use quick_js_debugger.Json.Value.{Value, string, object_of, int, array, nil, push}
use quick_js_debugger.Session.Paths.{
  Platform, normalize_url, to_file_url, paths_match, basename, plain_match, regex_match,
}
use quick_js_debugger.Session.State.{ScriptInfo, Breakpoint, Session}

-- `breakpoints_[id] = bp`.
unfoldable pub put : ℕ → Breakpoint → List (ℕ × Breakpoint) → List (ℕ × Breakpoint)
put id bp [] = (id, bp) ∷ []
put id bp ((j, other) ∷ bps) = elim (compare id j) [
  | Ordering.lt ↦ (id, bp) ∷ (j, other) ∷ bps
  | Ordering.eq ↦ (id, bp) ∷ bps
  | Ordering.gt ↦ (j, other) ∷ put id bp bps
]

-- `breakpoints_.erase(id)`, and whether it erased one. The keys are not negative.
unfoldable pub erase : ℤ → List (ℕ × Breakpoint) → List (ℕ × Breakpoint) × Bool
erase id [] = ([], false)
erase id ((j, bp) ∷ bps) =
    let (rest, erased) = erase id bps in
    if id ==ℤ pos j then (bps, true) else ((j, bp) ∷ rest, erased)

-- The text that names a breakpoint to the client.
unfoldable pub breakpoint_id : ℕ → ℤ → Bytes
breakpoint_id id line = nat_to_string id ++ (b':' ∷ (to_string line ++ codes ":0"))

unfoldable pub new_breakpoint : ℕ → Bytes → ℤ → ℤ → Bool → Bytes → Breakpoint
new_breakpoint id url line column is_regex condition = record {
  id = id;
  url = if is_regex then url else normalize_url url;
  line = line +ℤ pos 1;
  column = column;
  enabled = true;
  is_regex = is_regex;
  condition = condition;
}

module _ (pf : Platform) where
  -- The test of the loop over the scripts in `set_breakpoint_by_url`.
  unfoldable pub script_has : Bool → Bytes → ScriptInfo → Bool
  script_has is_regex url s =
      (is_regex && regex_match pf url (to_file_url s.url) s.url)
      || paths_match pf s.url url
      || contains (to_lower url) (to_lower s.url)
      || contains (to_lower s.url) (to_lower url)
      || (paths_match pf (basename s.url) (basename url) && not (is_empty (basename s.url)))

  unfoldable pub resolve_script : Bool → Bytes → List ScriptInfo → Bytes
  resolve_script is_regex url [] = []
  resolve_script is_regex url (s ∷ scripts) =
      if script_has is_regex url s then s.id else resolve_script is_regex url scripts

  module _ {N : Type 0} ⦃fl : Floats N⦄ where
    unfoldable pub set_breakpoint_by_url :
        Session N → Bytes → ℤ → ℤ → Bool → Bytes → Session N × Value N
    set_breakpoint_by_url s url line column is_regex condition =
        let bp = new_breakpoint s.next_bp_id url line column is_regex condition in
        let script_id = resolve_script is_regex bp.url s.scripts in
        let location = object_of (
          (codes "scriptId", string (if is_empty script_id then codes "0" else script_id))
          ∷ (codes "lineNumber", int line)
          ∷ (codes "columnNumber", int column)
          ∷ []) in
        (
          record s { breakpoints = put bp.id bp s.breakpoints; next_bp_id = suc s.next_bp_id },
          object_of (
              (codes "breakpointId", string (breakpoint_id bp.id line))
              ∷ (codes "locations", push (array nil) location)
              ∷ []),
        )

module _ {N : Type 0} where
  erase_parsed : Session N → Option ℤ → Session N × Bool
  erase_parsed s none = (s, false)
  erase_parsed s (some id) =
      let (bps, erased) = erase id s.breakpoints in (record s { breakpoints = bps }, erased)

  unfoldable pub remove_breakpoint : Session N → Bytes → Session N × Bool
  unfolding erase_parsed
  remove_breakpoint s bp_id = erase_parsed s (stoi bp_id)

  unfoldable pub set_breakpoints_active : Session N → Bool → Session N
  set_breakpoints_active s active = record s { bp_active = active }

module _ (pf : Platform) where
  -- The test of the loop in `check_breakpoint`: a breakpoint is hit at a line of a file, given by its
  -- path and by its URL.
  unfoldable pub hits : Bytes → Bytes → ℤ → Breakpoint → Bool
  hits norm url line bp =
      bp.enabled
      && bp.line ==ℤ line
      && ((bp.is_regex && regex_match pf bp.url url norm) || plain_match pf norm bp.url)

  pub any_hit : Bytes → Bytes → ℤ → List (ℕ × Breakpoint) → Bool
  any_hit norm url line [] = false
  any_hit norm url line ((id, bp) ∷ bps) = hits norm url line bp || any_hit norm url line bps

  -- The test of the second loop, in `debug_trace_handler`, which is written out there once more.
  unfoldable pub named_hit : Bytes → Bytes → ℤ → Breakpoint → Bool
  named_hit norm url line bp =
      if bp.line ==ℤ line && bp.enabled
      then (if bp.is_regex && regex_match pf bp.url url norm
          then true
          else paths_match pf norm bp.url
            || paths_match pf (basename norm) (basename bp.url)
            || contains (to_lower bp.url) (to_lower norm)
            || contains (to_lower norm) (to_lower bp.url))
      else false

  -- That loop: the id and the condition of the first hit.
  pub first_hit : Bytes → Bytes → ℤ → List (ℕ × Breakpoint) → ℕ × Bytes
  first_hit norm url line [] = (0, [])
  first_hit norm url line ((id, bp) ∷ bps) =
      if named_hit norm url line bp then (id, bp.condition) else first_hit norm url line bps

  module _ {N : Type 0} where
    unfoldable pub check_breakpoint : Session N → Bytes → ℤ → Bool
    unfolding any_hit
    check_breakpoint s filename line =
        if not s.bp_active
        then false
        else let norm = normalize_url filename in any_hit norm (to_file_url norm) line s.breakpoints

    unfoldable pub find_breakpoint : Session N → Bytes → ℤ → ℕ × Bytes
    unfolding first_hit
    find_breakpoint s filename line =
        let norm = normalize_url filename in first_hit norm (to_file_url norm) line s.breakpoints
