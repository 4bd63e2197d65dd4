-- ===== src/Session/Scripts.antt =====
-- Script management of debug_session.cpp: `add_script`, the lookups by id and by file name, and the
-- source map comment.
pub mod Ids
pub mod Files
use quick_js_debugger.Prelude.{
  ℕ, suc, ◌+◌, ◌-◌, ◌%◌, ◌^◌, Bool, true, false, ◌&&◌, ◌||◌, List, [], ◌∷◌, ◌++◌, Option, none,
  some, not, ltb, ◌==◌, if◌then◌else◌, length, drop, take,
}
use quick_js_debugger.Prelude.Int.{ℤ, pos, negsuc}
use quick_js_debugger.Text.Bytes.{Bytes, codes, equal, is_empty, is_space}
use quick_js_debugger.Text.Search.{find_from?, find_first?}
use quick_js_debugger.Text.Decimal.{nat_to_string}
use quick_js_debugger.Json.Floats.{Floats}
use quick_js_debugger.Json.Value.{Value, bool, string, object_of, int}
use quick_js_debugger.Session.Paths.{Platform, normalize_url, to_file_url, paths_match, basename}
use quick_js_debugger.Session.State.{ScriptInfo, Session, Event}

-- `while (end > pos && std::isspace(source[end - 1])) end--`.
trim_end : Bytes → Bytes
trim_end [] = []
trim_end (c ∷ s) = let rest = trim_end s in if is_empty rest && is_space c then [] else c ∷ rest

-- Up to the first of "\r\n".
take_line : Bytes → Bytes
take_line s = elim (find_first? (λ c. c == 13 || c == 10) s) [ none ↦ s | some i ↦ take i s ]

url_behind : Bytes → ℕ → Bytes
unfolding trim_end take_line
url_behind source at = trim_end (take_line (drop (at + 21) source))

unfoldable pub extract_source_map_url : Bytes → Bytes
unfolding url_behind
extract_source_map_url source =
    let start = if ltb 4096 (length source) then length source - 4096 else 0 in
    elim (find_from? (codes "//# sourceMappingURL=") source start) [
      | some at ↦ url_behind source at
      | none ↦ elim (find_from? (codes "//@ sourceMappingURL=") source start) [
        | some at ↦ url_behind source at
        | none ↦ []
      ]
    ]

-- One more than the newlines.
unfoldable pub count_lines : Bytes → ℕ
count_lines [] = 1
count_lines (c ∷ s) = if c == 10 then suc (count_lines s) else count_lines s

-- `(int)n` of a size_t: the low 32 bits, read as a signed number.
abbrev pub int_of_size : ℕ → ℤ
int_of_size n =
    let low = n % 2 ^ 32 in if ltb low (2 ^ 31) then pos low else negsuc (2 ^ 32 - low - 1)

unfoldable pub new_script : ℕ → Bytes → Bytes → ScriptInfo
new_script n url source = record {
  id = nat_to_string n;
  url = normalize_url url;
  source = source;
  source_map_url = extract_source_map_url source;
  end_line = count_lines source;
}

module _ {N : Type 0} ⦃fl : Floats N⦄ where
  -- The parameters of `Debugger.scriptParsed`, which cdp_handler.cpp builds in the same way.
  unfoldable pub script_parsed : ScriptInfo → Event N
  script_parsed si = record {
    method = codes "Debugger.scriptParsed";
    params = object_of (
        (codes "scriptId", string si.id)
        ∷ (codes "url", string (to_file_url si.url))
        ∷ (codes "startLine", int (pos 0))
        ∷ (codes "startColumn", int (pos 0))
        ∷ (codes "endLine", int (pos si.end_line))
        ∷ (codes "endColumn", int (pos 0))
        ∷ (codes "executionContextId", int (pos 1))
        ∷ (codes "hash", string [])
        ∷ (codes "isLiveEdit", bool false)
        ∷ (codes "sourceMapURL", string si.source_map_url)
        ∷ (codes "hasSourceURL", bool false)
        ∷ (codes "isModule", bool false)
        ∷ (codes "length", int (int_of_size (length si.source)))
        ∷ []);
  }

  -- The new session, the id that is returned, and the event, if one is sent.
  unfoldable pub add_script : Session N → Bytes → Bytes → Session N × Bytes × List (Event N)
  unfolding new_script
  add_script s url source =
      let info = new_script s.next_script_id url source in
      (
        record s { scripts = s.scripts ++ info ∷ []; next_script_id = suc s.next_script_id },
        info.id,
        (if s.enabled && s.send_event then script_parsed info ∷ [] else []),
      )

-- `get_script_by_id`; null is `none`.
unfoldable pub get_script_by_id : List ScriptInfo → Bytes → Option ScriptInfo
get_script_by_id [] id = none
get_script_by_id (s ∷ scripts) id = if equal s.id id then some s else get_script_by_id scripts id

module _ (pf : Platform) where
  -- A script is a file's by its path, or by a base name that is not empty.
  unfoldable pub is_script_of : Bytes → ScriptInfo → Bool
  is_script_of norm s =
      paths_match pf s.url norm
      || (paths_match pf (basename s.url) (basename norm) && not (is_empty (basename s.url)))

  find_script : Bytes → List ScriptInfo → Bytes
  find_script norm [] = codes "0"
  find_script norm (s ∷ scripts) = if is_script_of norm s then s.id else find_script norm scripts

  unfoldable pub find_script_id : List ScriptInfo → Bytes → Bytes
  unfolding find_script
  find_script_id scripts filename = find_script (normalize_url filename) scripts
