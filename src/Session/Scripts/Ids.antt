-- ===== src/Session/Scripts/Ids.antt =====
-- The registry of scripts: an id names one script, and goes on naming it.
use quick_js_debugger.Prelude.{
  ℕ, suc, ◌<◌, ◌≡◌, ◌≢◌, refl, List, [], ◌∷◌, ◌++◌, some, All, All-append, arith,
}
use quick_js_debugger.Text.Bytes.{Bytes, equal_iff}
use quick_js_debugger.Text.Decimal.{nat_to_string, nat_to_string-injective}
use quick_js_debugger.Json.Floats.{Floats}
use quick_js_debugger.Session.Scripts.{new_script, add_script, get_script_by_id}
use quick_js_debugger.Session.State.{ScriptInfo, Session}

-- A script whose id is a number below `n`.
abbrev pub HasIdBelow : ℕ → ScriptInfo → Type 0
HasIdBelow n si = (k : ℕ) × (k < n) × (si.id ≡ nat_to_string k)

-- Every script's id was taken from the counter.
abbrev pub IsRegistered : {N : Type 0} → Session N → Type 0
IsRegistered s = All (HasIdBelow s.next_script_id) s.scripts

HasIdBelow-suc :
    (n : ℕ) (sis : List ScriptInfo) → All (HasIdBelow n) sis → All (HasIdBelow (suc n)) sis
HasIdBelow-suc n [] h = tt
HasIdBelow-suc n (si ∷ sis) ((k, lt, e), h) = ((k, omega arith, e), HasIdBelow-suc n sis h)

-- Behind scripts with other ids, the last one is found.
get_script_by_id_last :
    (n : ℕ) (sis : List ScriptInfo) (si : ScriptInfo)
    → si.id ≡ nat_to_string n
    → All (HasIdBelow n) sis
    → get_script_by_id (sis ++ si ∷ []) (nat_to_string n) ≡ some si
unfolding get_script_by_id
get_script_by_id_last n [] si id h = ground (arith, equal_iff si.id (nat_to_string n))
get_script_by_id_last n (other ∷ sis) si id ((k, lt, e), h) = ground (
  arith,
  equal_iff other.id (nat_to_string n),
  nat_to_string-injective k n,
  get_script_by_id_last n sis si id h,
)

get_script_by_id_other :
    (sis : List ScriptInfo) (si : ScriptInfo) (j : Bytes)
    → si.id ≢ j
    → get_script_by_id (sis ++ si ∷ []) j ≡ get_script_by_id sis j
unfolding get_script_by_id
get_script_by_id_other [] si j h = ground (arith, equal_iff si.id j)
get_script_by_id_other (other ∷ sis) si j h = ground (arith, get_script_by_id_other sis si j h)

module _ {N : Type 0} ⦃fl : Floats N⦄ (s : Session N) (url source : Bytes) where
  -- Adding a script keeps the registry in order: every script's id is a number below the next one.
  pub add_script-IsRegistered : IsRegistered s → IsRegistered (add_script s url source).0
  unfolding add_script new_script
  add_script-IsRegistered h =
      All-append (HasIdBelow (suc s.next_script_id)) s.scripts
        (new_script s.next_script_id url source ∷ []) ((s.next_script_id, omega arith, refl), tt)
        (HasIdBelow-suc s.next_script_id s.scripts h)

  -- In a registry in order, the id that `add_script` returns finds the script that was added, source
  -- and all, and every other id finds what it found before.
  pub get_script_by_id-add_script :
      IsRegistered s
      → (get_script_by_id (add_script s url source).0.scripts (add_script s url source).1
          ≡ some (new_script s.next_script_id url source))
        × ((j : Bytes)
            → (add_script s url source).1 ≢ j
            → get_script_by_id (add_script s url source).0.scripts j ≡ get_script_by_id s.scripts j)
  unfolding add_script new_script
  get_script_by_id-add_script h =
      let si = new_script s.next_script_id url source in
      (
        get_script_by_id_last s.next_script_id s.scripts si refl h,
        λ j other. get_script_by_id_other s.scripts si j other,
      )
