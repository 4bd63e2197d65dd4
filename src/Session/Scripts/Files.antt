-- ===== src/Session/Scripts/Files.antt =====
-- Which script a running file is taken for: `find_script_id` against the scripts that were added.
use mathlib.Core.Path.{subst}
use quick_js_debugger.Prelude.{
  ap, append_assoc, ℕ, ◌≡◌, ◌≢◌, ◌⊎◌, inl, inr, refl, sym, ◌∙◌, true, false, List, [], ◌∷◌, ◌++◌,
  arith, All, Bool-cases,
}
use quick_js_debugger.Text.Bytes.{Bytes, equal_iff, to_lower}
use quick_js_debugger.Text.Decimal.{nat_to_string, nat_to_string-injective}
use quick_js_debugger.Json.Floats.{Floats}
use quick_js_debugger.Session.Paths.{Platform, normalize_url, paths_match}
use quick_js_debugger.Session.Scripts.{
  new_script, add_script, is_script_of, find_script, find_script_id,
}
use quick_js_debugger.Session.Scripts.Ids.{IsRegistered, HasIdBelow}
use quick_js_debugger.Session.State.{ScriptInfo, Session}

module _ (pf : Platform) where
  -- No script is taken for the file.
  abbrev pub AllOther : Bytes → List ScriptInfo → Type 0
  AllOther norm = All (λ si. is_script_of pf norm si ≡ false)

  paths_match_self : (s : Bytes) → paths_match pf s s ≡ true
  unfolding paths_match
  paths_match_self s = ground (arith, equal_iff s s, equal_iff (to_lower s) (to_lower s))

  is_script_of_self :
      (n : ℕ) (url source : Bytes)
      → is_script_of pf (normalize_url url) (new_script n url source) ≡ true
  unfolding is_script_of new_script
  is_script_of_self n url source = ground (arith, paths_match_self (normalize_url url))

  -- Of a list of scripts, the first one that is taken for the file.
  pub record FirstOf (norm : Bytes) (sis : List ScriptInfo) (first : ScriptInfo) : Type 0 where
    pub before : List ScriptInfo
    pub after : List ScriptInfo
    pub parts : sis ≡ before ++ first ∷ after
    pub others : AllOther norm before
    pub own : is_script_of pf norm first ≡ true

  find_script-FirstOf :
      (norm : Bytes) (before after : List ScriptInfo) (si : ScriptInfo)
      → AllOther norm before
      → is_script_of pf norm si ≡ true
      → find_script pf norm (before ++ si ∷ after) ≡ si.id
  unfolding find_script
  find_script-FirstOf norm [] after si others own = rw own refl
  find_script-FirstOf norm (other ∷ before) after si (miss, others) own =
      rw miss (find_script-FirstOf norm before after si others own)

  -- Either all scripts are of other files, or there is a first one of the file.
  first-cases :
      (norm : Bytes) (sis : List ScriptInfo)
      → AllOther norm sis ⊎ ((first : ScriptInfo) × FirstOf norm sis first)
  first-cases norm [] = inl tt
  first-cases norm (si ∷ sis) = elim (Bool-cases (is_script_of pf norm si)) [
    | inl hit ↦ inr (si, record { before = []; after = sis; parts = refl; others = tt; own = hit })
    | inr miss ↦ elim (first-cases norm sis) [
      | inl others ↦ inl (miss, others)
      | inr (first, f) ↦ inr (
        first,
        record {
          before = si ∷ f.before;
          after = f.after;
          parts = ap (◌∷◌ si) f.parts;
          others = (miss, f.others);
          own = f.own;
        },
      )
    ]
  ]

HasIdBelow-middle :
    (n : ℕ) (before after : List ScriptInfo) (si : ScriptInfo)
    → All (HasIdBelow n) (before ++ si ∷ after)
    → HasIdBelow n si
HasIdBelow-middle n [] after si (below, _) = below
HasIdBelow-middle n (other ∷ before) after si (_, below) = HasIdBelow-middle n before after si below

module _ (pf : Platform) {N : Type 0} ⦃fl : Floats N⦄ (s : Session N) (url source : Bytes) where
  -- In a registry in order, the file of a script that has been added is taken for that script if no
  -- earlier one has its path or its base name; otherwise it is taken for the first of the earlier ones
  -- that has, whose id is another one.
  pub find_script_id-add_script :
      IsRegistered s
      → let (s', id, events) = add_script s url source in
        (AllOther pf (normalize_url url) s.scripts × (find_script_id pf s'.scripts url ≡ id))
        ⊎ ((first : ScriptInfo) × FirstOf pf (normalize_url url) s.scripts first
            × (find_script_id pf s'.scripts url ≡ first.id)
            × (first.id ≢ id))
  unfolding find_script_id add_script
  find_script_id-add_script registered =
      let norm = normalize_url url in
      let n = s.next_script_id in
      let si = new_script n url source in
      let own = is_script_of_self pf n url source in
      let new_id : si.id ≡ nat_to_string n = unfold new_script in refl in
      elim (first-cases pf norm s.scripts) [
        | inl others ↦ inl (others, find_script-FirstOf pf norm s.scripts [] si others own ∙ new_id)
        | inr (first, f) ↦
            let (k, lt, e) =
              HasIdBelow-middle n f.before f.after first
                (subst (All (HasIdBelow n)) f.parts registered) in
            inr (
              first,
              f,
              ap (find_script pf norm) (
                    ap (λ l. l ++ si ∷ []) f.parts
                    ∙ append_assoc f.before (first ∷ f.after) (si ∷ []))
                  ∙ find_script-FirstOf pf norm f.before (f.after ++ si ∷ []) first f.others f.own,
              λ same. omega (arith, lt, nat_to_string-injective k n (sym e ∙ same)),
            )
      ]
