-- ===== src/Session/Breakpoints/Ids.antt =====
-- The table of breakpoints: its ids rise, stay below the next one, and name what was set.
use quick_js_debugger.Prelude.{
  ℕ, suc, ◌≤◌, ◌<◌, ◌≡◌, refl, sym, ap, ◌∙◌, Bool, true, List, [], ◌∷◌, ◌++◌, none, some, arith,
}
use quick_js_debugger.Prelude.Int.{ℤ, pos}
use quick_js_debugger.Text.Bytes.{Bytes}
use quick_js_debugger.Text.Decimal.{
  stoi, stoi-nat_to_string, read_digits, read_digits-nat_to_string,
}
use quick_js_debugger.Json.Floats.{Floats}
use quick_js_debugger.Session.Paths.{Platform}
use quick_js_debugger.Session.Breakpoints.{
  put, erase, breakpoint_id, new_breakpoint, set_breakpoint_by_url, remove_breakpoint, erase_parsed,
}
use quick_js_debugger.Session.State.{Breakpoint, Session}

-- Keys that rise strictly between two bounds, each the id of its breakpoint.
abbrev pub Between : ℕ → ℕ → List (ℕ × Breakpoint) → Type 0
Between lo hi [] = Unit {0}
Between lo hi ((j, bp) ∷ bps) = (lo < j) × (j < hi) × (bp.id ≡ j) × Between j hi bps

-- Ids are positive, distinct and below the next one.
pub record IsNumbered {N : Type 0} (s : Session N) : Type 0 where
  pub next_pos : 0 < s.next_bp_id
  pub between : Between 0 s.next_bp_id s.breakpoints

Between-wider :
    (lo lo' hi hi' : ℕ) (bps : List (ℕ × Breakpoint))
    → lo' ≤ lo
    → hi ≤ hi'
    → Between lo hi bps
    → Between lo' hi' bps
Between-wider lo lo' hi hi' [] h k b = tt
Between-wider lo lo' hi hi' ((j, bp) ∷ bps) h k b =
    (omega arith, omega arith, b.2, Between-wider j j hi hi' bps (omega arith) k b.3)

-- A new id goes to the end.
put_last :
    (lo hi : ℕ) (bp : Breakpoint) (bps : List (ℕ × Breakpoint))
    → Between lo hi bps
    → put hi bp bps ≡ bps ++ (hi, bp) ∷ []
unfolding put
put_last lo hi bp [] b = refl
put_last lo hi bp ((j, other) ∷ bps) b = ground (arith, put_last j hi bp bps b.3)

Between-concat :
    (lo hi : ℕ) (bp : Breakpoint) (bps : List (ℕ × Breakpoint))
    → lo < hi
    → bp.id ≡ hi
    → Between lo hi bps
    → Between lo (suc hi) (bps ++ (hi, bp) ∷ [])
Between-concat lo hi bp [] h e b = (h, omega arith, e, tt)
Between-concat lo hi bp ((j, other) ∷ bps) h e b =
    (b.0, omega arith, b.2, Between-concat j hi bp bps b.1 e b.3)

erase_last :
    (lo hi : ℕ) (bp : Breakpoint) (bps : List (ℕ × Breakpoint))
    → Between lo hi bps
    → erase (pos hi) (bps ++ (hi, bp) ∷ []) ≡ (bps, true)
unfolding erase
erase_last lo hi bp [] b = ground arith
erase_last lo hi bp ((j, other) ∷ bps) b = ground (arith, erase_last j hi bp bps b.3)

erase-Between :
    (lo hi : ℕ) (id : ℤ) (bps : List (ℕ × Breakpoint))
    → Between lo hi bps
    → Between lo hi (erase id bps).0
unfolding erase
erase-Between lo hi id [] b = tt
erase-Between lo hi id ((j, bp) ∷ bps) b =
    ground (arith, erase-Between j hi id bps b.3, Between-wider j lo hi hi bps)

stoi-breakpoint_id :
    (n : ℕ) (line : ℤ) → n ≤ 2147483647 → stoi (breakpoint_id n line) ≡ some (pos n)
unfolding breakpoint_id
stoi-breakpoint_id n line h = stoi-nat_to_string n _ refl h

-- Breakpoints with different ids are named differently.
pub breakpoint_id-injective :
    (m n : ℕ) (line line' : ℤ) → breakpoint_id m line ≡ breakpoint_id n line' → m ≡ n
unfolding breakpoint_id
breakpoint_id-injective m n line line' e =
    sym (read_digits-nat_to_string m _ refl)
    ∙ ap (read_digits 0) e
    ∙ read_digits-nat_to_string n _ refl

module _ (pf : Platform) {N : Type 0} ⦃fl : Floats N⦄ (s : Session N) where
  -- Setting a breakpoint keeps a numbered table numbered: ids are positive, distinct, in order and
  -- below the next one.
  pub set_breakpoint_by_url-IsNumbered :
      (url : Bytes) (line column : ℤ) (is_regex : Bool) (condition : Bytes)
      → IsNumbered s
      → IsNumbered (set_breakpoint_by_url pf s url line column is_regex condition).0
  unfolding set_breakpoint_by_url new_breakpoint
  set_breakpoint_by_url-IsNumbered url line column is_regex condition v = record {
    next_pos = omega arith;
    between =
        rw (put_last 0 s.next_bp_id bp s.breakpoints v.between)
          (Between-concat 0 s.next_bp_id bp s.breakpoints v.next_pos refl v.between);
  }
    where
      bp : Breakpoint
      bp = new_breakpoint s.next_bp_id url line column is_regex condition

  -- Removing a breakpoint keeps a numbered table numbered, whatever text names the breakpoint.
  pub remove_breakpoint-IsNumbered :
      (id : Bytes) → IsNumbered s → IsNumbered (remove_breakpoint s id).0
  unfolding remove_breakpoint
  remove_breakpoint-IsNumbered id v = elim (stoi id) as (λ o. IsNumbered (erase_parsed s o).0) [
    | none ↦ v
    | some n ↦ record {
      next_pos = v.next_pos;
      between = erase-Between 0 s.next_bp_id n s.breakpoints v.between;
    }
  ]

  -- Nothing else changes.
  pub remove_breakpoint_others :
      (id : Bytes)
      → record s { breakpoints = (remove_breakpoint s id).0.breakpoints }
        ≡ (remove_breakpoint s id).0
  unfolding remove_breakpoint
  remove_breakpoint_others id =
      elim (stoi id)
        as (λ o.
          record s { breakpoints = (erase_parsed s o).0.breakpoints } ≡ (erase_parsed s o).0) [
            | none ↦ refl
            | some n ↦ refl
          ]

  -- In a numbered table whose next id fits an int, the id that a new breakpoint is given removes it
  -- again: the session is what it was, but for the next id.
  pub remove-set_breakpoint :
      (url : Bytes) (line column : ℤ) (is_regex : Bool) (condition : Bytes)
      → IsNumbered s
      → s.next_bp_id ≤ 2147483647
      → remove_breakpoint
          (set_breakpoint_by_url pf s url line column is_regex condition).0
          (breakpoint_id s.next_bp_id line)
        ≡ (record s { next_bp_id = suc s.next_bp_id }, true)
  unfolding remove_breakpoint set_breakpoint_by_url new_breakpoint
  remove-set_breakpoint url line column is_regex condition v small = rw (
    stoi-breakpoint_id s.next_bp_id line small,
    put_last 0 s.next_bp_id bp s.breakpoints v.between,
    erase_last 0 s.next_bp_id bp s.breakpoints v.between,
  )
    where
      bp : Breakpoint
      bp = new_breakpoint s.next_bp_id url line column is_regex condition
