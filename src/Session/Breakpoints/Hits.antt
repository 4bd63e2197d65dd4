-- ===== src/Session/Breakpoints/Hits.antt =====
-- Where a breakpoint is hit: the two loops of the source agree, and a breakpoint on a file, or on
-- any part of its path, is hit in that file.
use mathlib.Core.List.{map-append}
use quick_js_debugger.Prelude.{
  ℕ, ◌≡◌, ◌⊎◌, inl, inr, refl, ap, Bool, true, false, List, [], ◌∷◌, ◌++◌, arith, All, Bool-cases,
}
use quick_js_debugger.Prelude.Int.{ℤ, pos, ◌+ℤ◌}
use quick_js_debugger.Text.Bytes.{Bytes, to_lower}
use quick_js_debugger.Text.Search.{contains, contains-append}
use quick_js_debugger.Json.Floats.{Floats}
use quick_js_debugger.Session.Breakpoints.{
  put, new_breakpoint, set_breakpoint_by_url, named_hit, hits, any_hit, first_hit, check_breakpoint,
  find_breakpoint,
}
use quick_js_debugger.Session.Paths.{Platform, normalize_url, to_file_url, plain_match}
use quick_js_debugger.Session.State.{Breakpoint, Session}

-- The test of both loops, at a file that is being run.
abbrev pub HitAt : Platform → Bytes → ℤ → Breakpoint → Bool → Type 0
HitAt pf file line bp b =
    hits pf (normalize_url file) (to_file_url (normalize_url file)) line bp ≡ b

abbrev pub AllMiss : Platform → Bytes → ℤ → List (ℕ × Breakpoint) → Type 0
AllMiss pf file line = All (λ (id, bp). HitAt pf file line bp false)

-- `bp` is the first breakpoint of the table that is hit.
pub record FirstHit (pf : Platform) (file : Bytes) (line : ℤ) (bps : List (ℕ × Breakpoint)) (id : ℕ)
    (bp : Breakpoint) : Type 0 where
  pub before : List (ℕ × Breakpoint)
  pub after : List (ℕ × Breakpoint)
  pub splits : bps ≡ before ++ (id, bp) ∷ after
  pub misses : AllMiss pf file line before
  pub hit : HitAt pf file line bp true

-- The two tests agree.
named_hit-hits :
    (pf : Platform) (norm url : Bytes) (line : ℤ) (bp : Breakpoint)
    → named_hit pf norm url line bp ≡ hits pf norm url line bp
unfolding named_hit hits plain_match
named_hit-hits pf norm url line bp = ground arith

module _ (pf : Platform) (file : Bytes) (line : ℤ) where
  abbrev norm : Bytes
  norm = normalize_url file

  abbrev Searched : List (ℕ × Breakpoint) → Type 0
  Searched bps =
      ((any_hit pf norm (to_file_url norm) line bps ≡ true)
        × ((id : ℕ) × (bp : Breakpoint) × FirstHit pf file line bps id bp
            × (first_hit pf norm (to_file_url norm) line bps ≡ (id, bp.condition))))
      ⊎ ((any_hit pf norm (to_file_url norm) line bps ≡ false) × AllMiss pf file line bps)

  searched : (bps : List (ℕ × Breakpoint)) → Searched bps
  unfolding any_hit first_hit
  searched [] = inr (refl, tt)
  searched ((id, bp) ∷ bps) = elim (Bool-cases (hits pf norm (to_file_url norm) line bp)) [
    | inl hit ↦ inl (
      rw (hit, any_hit) refl,
      (
        id,
        bp,
        record { before = []; after = bps; splits = refl; misses = tt; hit = hit },
        rw (first_hit, named_hit-hits pf norm (to_file_url norm) line bp, hit) refl,
      ),
    )
    | inr miss ↦ elim (searched bps) [
      | inl (any, (id', bp', first, found)) ↦ inl (
        rw (miss, any_hit) any,
        (
          id',
          bp',
          record {
            before = (id, bp) ∷ first.before;
            after = first.after;
            splits = ap (◌∷◌ (id, bp)) first.splits;
            misses = (miss, first.misses);
            hit = first.hit;
          },
          rw (first_hit, named_hit-hits pf norm (to_file_url norm) line bp, miss) found,
        ),
      )
      | inr (none_hit, misses) ↦ inr (rw (miss, any_hit) none_hit, (miss, misses))
    ]
  ]

  -- The handler's second search, whose test is another text than that of `check_breakpoint`, names the first breakpoint that is hit and carries its condition,
  -- wherever `check_breakpoint` finds a hit; where it finds none, no breakpoint is hit, or they are
  -- switched off.
  pub check_breakpoint-FirstHit :
      {N : Type 0} (s : Session N)
      → ((check_breakpoint pf s file line ≡ true)
          × (s.bp_active ≡ true)
          × ((id : ℕ) × (bp : Breakpoint) × FirstHit pf file line s.breakpoints id bp
              × (find_breakpoint pf s file line ≡ (id, bp.condition))))
        ⊎ ((check_breakpoint pf s file line ≡ false)
            × ((s.bp_active ≡ false) ⊎ AllMiss pf file line s.breakpoints))
  unfolding check_breakpoint find_breakpoint
  check_breakpoint-FirstHit s = elim (Bool-cases s.bp_active) [
    | inr off ↦ inr (rw off refl, inl off)
    | inl on ↦ elim (searched s.breakpoints) [
      | inl (any, found) ↦ inl (rw on any, on, found)
      | inr (any, misses) ↦ inr (rw on any, inr misses)
    ]
  ]

  found_behind :
      (before after : List (ℕ × Breakpoint)) (id : ℕ) (bp : Breakpoint)
      → AllMiss pf file line before
      → HitAt pf file line bp true
      → let bps = before ++ (id, bp) ∷ after in
        (any_hit pf norm (to_file_url norm) line bps ≡ true)
        × (first_hit pf norm (to_file_url norm) line bps ≡ (id, bp.condition))
  unfolding any_hit first_hit
  found_behind [] after id bp m h =
      (rw h refl, rw (named_hit-hits pf norm (to_file_url norm) line bp, h) refl)
  found_behind ((j, other) ∷ before) after id bp (miss, m) h =
      let (any, first) = found_behind before after id bp m h in
      (rw miss any, rw (named_hit-hits pf norm (to_file_url norm) line other, miss) first)

  missed :
      (bps : List (ℕ × Breakpoint))
      → AllMiss pf file line bps
      → any_hit pf norm (to_file_url norm) line bps ≡ false
  unfolding any_hit
  missed [] m = refl
  missed ((id, bp) ∷ bps) (miss, m) = rw miss (missed bps m)

  -- The other way round: a first hit is found, and no hit is none.
  pub check_breakpoint_of_FirstHit :
      {N : Type 0} (s : Session N) (id : ℕ) (bp : Breakpoint)
      → s.bp_active ≡ true
      → FirstHit pf file line s.breakpoints id bp
      → (check_breakpoint pf s file line ≡ true)
        × (find_breakpoint pf s file line ≡ (id, bp.condition))
  unfolding check_breakpoint find_breakpoint
  check_breakpoint_of_FirstHit s id bp on first =
      let (any, found) = found_behind first.before first.after id bp first.misses first.hit in
      (rw (on, first.splits) any, rw first.splits found)

  pub check_breakpoint_of_AllMiss :
      {N : Type 0} (s : Session N)
      → (s.bp_active ≡ false) ⊎ AllMiss pf file line s.breakpoints
      → check_breakpoint pf s file line ≡ false
  unfolding check_breakpoint
  check_breakpoint_of_AllMiss s (inl off) = rw off refl
  check_breakpoint_of_AllMiss s (inr m) = ground (arith, missed s.breakpoints m)

  any_hit-put :
      (id : ℕ) (bp : Breakpoint) (bps : List (ℕ × Breakpoint))
      → HitAt pf file line bp true
      → any_hit pf norm (to_file_url norm) line (put id bp bps) ≡ true
  unfolding any_hit put
  any_hit-put id bp [] h = rw h
  any_hit-put id bp ((j, other) ∷ bps) h = ground (arith, any_hit-put id bp bps h)

to_lower-append : (a b : Bytes) → to_lower (a ++ b) ≡ to_lower a ++ to_lower b
unfolding to_lower
to_lower-append a b = map-append _ a b

-- A part of the path is found in it, in any case.
plain_match_part :
    (pf : Platform) (file url a b : Bytes) → file ≡ a ++ (url ++ b) → plain_match pf file url ≡ true
unfolding plain_match
plain_match_part pf file url a b e =
    let found : contains (to_lower url) (to_lower file) ≡ true =
      rw (e, to_lower-append a, to_lower-append url)
        (contains-append (to_lower a) (to_lower url) (to_lower b)) in
    ground arith

new_breakpoint-HitAt :
    (pf : Platform) (file url a b condition : Bytes) (id : ℕ) (line column : ℤ)
    → normalize_url file ≡ a ++ (normalize_url url ++ b)
    → HitAt pf file (line +ℤ pos 1) (new_breakpoint id url line column false condition) true
unfolding hits new_breakpoint
new_breakpoint-HitAt pf file url a b condition id line column e =
    let matched = plain_match_part pf (normalize_url file) (normalize_url url) a b e in
    ground (arith, matched)

module _ (pf : Platform) {N : Type 0} ⦃fl : Floats N⦄ (s : Session N) where
  -- A breakpoint that was set by a plain url, a file's path or any part of it, is hit at its line of that
  -- file, while breakpoints are switched on.
  pub check-set_breakpoint :
      (file url a b condition : Bytes) (line column : ℤ)
      → s.bp_active ≡ true
      → normalize_url file ≡ a ++ (normalize_url url ++ b)
      → check_breakpoint pf
          (set_breakpoint_by_url pf s url line column false condition).0
          file
          (line +ℤ pos 1)
        ≡ true
  unfolding check_breakpoint set_breakpoint_by_url new_breakpoint
  check-set_breakpoint file url a b condition line column on e =
      rw on (any_hit-put pf file (line +ℤ pos 1) s.next_bp_id bp s.breakpoints hit)
    where
      bp : Breakpoint
      bp = new_breakpoint s.next_bp_id url line column false condition

      hit : HitAt pf file (line +ℤ pos 1) bp true
      hit = new_breakpoint-HitAt pf file url a b condition s.next_bp_id line column e
