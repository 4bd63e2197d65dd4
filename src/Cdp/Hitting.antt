-- ===== src/Cdp/Hitting.antt =====
-- A breakpoint that the client sets stops the script.
use Prim.Native.Nat.{compare, Ordering}
use mathlib.Core.Path.{subst}
use quick_js_debugger.Prelude.{
  ℕ, ◌≡◌, inl, inr, refl, sym, true, List, [], ◌∷◌, ◌++◌, All, Bool-cases, arith,
}
use quick_js_debugger.Prelude.Int.{ℤ, pos, ◌+ℤ◌}
use quick_js_debugger.Text.Bytes.{Bytes, codes}
use quick_js_debugger.Json.Floats.{Floats}
use quick_js_debugger.Json.Value.{Value, has, at, get_string}
use quick_js_debugger.Session.Breakpoints.{
  put, new_breakpoint, set_breakpoint_by_url, check_breakpoint,
}
use quick_js_debugger.Session.Breakpoints.Hits.{check_breakpoint-FirstHit}
use quick_js_debugger.Session.Engine.{Engine}
use quick_js_debugger.Session.Paths.{Platform, normalize_url, to_file_url}
use quick_js_debugger.Session.State.{Breakpoint, PauseReason, Session}
use quick_js_debugger.Session.Trace.{evaluate_condition}
use quick_js_debugger.Session.Trace.Pauses.{Stops}
use quick_js_debugger.Session.Trace.Runs.{
  Statement, IsAt, GoesOnAt, Executes, call, run_until_pause,
}
use quick_js_debugger.Session.Trace.Verdicts.{Pauses}
use quick_js_debugger.Cdp.{Handler, string_or, int_or}
use quick_js_debugger.Cdp.Breakpoints.{check-on_debugger_set_breakpoint_by_url}
use quick_js_debugger.Cdp.Requests.{on_debugger_set_breakpoint_by_url}

All-middle :
    {A : Type 0} (P : A → Type 0) (front back : List A) (x : A) → All P (front ++ x ∷ back) → P x
All-middle P [] back x h = h.0
All-middle P (y ∷ front) back x h = All-middle P front back x h.1

module _ {N V : Type 0} ⦃fl : Floats N⦄ (e : Engine N V) (pf : Platform) where
  -- The condition of a breakpoint holds.
  abbrev pub Holds : ℕ × Breakpoint → Type 0
  Holds (id, bp) = evaluate_condition e bp.condition ≡ true

  Holds-put :
      (id : ℕ) (bp : Breakpoint) (bps : List (ℕ × Breakpoint))
      → Holds (id, bp)
      → All Holds bps
      → All Holds (put id bp bps)
  unfolding put
  Holds-put id bp [] h hs = (h, tt)
  Holds-put id bp ((j, other) ∷ bps) h hs =
      elim (compare id j)
        as (λ o. All Holds (elim o as (λ _. List (ℕ × Breakpoint)) [
          | Ordering.lt ↦ (id, bp) ∷ (j, other) ∷ bps
          | Ordering.eq ↦ (id, bp) ∷ bps
          | Ordering.gt ↦ (j, other) ∷ put id bp bps
        ])) [
          | Ordering.lt ↦ (h, hs)
          | Ordering.eq ↦ (h, hs.1)
          | Ordering.gt ↦ (hs.0, Holds-put id bp bps h hs.1)
        ]

  -- Where a breakpoint is hit and all conditions hold, there is a reason to pause.
  reason :
      (s : Session N) (file : Bytes) (line : ℤ)
      → check_breakpoint pf s file line ≡ true
      → All Holds s.breakpoints
      → (r : PauseReason) × (id : ℕ) × Pauses e pf s file line r id
  reason s file line hit holds = elim (Bool-cases s.pause_requested) [
    | inl q ↦ (PauseReason.pause_request, 0, (refl, q))
    | inr q ↦ elim (Bool-cases s.pause_on_start) [
      | inl o ↦ (PauseReason.entry, 0, (refl, q, o))
      | inr o ↦ elim (check_breakpoint-FirstHit pf file line s) [
        | inl (_, on, (id, bp, first, _)) ↦ (
          PauseReason.breakpoint,
          id,
          (
            q,
            o,
            on,
            (
              bp,
              first,
              All-middle Holds first.before first.after (id, bp)
                  (subst (All Holds) first.splits holds),
            ),
          ),
        )
        | inr (miss, _) ↦ absurd (ground (arith, hit, miss))
      ]
    ]
  ]

module _ {N : Type 0} ⦃fl : Floats N⦄ (pf : Platform) (h : Handler N) (params : Value N) where
  -- The session behind the request.
  abbrev pub requested : Session N
  requested = (on_debugger_set_breakpoint_by_url pf h params).handler.session

  still_enabled : h.session.enabled ≡ true → requested.enabled ≡ true
  unfolding on_debugger_set_breakpoint_by_url set_breakpoint_by_url
  still_enabled on = on

module _ {N V : Type 0} ⦃fl : Floats N⦄ (pf : Platform) (h : Handler N) (params : Value N) where
  requested-Holds :
      (e : Engine N V)
      → evaluate_condition e (string_or [] params (codes "condition")) ≡ true
      → All (Holds e pf) h.session.breakpoints
      → All (Holds e pf) (requested pf h params).breakpoints
  unfolding on_debugger_set_breakpoint_by_url set_breakpoint_by_url new_breakpoint
  requested-Holds e holds all = Holds-put e pf _ _ h.session.breakpoints holds all

  -- In an enabled session with breakpoints on: once the client has set a breakpoint by the URL
  -- that a file was announced under, a script runs on through statements at positive lines at
  -- which there is no reason to pause, and pauses at the line of that file that was asked for, a
  -- positive one, if the breakpoint's condition holds there and those of all others do.
  pub breakpoint-Stops :
      (before : List (Statement N V)) (last : Statement N V)
      → h.session.enabled ≡ true
      → h.session.bp_active ≡ true
      → has params (codes "url") ≡ true
      → get_string (at params (codes "url")) ≡ to_file_url (normalize_url last.file)
      → evaluate_condition last.engine (string_or [] params (codes "condition")) ≡ true
      → All (Holds last.engine pf) h.session.breakpoints
      → All (GoesOnAt pf (requested pf h params)) before
      → IsAt last
      → last.line ≡ int_or (pos 0) params (codes "lineNumber") +ℤ pos 1
      → (t : Session N) × Executes pf (requested pf h params) before t
        × Stops last.engine pf t (call pf t last)
  breakpoint-Stops before last on active given url holds all calm at_line line =
      let hit = check-on_debugger_set_breakpoint_by_url pf h params last.file active given url in
      let (r, id, p) =
        reason last.engine pf (requested pf h params) last.file last.line
          (subst (λ l. check_breakpoint pf (requested pf h params) last.file l ≡ true) (sym line)
            hit)
          (requested-Holds last.engine holds all) in
      run_until_pause pf (requested pf h params) (still_enabled pf h params on) before last r id
        calm at_line p
