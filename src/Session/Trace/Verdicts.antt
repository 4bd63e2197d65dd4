-- ===== src/Session/Trace/Verdicts.antt =====
-- When the handler pauses, and why: the code's tests against the debugger's contract.
use quick_js_debugger.Prelude.{
  ℕ, ◌≤◌, ◌<◌, ◌≡◌, ◌≢◌, ◌↔◌, ◌⊎◌, inl, inr, refl, true, false, [], ◌∷◌, arith, Bool-cases,
}
use quick_js_debugger.Prelude.Int.{ℤ, ==ℤ_iff}
use quick_js_debugger.Text.Bytes.{Bytes, equal_iff}
use quick_js_debugger.Json.Floats.{Floats}
use quick_js_debugger.Session.Breakpoints.Hits.{
  FirstHit, AllMiss, check_breakpoint-FirstHit, check_breakpoint_of_FirstHit,
  check_breakpoint_of_AllMiss,
}
use quick_js_debugger.Session.Engine.{Engine}
use quick_js_debugger.Session.Paths.{Platform}
use quick_js_debugger.Session.State.{Breakpoint, PauseReason, StepMode, Session}
use quick_js_debugger.Session.Trace.{
  stop, evaluate_condition, moved, step_verdict, breakpoint_verdict, verdict,
}

module _ {N V : Type 0} ⦃fl : Floats N⦄ (e : Engine N V) (pf : Platform) (s : Session N)
    (file : Bytes) (line : ℤ) where
  -- The script stands elsewhere than where the step began.
  abbrev pub HasMoved : Type 0
  HasMoved = (line ≢ s.step_start_line) ⊎ (s.step_start_file ≢ file)

  -- The step that was asked for is done here.
  abbrev pub StepEnds : StepMode → Type 0
  StepEnds StepMode.into = HasMoved
  StepEnds StepMode.over = (e.stack_depth ≤ s.step_start_depth) × HasMoved
  StepEnds StepMode.out = e.stack_depth < s.step_start_depth
  StepEnds _ = ⊥

  -- The contract: the reason for which a script is to pause here, at a breakpoint's id or 0.
  abbrev pub Pauses : PauseReason → ℕ → Type 0
  Pauses PauseReason.pause_request id = (id ≡ 0) × (s.pause_requested ≡ true)
  Pauses PauseReason.entry id = (id ≡ 0) × (s.pause_requested ≡ false) × (s.pause_on_start ≡ true)
  Pauses PauseReason.breakpoint id =
      (s.pause_requested ≡ false)
      × (s.pause_on_start ≡ false)
      × (s.bp_active ≡ true)
      × ((bp : Breakpoint) × FirstHit pf file line s.breakpoints id bp
          × (evaluate_condition e bp.condition ≡ true))
  Pauses PauseReason.step id =
      (id ≡ 0)
      × (s.pause_requested ≡ false)
      × (s.pause_on_start ≡ false)
      × ((s.bp_active ≡ false) ⊎ AllMiss pf file line s.breakpoints)
      × StepEnds s.step_mode

  moved-HasMoved : (moved e s file line ≡ true) → HasMoved
  moved-HasMoved h =
      ground (arith, ==ℤ_iff line s.step_start_line, equal_iff s.step_start_file file)

  HasMoved-moved : HasMoved → moved e s file line ≡ true
  HasMoved-moved h =
      ground (arith, ==ℤ_iff line s.step_start_line, equal_iff s.step_start_file file)

  step_verdict-StepEnds :
      (m : StepMode) (r : PauseReason) (id : ℕ)
      → step_verdict e m s file line ≡ stop r id
      → (r ≡ PauseReason.step) × (id ≡ 0) × StepEnds m
  unfolding step_verdict
  step_verdict-StepEnds StepMode.into r id h =
      ground (arith, ==ℤ_iff line s.step_start_line, equal_iff s.step_start_file file)
  step_verdict-StepEnds StepMode.over r id h =
      ground (arith, ==ℤ_iff line s.step_start_line, equal_iff s.step_start_file file)
  step_verdict-StepEnds StepMode.out r id h = ground arith
  step_verdict-StepEnds _ r id h = cc

  StepEnds-step_verdict :
      (m : StepMode) → StepEnds m → step_verdict e m s file line ≡ stop PauseReason.step 0
  unfolding step_verdict
  StepEnds-step_verdict StepMode.into h = rw (HasMoved-moved h) refl
  StepEnds-step_verdict StepMode.over h = rw (HasMoved-moved h.1) (ground arith)
  StepEnds-step_verdict StepMode.out h = ground arith
  StepEnds-step_verdict _ h = elim h [ ]

  breakpoint_verdict_lem :
      (bp_id : ℕ) (condition : Bytes) (r : PauseReason) (id : ℕ)
      → breakpoint_verdict e (bp_id, condition) ≡ stop r id
      → (r ≡ PauseReason.breakpoint) × (id ≡ bp_id) × (evaluate_condition e condition ≡ true)
  unfolding breakpoint_verdict
  breakpoint_verdict_lem bp_id [] r id h = (cc, cc, unfold evaluate_condition in refl)
  breakpoint_verdict_lem bp_id (c ∷ cs) r id h = ground arith

  breakpoint_verdict-stop :
      (bp_id : ℕ) (condition : Bytes)
      → evaluate_condition e condition ≡ true
      → breakpoint_verdict e (bp_id, condition) ≡ stop PauseReason.breakpoint bp_id
  unfolding breakpoint_verdict
  breakpoint_verdict-stop bp_id [] h = refl
  breakpoint_verdict-stop bp_id (c ∷ cs) h = rw h refl

  -- The part behind the breakpoint search, where there was no request and no entry pause.
  searched_verdict-Pauses :
      (r : PauseReason) (id : ℕ)
      → s.pause_requested ≡ false
      → s.pause_on_start ≡ false
      → verdict e pf s file line ≡ stop r id
      → Pauses r id
  searched_verdict-Pauses r id q o h = elim (check_breakpoint-FirstHit pf file line s) [
    | inl (hit, on, (bp_id, bp, first, found)) ↦
        let (er, ei, holds) =
          breakpoint_verdict_lem bp_id bp.condition r id (unfold verdict in ground (arith, h)) in
        rw (er, ei) (q, o, on, (bp, first, holds))
    | inr (miss, misses) ↦
        let (er, ei, ends) =
          step_verdict-StepEnds s.step_mode r id (unfold verdict in ground (arith, h)) in
        rw (er, ei) (refl, q, o, misses, ends)
  ]

  verdict-Pauses : (r : PauseReason) (id : ℕ) → verdict e pf s file line ≡ stop r id → Pauses r id
  verdict-Pauses r id h = elim (Bool-cases s.pause_requested) [
    | inl q ↦
        let (er, ei) : (r ≡ PauseReason.pause_request) × (id ≡ 0) =
          unfold verdict in ground (arith, h) in
        rw (er, ei) (refl, q)
    | inr q ↦ elim (Bool-cases s.pause_on_start) [
      | inl o ↦
          let (er, ei) : (r ≡ PauseReason.entry) × (id ≡ 0) = unfold verdict in ground (arith, h) in
          rw (er, ei) (refl, q, o)
      | inr o ↦ searched_verdict-Pauses r id q o h
    ]
  ]

  Pauses-verdict : (r : PauseReason) (id : ℕ) → Pauses r id → verdict e pf s file line ≡ stop r id
  unfolding verdict
  Pauses-verdict PauseReason.pause_request id (ei, q) = ground arith
  Pauses-verdict PauseReason.entry id (ei, q, o) = ground arith
  Pauses-verdict PauseReason.breakpoint id (q, o, on, (bp, first, holds)) =
      let (hit, found) = check_breakpoint_of_FirstHit pf file line s id bp on first in
      ground (arith, hit, found, breakpoint_verdict-stop id bp.condition holds)
  Pauses-verdict PauseReason.step id (ei, q, o, misses, ends) = ground (
    arith,
    check_breakpoint_of_AllMiss pf file line s misses,
    StepEnds-step_verdict s.step_mode ends,
  )

  -- The handler's tests decide to pause for a reason, at a breakpoint's id or 0, exactly where the
  -- contract says so.
  pub verdict_iff :
      (r : PauseReason) (id : ℕ) → (verdict e pf s file line ≡ stop r id) ↔ Pauses r id
  verdict_iff r id = (verdict-Pauses r id, Pauses-verdict r id)
