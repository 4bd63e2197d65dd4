-- ===== src/Session/Trace/Pauses.antt =====
-- What a call of the handler leaves behind, whether it pauses or not.
use mathlib.Core.Path.{subst}
use quick_js_debugger.Prelude.{
  ℕ, ◌-◌, ◌≡◌, ◌⊎◌, inl, inr, refl, sym, ◌∙◌, Bool, true, false, not, ◌||◌, List, [], ◌∷◌, Option,
  some, arith, if◌then◌else◌, length, length-append, length-replicate, length-drop, drop, replicate,
}
use quick_js_debugger.Prelude.Int.{ℤ, pos, leb_ℤ}
use quick_js_debugger.Text.Bytes.{Bytes}
use quick_js_debugger.Json.Floats.{Floats}
use quick_js_debugger.Session.Capture.{resize_frames, set_top, track_frames, capture_frames}
use quick_js_debugger.Session.Engine.{Engine}
use quick_js_debugger.Session.Paths.{Platform}
use quick_js_debugger.Session.State.{FrameInfo, no_frame, PauseReason, StepMode, Session, Event}
use quick_js_debugger.Session.Trace.{
  Verdict, pass, stop, verdict, act, consume, enter_pause, or_empty, trace_at, debug_trace_handler,
}
use quick_js_debugger.Session.Trace.Verdicts.{Pauses, verdict_iff}

length-resize_frames : (depth : ℕ) (fs : List FrameInfo) → length (resize_frames depth fs) ≡ depth
unfolding resize_frames
length-resize_frames depth fs = omega (
  arith,
  length-append (replicate (depth - length fs) no_frame) (drop (length fs - depth) fs),
  length-replicate (depth - length fs) no_frame,
  length-drop (length fs - depth) fs,
)

length-set_top : (top : FrameInfo) (fs : List FrameInfo) → length (set_top top fs) ≡ length fs
unfolding set_top
length-set_top top [] = refl
length-set_top top (f ∷ fs) = refl

length-track_frames :
    (depth : ℕ) (top : FrameInfo) (fs : List FrameInfo) → length (track_frames depth top fs) ≡ depth
unfolding track_frames
length-track_frames depth top fs =
    length-set_top top (resize_frames depth fs) ∙ length-resize_frames depth fs

sent : {A : Type 0} (a : A) (b : Bool) → length (if b then a ∷ [] else []) ≡ (if b then 1 else 0)
sent a true = refl
sent a false = refl

module _ {N V : Type 0} ⦃fl : Floats N⦄ (e : Engine N V) (pf : Platform) where
  -- A script that has stopped in the pause wait: the step and the request that led there are used
  -- up, and there is one frame for each level of the engine's stack.
  pub record IsStopped (s : Session N) (out : Session N) : Type 0 where
    pub is_paused : out.paused ≡ true
    pub has_context : out.paused_ctx ≡ true
    pub no_step : out.step_mode ≡ StepMode.none
    pub no_request : out.pause_requested ≡ false
    pub depth : length out.frame_stack ≡ e.stack_depth
    pub same_breakpoints : out.breakpoints ≡ s.breakpoints

  -- A call that goes on sends nothing and touches the frame stack only.
  abbrev pub Goes : Session N → Session N × List (Event N) × Bool → Type 0
  Goes s (out, events, stopped) =
      (stopped ≡ false) × (events ≡ []) × (out ≡ record s { frame_stack = out.frame_stack })

  abbrev pub Stops : Session N → Session N × List (Event N) × Bool → Type 0
  Stops s (out, events, stopped) =
      (stopped ≡ true) × IsStopped s out × (length events ≡ (if s.send_event then 1 else 0))

  stopped :
      (s t : Session N) (top : FrameInfo)
      → t.pause_requested ≡ false
      → t.step_mode ≡ StepMode.none
      → t.breakpoints ≡ s.breakpoints
      → IsStopped s (record (capture_frames e pf t top) { paused = true; paused_ctx = true })
  unfolding capture_frames
  stopped s t top request mode same = record {
    is_paused = refl;
    has_context = refl;
    no_step = mode;
    no_request = request;
    depth = length-track_frames e.stack_depth top t.frame_stack;
    same_breakpoints = same;
  }

  request_used :
      (s : Session N) (file : Bytes) (line : ℤ) (r : PauseReason) (id : ℕ)
      → verdict e pf s file line ≡ stop r id
      → (consume r s).pause_requested ≡ false
  unfolding consume
  request_used s file line PauseReason.pause_request id h = refl
  request_used s file line PauseReason.entry id h =
      ((verdict_iff e pf s file line PauseReason.entry id).0 h).1
  request_used s file line PauseReason.breakpoint id h =
      ((verdict_iff e pf s file line PauseReason.breakpoint id).0 h).0
  request_used s file line PauseReason.step id h =
      ((verdict_iff e pf s file line PauseReason.step id).0 h).1

  act-Stops :
      (s : Session N) (top : FrameInfo) (r : PauseReason) (id : ℕ)
      → (consume r s).pause_requested ≡ false
      → Stops s (act e pf (stop r id) s top)
  unfolding act enter_pause capture_frames consume
  act-Stops s top PauseReason.pause_request id h =
      (refl, stopped s (consume PauseReason.pause_request s) top h refl refl, sent _ s.send_event)
  act-Stops s top PauseReason.entry id h =
      (refl, stopped s (consume PauseReason.entry s) top h refl refl, sent _ s.send_event)
  act-Stops s top PauseReason.breakpoint id h =
      (refl, stopped s (consume PauseReason.breakpoint s) top h refl refl, sent _ s.send_event)
  act-Stops s top PauseReason.step id h =
      (refl, stopped s (consume PauseReason.step s) top h refl refl, sent _ s.send_event)

  -- The session as the handler's tests see it: the frame stack has been brought up to date.
  abbrev pub tracked : Session N → Bytes → Option Bytes → ℤ → ℤ → Session N
  tracked s file funcname line col = record s {
    frame_stack =
        track_frames e.stack_depth
          (record { filename = file; funcname = or_empty funcname; line = line; col = col })
          s.frame_stack;
  }

  same_table :
      (s s' : Session N) {out : Session N}
      → s'.breakpoints ≡ s.breakpoints
      → IsStopped s' out
      → IsStopped s out
  same_table s s' same d = record {
    is_paused = d.is_paused;
    has_context = d.has_context;
    no_step = d.no_step;
    no_request = d.no_request;
    depth = d.depth;
    same_breakpoints = d.same_breakpoints ∙ same;
  }

  abbrev pub Outcome :
      Session N → Bytes → ℤ → Session N → Session N × List (Event N) × Bool → Type 0
  Outcome s file line s' out =
      ((r : PauseReason) × (id : ℕ) × Pauses e pf s' file line r id × Stops s out)
      ⊎ (((r : PauseReason) (id : ℕ) → ¬ Pauses e pf s' file line r id) × Goes s out)

  act-Outcome :
      (s : Session N) (file : Bytes) (funcname : Option Bytes) (line col : ℤ) (v : Verdict)
      → let s' = tracked s file funcname line col in
        verdict e pf s' file line ≡ v
        → (top : FrameInfo) → Outcome s file line s' (act e pf v s' top)
  act-Outcome s file funcname line col pass h top = inr (
    (λ r id p.
        pass-ne-stop r id
          (sym h ∙ (verdict_iff e pf (tracked s file funcname line col) file line r id).1 p)),
    unfold act in (refl, refl, refl),
  )
    where
      pass-ne-stop : (r : PauseReason) (id : ℕ) → pass ≡ stop r id → ⊥
      pass-ne-stop r id q = cc
  act-Outcome s file funcname line col (stop r id) h top =
      let s' = tracked s file funcname line col in
      let done = act-Stops s' top r id (request_used s' file line r id h) in
      inl (
        r,
        id,
        (verdict_iff e pf s' file line r id).0 h,
        (done.0, same_table s s' refl done.1, done.2),
      )

  -- A call at a statement of an enabled session, at a positive line, pauses exactly where the
  -- contract gives a reason; then it leaves a stopped session and sends one event if a callback is
  -- set, and otherwise it sends nothing and changes only the frames.
  pub debug_trace_handler-Outcome :
      (s : Session N) (file : Bytes) (funcname : Option Bytes) (line col : ℤ)
      → s.enabled ≡ true
      → leb_ℤ line (pos 0) ≡ false
      → Outcome s file line
          (tracked s file funcname line col)
          (debug_trace_handler e pf s (some file) funcname line col)
  unfolding debug_trace_handler trace_at
  debug_trace_handler-Outcome s file funcname line col on positive =
      let passes : (not s.enabled || leb_ℤ line (pos 0)) ≡ false = ground arith in
      subst
        (λ b.
          Outcome s file line (tracked s file funcname line col)
            (if b then (s, [], false) else trace_at e pf s file funcname line col))
        (sym passes)
        (act-Outcome s file funcname line col
          (verdict e pf (tracked s file funcname line col) file line) refl _)
