-- ===== src/Session/WellFormed.antt =====
-- The invariant of a session, and that each of its operations keeps it.
use mathlib.Core.Path.{subst}
use quick_js_debugger.Prelude.{
  ℕ, ◌≤◌, ◌<◌, ◌≡◌, refl, sym, Bool, true, false, List, [], Option, none, some, arith, All,
  if◌then◌else◌, ◌||◌, not,
}
use quick_js_debugger.Prelude.Int.{ℤ, pos, leb_ℤ}
use quick_js_debugger.Text.Bytes.{Bytes}
use quick_js_debugger.Json.Floats.{Floats}
use quick_js_debugger.Json.Value.{Value, Fields, lookup}
use quick_js_debugger.Session.Breakpoints.Ids.{
  IsNumbered, Between, set_breakpoint_by_url-IsNumbered, remove_breakpoint-IsNumbered,
  remove_breakpoint_others,
}
use quick_js_debugger.Session.Breakpoints.{set_breakpoint_by_url, remove_breakpoint}
use quick_js_debugger.Session.Capture.Ids.{IsIssued, capture_frames-IsIssued}
use quick_js_debugger.Session.Capture.{capture_frames}
use quick_js_debugger.Session.Control.{start_waiting}
use quick_js_debugger.Session.Engine.{Engine}
use quick_js_debugger.Session.Evaluate.{evaluate_on_call_frame, answer_eval, undefined_result}
use quick_js_debugger.Session.Evaluate.Properties.{evaluate_on_call_frame-IsIssued}
use quick_js_debugger.Session.Paths.{Platform}
use quick_js_debugger.Session.Scripts.Ids.{IsRegistered, HasIdBelow, add_script-IsRegistered}
use quick_js_debugger.Session.Remote.{Store, object_id}
use quick_js_debugger.Session.Scripts.{add_script}
use quick_js_debugger.Session.State.{
  Session, new_session, Event, FrameInfo, ScriptInfo, Breakpoint, PauseReason,
}
use quick_js_debugger.Session.Trace.Pauses.{tracked}
use quick_js_debugger.Session.Trace.{
  Verdict, pass, stop, verdict, act, consume, enter_pause, trace_at, debug_trace_handler,
}

module _ {N : Type 0} where
  -- The breakpoints and the scripts are numbered, and no object id is in use before it is handed out.
  pub record IsWellFormed (s : Session N) : Type 0 where
    pub numbered : IsNumbered s
    pub registered : IsRegistered s
    pub issued : IsIssued s

  pub new_session-IsWellFormed : IsWellFormed new_session
  unfolding lookup
  new_session-IsWellFormed = record {
    numbered = record { next_pos = omega arith; between = tt };
    registered = tt;
    issued = λ n h. refl;
  }

  -- The members that the tables are made of.
  abbrev pub tables : Session N → ℕ × List (ℕ × Breakpoint) × ℕ × List ScriptInfo × ℕ × Fields N
  tables s =
      (s.next_bp_id, s.breakpoints, s.next_script_id, s.scripts, s.next_obj_id, s.object_store)

  -- A change of the other members.
  pub unchanged : (s t : Session N) → tables t ≡ tables s → IsWellFormed s → IsWellFormed t
  unchanged s t e w = record {
    numbered = record {
      next_pos = subst (λ x. 0 < x.0) (sym e) w.numbered.next_pos;
      between = subst (λ x. Between 0 x.0 x.1) (sym e) w.numbered.between;
    };
    registered = subst (λ x. All (HasIdBelow x.2) x.3) (sym e) w.registered;
    issued = subst (λ x. (n : ℕ) → x.4 ≤ n → lookup (object_id n) x.5 ≡ none) (sym e) w.issued;
  }

  chosen :
      (b : Bool) (s t : Session N)
      → IsWellFormed s
      → IsWellFormed t
      → IsWellFormed (if b then s else t)
  chosen true s t v w = v
  chosen false s t v w = w

  pub start_waiting-IsWellFormed : (s : Session N) → IsWellFormed s → IsWellFormed (start_waiting s)
  unfolding start_waiting
  start_waiting-IsWellFormed s w = chosen s.pause_on_start _ _ (unchanged s _ refl w) w

module _ {N : Type 0} ⦃fl : Floats N⦄ where
  pub add_script-IsWellFormed :
      (s : Session N) (url source : Bytes)
      → IsWellFormed s
      → IsWellFormed (add_script s url source).0
  unfolding add_script
  add_script-IsWellFormed s url source w = record {
    numbered = record { next_pos = w.numbered.next_pos; between = w.numbered.between };
    registered = add_script-IsRegistered s url source w.registered;
    issued = w.issued;
  }

  pub set_breakpoint_by_url-IsWellFormed :
      (pf : Platform) (s : Session N) (url : Bytes) (line column : ℤ) (is_regex : Bool)
      (condition : Bytes)
      → IsWellFormed s
      → IsWellFormed (set_breakpoint_by_url pf s url line column is_regex condition).0
  unfolding set_breakpoint_by_url
  set_breakpoint_by_url-IsWellFormed pf s url line column is_regex condition w = record {
    numbered = set_breakpoint_by_url-IsNumbered pf s url line column is_regex condition w.numbered;
    registered = w.registered;
    issued = w.issued;
  }

  pub remove_breakpoint-IsWellFormed :
      (pf : Platform) (s : Session N) (id : Bytes)
      → IsWellFormed s
      → IsWellFormed (remove_breakpoint s id).0
  remove_breakpoint-IsWellFormed pf s id w =
      subst IsWellFormed (remove_breakpoint_others pf s id) (record {
        numbered =
            subst IsNumbered (sym (remove_breakpoint_others pf s id))
              (remove_breakpoint-IsNumbered pf s id w.numbered);
        registered = w.registered;
        issued = w.issued;
      })

module _ {N V : Type 0} ⦃fl : Floats N⦄ (e : Engine N V) where
  pub evaluate_on_call_frame-IsWellFormed :
      (s : Session N) (call_frame_id expression : Bytes)
      → IsWellFormed s
      → IsWellFormed (evaluate_on_call_frame e s call_frame_id expression).0
  unfolding evaluate_on_call_frame
  evaluate_on_call_frame-IsWellFormed s call_frame_id expression w =
      answered s.paused (evaluate_on_call_frame-IsIssued e s call_frame_id expression w.issued)
    where
      after : Store N × Value N
      after =
          answer_eval e (record { objects = s.object_store; next_id = s.next_obj_id }) call_frame_id
            expression

      result : Bool → Session N × Value N
      result b =
          if b
          then (record s { object_store = after.0.objects; next_obj_id = after.0.next_id }, after.1)
          else (s, undefined_result)

      answered : (b : Bool) → IsIssued (result b).0 → IsWellFormed (result b).0
      answered true issued = record {
        numbered = record { next_pos = w.numbered.next_pos; between = w.numbered.between };
        registered = w.registered;
        issued = issued;
      }
      answered false issued = w

  consume-IsWellFormed :
      (r : PauseReason) (s : Session N) → IsWellFormed s → IsWellFormed (consume r s)
  unfolding consume
  consume-IsWellFormed PauseReason.breakpoint s w = unchanged s _ refl w
  consume-IsWellFormed PauseReason.step s w = unchanged s _ refl w
  consume-IsWellFormed PauseReason.pause_request s w = unchanged s _ refl w
  consume-IsWellFormed PauseReason.entry s w = unchanged s _ refl w

  module _ (pf : Platform) where
    enter_pause-IsWellFormed :
        (s : Session N) (top : FrameInfo) (r : PauseReason) (id : ℕ)
        → IsWellFormed s
        → IsWellFormed (enter_pause e pf s top r id).0
    unfolding enter_pause capture_frames
    enter_pause-IsWellFormed s top r id w = record {
      numbered = record { next_pos = w.numbered.next_pos; between = w.numbered.between };
      registered = w.registered;
      issued = capture_frames-IsIssued e pf s top;
    }

    act-IsWellFormed :
        (v : Verdict) (s : Session N) (top : FrameInfo)
        → IsWellFormed s
        → IsWellFormed (act e pf v s top).0
    unfolding act
    act-IsWellFormed pass s top w = w
    act-IsWellFormed (stop r id) s top w =
        enter_pause-IsWellFormed (consume r s) top r id (consume-IsWellFormed r s w)

    trace_at-IsWellFormed :
        (s : Session N) (filename : Bytes) (funcname : Option Bytes) (line col : ℤ)
        → IsWellFormed s
        → IsWellFormed (trace_at e pf s filename funcname line col).0
    unfolding trace_at
    trace_at-IsWellFormed s filename funcname line col w =
        let s' = tracked e pf s filename funcname line col in
        act-IsWellFormed (verdict e pf s' filename line) s' _ (unchanged s s' refl w)

    if_called :
        (b : Bool) (x y : Session N × List (Event N) × Bool)
        → IsWellFormed x.0
        → IsWellFormed y.0
        → IsWellFormed (if b then x else y).0
    if_called true x y hx hy = hx
    if_called false x y hx hy = hy

    pub debug_trace_handler-IsWellFormed :
        (s : Session N) (filename funcname : Option Bytes) (line col : ℤ)
        → IsWellFormed s
        → IsWellFormed (debug_trace_handler e pf s filename funcname line col).0
    unfolding debug_trace_handler
    debug_trace_handler-IsWellFormed s none funcname line col w = w
    debug_trace_handler-IsWellFormed s (some filename) funcname line col w =
        if_called (not s.enabled || leb_ℤ line (pos 0)) (s, [], false) _ w
          (trace_at-IsWellFormed s filename funcname line col w)
