-- ===== src/Session/Registry.antt =====
-- The registry of debug_session.cpp: which session a JavaScript context belongs to, and
-- `debug_trace_handler` through it. Contexts and sessions are known by their addresses; the mutex
-- makes each operation one step.
use quick_js_debugger.Prelude.{
  ℕ, ◌≡◌, ◌≢◌, refl, ap, ◌∙◌, Bool, false, List, [], ◌∷◌, Option, none, some, ◌==◌, if◌then◌else◌,
  arith,
}
use quick_js_debugger.Prelude.Int.{ℤ}
use quick_js_debugger.Text.Bytes.{Bytes}
use quick_js_debugger.Json.Floats.{Floats}
use quick_js_debugger.Session.Engine.{Engine}
use quick_js_debugger.Session.Paths.{Platform}
use quick_js_debugger.Session.State.{Session, Event}
use quick_js_debugger.Session.Trace.{debug_trace_handler}

-- `g_ctx_session_map`.
abbrev pub Registry : Type 0
Registry = List (ℕ × ℕ)

unfoldable pub register_for_context : Registry → ℕ → ℕ → Registry
register_for_context [] ctx session = (ctx, session) ∷ []
register_for_context ((c, s) ∷ reg) ctx session =
    let rest = register_for_context reg ctx session in
    if c == ctx then (ctx, session) ∷ reg else (c, s) ∷ rest

unfoldable pub unregister_context : Registry → ℕ → Registry
unregister_context [] ctx = []
unregister_context ((c, s) ∷ reg) ctx =
    let rest = unregister_context reg ctx in if c == ctx then rest else (c, s) ∷ rest

unfoldable pub find_for_context : Registry → ℕ → Option ℕ
find_for_context [] ctx = none
find_for_context ((c, s) ∷ reg) ctx = if c == ctx then some s else find_for_context reg ctx

find-register :
    (reg : Registry) (ctx s : ℕ) → find_for_context (register_for_context reg ctx s) ctx ≡ some s
unfolding find_for_context register_for_context
find-register [] ctx s = ground arith
find-register ((c, t) ∷ reg) ctx s = ground (arith, find-register reg ctx s)

find-register_other :
    (reg : Registry) (ctx other s : ℕ)
    → other ≢ ctx
    → find_for_context (register_for_context reg ctx s) other ≡ find_for_context reg other
unfolding find_for_context register_for_context
find-register_other [] ctx other s h = ground arith
find-register_other ((c, t) ∷ reg) ctx other s h =
    ground (arith, find-register_other reg ctx other s h)

find-unregister :
    (reg : Registry) (ctx : ℕ) → find_for_context (unregister_context reg ctx) ctx ≡ none
unfolding find_for_context unregister_context
find-unregister [] ctx = refl
find-unregister ((c, t) ∷ reg) ctx = ground (arith, find-unregister reg ctx)

module _ {N : Type 0} where
  abbrev pub put_session : ℕ → Session N → (ℕ → Session N) → ℕ → Session N
  put_session id s sessions other = if other == id then s else sessions other

put_session_other :
    {N : Type 0} (id other : ℕ) (s : Session N) (sessions : ℕ → Session N)
    → other ≢ id
    → put_session id s sessions other ≡ sessions other
put_session_other id other s sessions ne = ground arith

module _ {N V : Type 0} ⦃fl : Floats N⦄ (e : Engine N V) (pf : Platform) where
  -- The handler behind the lookup of its session: nothing where there is none.
  unfoldable pub trace_session :
      Option ℕ
      → (ℕ → Session N)
      → Option Bytes
      → Option Bytes
      → ℤ
      → ℤ
      → (ℕ → Session N) × List (Event N) × Bool
  trace_session none sessions filename funcname line col = (sessions, [], false)
  trace_session (some id) sessions filename funcname line col =
      let (s, events, stopped) =
        debug_trace_handler e pf (sessions id) filename funcname line col in
      (put_session id s sessions, events, stopped)

  unfoldable pub trace_context :
      Registry
      → (ℕ → Session N)
      → ℕ
      → Option Bytes
      → Option Bytes
      → ℤ
      → ℤ
      → (ℕ → Session N) × List (Event N) × Bool
  unfolding trace_session
  trace_context reg sessions ctx filename funcname line col =
      trace_session (find_for_context reg ctx) sessions filename funcname line col

module _ {N V : Type 0} ⦃fl : Floats N⦄ (e : Engine N V) (pf : Platform) where
  -- With a session registered for a context, a call of the handler in that context is one of that
  -- session, which leaves every other session as it is; calls in other contexts are what they were
  -- before; and once the context is unregistered, a call in it does nothing.
  pub trace_context-register :
      (reg : Registry) (sessions : ℕ → Session N) (ctx other id : ℕ)
      (filename funcname : Option Bytes) (line col : ℤ)
      → other ≢ ctx
      → (trace_context e pf
            (register_for_context reg ctx id)
            sessions
            ctx
            filename
            funcname
            line
            col
          ≡ (let (s, events, stopped) =
                debug_trace_handler e pf (sessions id) filename funcname line col in
              (put_session id s sessions, events, stopped)))
        × ((i : ℕ)
            → i ≢ id
            → (trace_context e pf
                  (register_for_context reg ctx id)
                  sessions
                  ctx
                  filename
                  funcname
                  line
                  col).0
                i
              ≡ sessions i)
        × (trace_context e pf
              (register_for_context reg ctx id)
              sessions
              other
              filename
              funcname
              line
              col
            ≡ trace_context e pf reg sessions other filename funcname line col)
        × (trace_context e pf (unregister_context reg ctx) sessions ctx filename funcname line col
            ≡ (sessions, [], false))
  unfolding trace_context
  trace_context-register reg sessions ctx other id filename funcname line col h =
      let run =
        λ (found : Option ℕ). trace_session e pf found sessions filename funcname line col in
      let here = ap run (find-register reg ctx id) in
      (
        here,
        (λ i ne. ap (λ r. r.0 i) here ∙ put_session_other id i _ sessions ne),
        ap run (find-register_other reg ctx other id h),
        ap run (find-unregister reg ctx),
      )
