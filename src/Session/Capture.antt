-- ===== src/Session/Capture.antt =====
-- `capture_frames`: the frame stack is brought to the engine's depth, and the call frames are
-- written out with their scopes, innermost first.
pub mod Ids
use quick_js_debugger.Prelude.{
  ℕ, suc, ◌-◌, true, List, [], ◌∷◌, ◌++◌, Option, none, some, if◌then◌else◌, length, drop,
  replicate,
}
use quick_js_debugger.Prelude.Int.{ℤ, pos, ◌-ℤ◌, ltb_ℤ}
use quick_js_debugger.Text.Bytes.{Bytes, codes, is_empty}
use quick_js_debugger.Text.Decimal.{nat_to_string}
use quick_js_debugger.Json.Floats.{Floats}
use quick_js_debugger.Json.Value.{Value, string, array, nil, end, object_of, push, int}
use quick_js_debugger.Session.Engine.{Engine}
use quick_js_debugger.Session.Paths.{Platform, to_file_url}
use quick_js_debugger.Session.Remote.{
  Store, max_depth, store_object, property_of, walk_object, remote_object,
}
use quick_js_debugger.Session.Scripts.{find_script_id}
use quick_js_debugger.Session.State.{FrameInfo, no_frame, ScriptInfo, Session}

-- The two loops that pop frames above the depth and push empty ones up to it.
unfoldable pub resize_frames : ℕ → List FrameInfo → List FrameInfo
resize_frames depth fs = replicate (depth - length fs) no_frame ++ drop (length fs - depth) fs

-- The innermost frame takes the position that was reached.
unfoldable pub set_top : FrameInfo → List FrameInfo → List FrameInfo
set_top top [] = []
set_top top (f ∷ fs) = top ∷ fs

unfoldable pub track_frames : ℕ → FrameInfo → List FrameInfo → List FrameInfo
unfolding resize_frames set_top
track_frames depth top fs = set_top top (resize_frames depth fs)

-- A 1-based line or column as a 0-based one.
abbrev pub zero_based : ℤ → ℤ
zero_based n = if ltb_ℤ (pos 0) n then n -ℤ pos 1 else pos 0

abbrev pub name_of : FrameInfo → Bytes
name_of fi = if is_empty fi.funcname then codes "(anonymous)" else fi.funcname

abbrev text_or_empty : Option Bytes → Bytes
text_or_empty none = []
text_or_empty (some s) = s

module _ {N V : Type 0} ⦃fl : Floats N⦄ (e : Engine N V) where
  -- The loop over a frame's local variables.
  unfoldable pub walk_locals : List (Option Bytes × V) → Store N → Value N → Store N × Value N
  walk_locals [] st props = (st, props)
  walk_locals ((name, val) ∷ vars) st props =
      let (st', ro) = remote_object e max_depth st val in
      walk_locals vars st' (push props (property_of (text_or_empty name) ro true))

  scope_object : Bytes → Value N
  scope_object oid = object_of (
      (codes "type", string (codes "object"))
      ∷ (codes "className", string (codes "Object"))
      ∷ (codes "objectId", string oid)
      ∷ [])

  -- The local scope, if the frame has variables.
  pub scope_of :
      Option (List (Option Bytes × V)) → FrameInfo → Store N → Value N → Store N × Value N
  unfolding walk_locals scope_object
  scope_of none fi st chain = (st, chain)
  scope_of (some []) fi st chain = (st, chain)
  scope_of (some (var ∷ vars)) fi st chain =
      let (st₁, props) = walk_locals (var ∷ vars) st (array nil) in
      let (st₂, oid) = store_object st₁ props in
      (
        st₂,
        push chain (
            object_of (
              (codes "type", string (codes "local"))
              ∷ (codes "object", scope_object oid)
              ∷ (codes "name", string (name_of fi))
              ∷ [])),
      )

  unfoldable pub local_scope : ℕ → FrameInfo → Store N → Value N → Store N × Value N
  unfolding scope_of
  local_scope level fi st chain = scope_of (e.locals (pos level)) fi st chain

  -- The global scope, with at most fifty of its properties.
  unfoldable pub global_scope : Store N → Value N → Store N × Value N
  unfolding scope_object
  global_scope st chain =
      let (st₁, props) = walk_object e 50 (remote_object e max_depth) e.global st in
      let (st₂, oid) = store_object st₁ props in
      (
        st₂,
        push chain (
            object_of
              ((codes "type", string (codes "global")) ∷ (codes "object", scope_object oid) ∷ [])),
      )

  module _ (pf : Platform) (scripts : List ScriptInfo) where
    -- One call frame.
    unfoldable pub frame_object : ℕ → FrameInfo → Store N → Store N × Value N
    unfolding local_scope global_scope
    frame_object level fi st =
        let (st₁, chain₁) = local_scope level fi st (array nil) in
        let (st₂, chain₂) = global_scope st₁ chain₁ in
        (
          st₂,
          object_of (
              (codes "callFrameId", string (nat_to_string level))
              ∷ (codes "functionName", string (name_of fi))
              ∷ (
                codes "location",
                object_of (
                    (codes "scriptId", string (find_script_id pf scripts fi.filename))
                    ∷ (codes "lineNumber", int (zero_based fi.line))
                    ∷ (codes "columnNumber", int (zero_based fi.col))
                    ∷ []),
              )
              ∷ (codes "url", string (to_file_url fi.filename))
              ∷ (codes "scopeChain", chain₂)
              ∷ (
                codes "this",
                object_of (
                    (codes "type", string (codes "object"))
                    ∷ (codes "className", string (codes "global"))
                    ∷ []),
              )
              ∷ []),
        )

    -- The frames from `level` on.
    unfoldable pub frame_objects : ℕ → List FrameInfo → Store N → Value N → Store N × Value N
    frame_objects level [] st frames = (st, frames)
    frame_objects level (fi ∷ fs) st frames =
        let (st', frame) = frame_object level fi st in
        frame_objects (suc level) fs st' (push frames frame)

  unfoldable pub capture_frames : Platform → Session N → FrameInfo → Session N
  capture_frames pf s top =
      let stack = track_frames e.stack_depth top s.frame_stack in
      let (st, frames) =
        frame_objects pf s.scripts 0 stack (record { objects = end; next_id = 1 }) (array nil) in
      record s {
        frame_stack = stack;
        object_store = st.objects;
        next_obj_id = st.next_id;
        captured_frames = frames;
      }
