-- ===== src/Session/Capture/Ids.antt =====
-- What capturing the frames leaves in the object store: ids are handed out from 1 on, and those that
-- have not been handed out stand for nothing.
use quick_js_debugger.Prelude.{ℕ, suc, ◌≤◌, ◌≡◌, List, [], ◌∷◌, Option, none, some}
use quick_js_debugger.Prelude.Int.{pos}
use quick_js_debugger.Text.Bytes.{Bytes}
use quick_js_debugger.Json.Floats.{Floats}
use quick_js_debugger.Json.Value.{Value, end, lookup, array, nil}
use quick_js_debugger.Session.Engine.{Engine}
use quick_js_debugger.Session.Paths.{Platform}
use quick_js_debugger.Session.Remote.{Store, object_id, max_depth, remote_object}
use quick_js_debugger.Session.Remote.Ids.{
  Extends, Extends-refl, Extends-trans, store_object-Extends, walk_object-Extends,
  remote_object-Extends,
}
use quick_js_debugger.Session.Capture.{
  walk_locals, scope_of, local_scope, global_scope, frame_object, frame_objects, capture_frames,
}
use quick_js_debugger.Session.State.{FrameInfo, ScriptInfo, Session}

-- The ids that have not been handed out stand for nothing.
abbrev pub IsIssued : {N : Type 0} → Session N → Type 0
IsIssued s = (n : ℕ) → s.next_obj_id ≤ n → lookup (object_id n) s.object_store ≡ none

module _ {N V : Type 0} ⦃fl : Floats N⦄ (e : Engine N V) where
  walk_locals-Extends :
      (vars : List (Option Bytes × V)) (st : Store N) (props : Value N)
      → Extends st (walk_locals e vars st props).0
  unfolding walk_locals
  walk_locals-Extends [] st props = Extends-refl st
  walk_locals-Extends ((name, val) ∷ vars) st props =
      Extends-trans (remote_object-Extends e max_depth st val) (walk_locals-Extends vars _ _)

  scope_of-Extends :
      (vars : Option (List (Option Bytes × V))) (fi : FrameInfo) (st : Store N) (chain : Value N)
      → Extends st (scope_of e vars fi st chain).0
  unfolding scope_of
  scope_of-Extends none fi st chain = Extends-refl st
  scope_of-Extends (some []) fi st chain = Extends-refl st
  scope_of-Extends (some (var ∷ vars)) fi st chain =
      Extends-trans (walk_locals-Extends (var ∷ vars) st (array nil)) (store_object-Extends _ _)

  global_scope-Extends : (st : Store N) (chain : Value N) → Extends st (global_scope e st chain).0
  unfolding global_scope
  global_scope-Extends st chain =
      Extends-trans
        (walk_object-Extends e 50 (remote_object e max_depth) e.global st
          (remote_object-Extends e max_depth))
        (store_object-Extends _ _)

  module _ (pf : Platform) (scripts : List ScriptInfo) where
    frame_object-Extends :
        (level : ℕ) (fi : FrameInfo) (st : Store N)
        → Extends st (frame_object e pf scripts level fi st).0
    unfolding frame_object local_scope
    frame_object-Extends level fi st =
        Extends-trans (scope_of-Extends (e.locals (pos level)) fi st (array nil))
          (global_scope-Extends _ (scope_of e (e.locals (pos level)) fi st (array nil)).1)

    frame_objects-Extends :
        (level : ℕ) (fs : List FrameInfo) (st : Store N) (frames : Value N)
        → Extends st (frame_objects e pf scripts level fs st frames).0
    unfolding frame_objects
    frame_objects-Extends level [] st frames = Extends-refl st
    frame_objects-Extends level (fi ∷ fs) st frames =
        Extends-trans (frame_object-Extends level fi st) (frame_objects-Extends (suc level) fs _ _)

  pub capture_frames-IsIssued :
      (pf : Platform) (s : Session N) (top : FrameInfo) → IsIssued (capture_frames e pf s top)
  unfolding capture_frames lookup
  capture_frames-IsIssued pf s top n h =
      (frame_objects-Extends pf s.scripts 0 _ (record { objects = end; next_id = 1 })
          (array nil)).leaves
        n h
