-- ===== src/Session/Evaluate/Properties.antt =====
-- What the client reads of an object while it evaluates expressions.
use quick_js_debugger.Prelude.{
  ℕ, ◌<◌, ◌≡◌, ◌∙◌, arith, refl, ap, Bool, true, false, Option, none, some, ◌⊎◌, inl, inr,
  if◌then◌else◌, [], ◌∷◌,
}
use quick_js_debugger.Text.Bytes.{Bytes, codes}
use quick_js_debugger.Json.Floats.{Floats}
use quick_js_debugger.Json.Value.{Value, lookup, object_of, array, nil}
use quick_js_debugger.Session.Capture.Ids.{IsIssued}
use quick_js_debugger.Session.Engine.{Engine}
use quick_js_debugger.Session.Evaluate.{
  get_properties, thrown_result, value_result, frame_variable, answer_eval, evaluate_on_call_frame,
}
use quick_js_debugger.Session.Remote.{Store, object_id, max_depth}
use quick_js_debugger.Session.Remote.Ids.{Extends, Extends-refl, remote_object-Extends}
use quick_js_debugger.Session.State.{Session}

module _ {N V : Type 0} ⦃fl : Floats N⦄ (e : Engine N V) where
  evaluated_globally-Extends :
      (st : Store N) (r : Option Bytes ⊎ V)
      → Extends st
          (elim r as (λ _. Store N × Value N) [
            | inl text ↦ (st, thrown_result e text)
            | inr v ↦ value_result e st v
          ]).0
  unfolding value_result
  evaluated_globally-Extends st (inl text) = Extends-refl st
  evaluated_globally-Extends st (inr v) = remote_object-Extends e max_depth st v

  answer_eval-Extends :
      (st : Store N) (call_frame_id expression : Bytes)
      → Extends st (answer_eval e st call_frame_id expression).0
  unfolding answer_eval value_result
  answer_eval-Extends st call_frame_id expression =
      found (frame_variable e call_frame_id expression)
    where
      found :
          (o : Option V)
          → Extends st
              (elim o as (λ _. Store N × Value N) [
                | some v ↦ value_result e st v
                | none ↦ elim (e.eval_global expression) as (λ _. Store N × Value N) [
                  | inl text ↦ (st, thrown_result e text)
                  | inr v ↦ value_result e st v
                ]
              ]).0
      found (some v) = remote_object-Extends e max_depth st v
      found none = evaluated_globally-Extends st (e.eval_global expression)

  -- Evaluating an expression changes no properties of the objects whose ids were handed out before,
  -- paused or not, whether the evaluation succeeds or throws.
  pub get_properties-evaluate_on_call_frame :
      (s : Session N) (call_frame_id expression : Bytes) (n : ℕ)
      → n < s.next_obj_id
      → get_properties (evaluate_on_call_frame e s call_frame_id expression).0 (object_id n)
        ≡ get_properties s (object_id n)
  unfolding evaluate_on_call_frame get_properties
  get_properties-evaluate_on_call_frame s call_frame_id expression n h =
      kept s.paused _ _ ((answer_eval-Extends st call_frame_id expression).keeps n h) refl
    where
      st : Store N
      st = record { objects = s.object_store; next_id = s.next_obj_id }

      answered : Option (Value N) → Value N
      answered none = object_of ((codes "result", array nil) ∷ [])
      answered (some props) = object_of ((codes "result", props) ∷ [])

      shown : Session N × Value N → Option (Value N)
      shown out = lookup (object_id n) out.0.object_store

      kept :
          (b : Bool) (x y : Session N × Value N)
          → shown x ≡ lookup (object_id n) s.object_store
          → shown y ≡ lookup (object_id n) s.object_store
          → answered (shown (if b then x else y)) ≡ answered (lookup (object_id n) s.object_store)
      kept true x y hx hy = ap answered hx
      kept false x y hx hy = ap answered hy

  -- Evaluating hands out ids that stood for nothing before.
  pub evaluate_on_call_frame-IsIssued :
      (s : Session N) (call_frame_id expression : Bytes)
      → IsIssued s
      → IsIssued (evaluate_on_call_frame e s call_frame_id expression).0
  unfolding evaluate_on_call_frame
  evaluate_on_call_frame-IsIssued s call_frame_id expression w =
      chosen s.paused _ _ (λ n h. grown.leaves n h ∙ w n (omega (arith, grown.grows, h))) w
    where
      st : Store N
      st = record { objects = s.object_store; next_id = s.next_obj_id }

      after : Store N × Value N
      after = answer_eval e st call_frame_id expression

      grown : Extends st after.0
      grown = answer_eval-Extends st call_frame_id expression

      chosen :
          (b : Bool) (x y : Session N × Value N)
          → IsIssued x.0
          → IsIssued y.0
          → IsIssued (if b then x else y).0
      chosen true x y hx hy = hx
      chosen false x y hx hy = hy
