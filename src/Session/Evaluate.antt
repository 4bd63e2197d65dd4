-- ===== src/Session/Evaluate.antt =====
-- What a paused script is asked: `get_properties`, and `evaluate_on_call_frame` with the part of
-- `do_pause`'s loop that answers it. The request is modelled as answered once, by the script's
-- thread in its wait.
pub mod Properties
use quick_js_debugger.Prelude.{
  ℕ, Bool, true, false, List, [], ◌∷◌, Option, none, some, if◌then◌else◌, ◌⊎◌, inl, inr,
}
use quick_js_debugger.Prelude.Int.{ℤ, pos}
use quick_js_debugger.Text.Bytes.{Bytes, codes, equal}
use quick_js_debugger.Text.Decimal.{stoi}
use quick_js_debugger.Json.Floats.{Floats}
use quick_js_debugger.Json.Value.{Value, string, array, nil, object, end, object_of, lookup}
use quick_js_debugger.Session.Engine.{Engine}
use quick_js_debugger.Session.Remote.{Store, max_depth, remote_object}
use quick_js_debugger.Session.State.{Session}

module _ {N : Type 0} where
  unfoldable pub get_properties : Session N → Bytes → Value N
  get_properties s object_id = elim (lookup object_id s.object_store) [
    | none ↦ object_of ((codes "result", array nil) ∷ [])
    | some props ↦ object_of ((codes "result", props) ∷ [])
  ]

  -- The RemoteObject of no value.
  abbrev pub undefined_result : Value N
  undefined_result =
      object_of ((codes "result", object_of ((codes "type", string (codes "undefined")) ∷ [])) ∷ [])

module _ {N V : Type 0} ⦃fl : Floats N⦄ (e : Engine N V) where
  -- The first variable of a name.
  find_variable : Bytes → List (Option Bytes × V) → Option V
  find_variable name [] = none
  find_variable name ((none, v) ∷ vars) = find_variable name vars
  find_variable name ((some n, v) ∷ vars) = if equal name n then some v else find_variable name vars

  -- The answer to an evaluation that threw.
  pub thrown_result : Option Bytes → Value N
  thrown_result text = object_of (
      (
        codes "result",
        object_of (
            (codes "type", string (codes "object"))
            ∷ (codes "subtype", string (codes "error"))
            ∷ (codes "className", string (codes "Error"))
            ∷ (codes "description", string (elim text [ none ↦ codes "Error" | some t ↦ t ]))
            ∷ []),
      )
      ∷ (codes "exceptionDetails", object end)
      ∷ [])

  pub value_result : Store N → V → Store N × Value N
  value_result st v =
      let (st', ro) = remote_object e max_depth st v in (st', object_of ((codes "result", ro) ∷ []))

  -- A frame id that is no number is taken for the innermost frame.
  frame_level : Bytes → ℤ
  frame_level call_frame_id = elim (stoi call_frame_id) [ none ↦ pos 0 | some n ↦ n ]

  pub frame_variable : Bytes → Bytes → Option V
  unfolding find_variable frame_level
  frame_variable call_frame_id expression = elim (e.locals (frame_level call_frame_id)) [
    | none ↦ none
    | some vars ↦ find_variable expression vars
  ]

  -- The answer of the script's thread: a local variable of that name, or else a global evaluation.
  unfoldable pub answer_eval : Store N → Bytes → Bytes → Store N × Value N
  unfolding frame_variable thrown_result value_result
  answer_eval st call_frame_id expression = elim (frame_variable call_frame_id expression) [
    | some v ↦ value_result st v
    | none ↦ elim (e.eval_global expression) [
      | inl text ↦ (st, thrown_result text)
      | inr v ↦ value_result st v
    ]
  ]

  unfoldable pub evaluate_on_call_frame : Session N → Bytes → Bytes → Session N × Value N
  unfolding answer_eval
  evaluate_on_call_frame s call_frame_id expression =
      let (st, answer) =
        answer_eval (record { objects = s.object_store; next_id = s.next_obj_id }) call_frame_id
          expression in
      if s.paused
      then (record s { object_store = st.objects; next_obj_id = st.next_id }, answer)
      else (s, undefined_result)
