-- ===== src/Program/Console.antt =====
-- `js_console_log`, which all methods of `console` are: the line that is printed, and the event that
-- the client is sent.
pub mod Setup
use quick_js_debugger.Prelude.{
  ◌≡◌, refl, sym, ap, ◌∙◌, List, append_assoc, append-nil, [], ◌∷◌, ◌++◌, map, Option, none, some,
}
use quick_js_debugger.Prelude.Int.{pos}
use quick_js_debugger.Text.Bytes.{Bytes, codes, compare_bytes, equal}
use quick_js_debugger.Json.Floats.{Floats}
use quick_js_debugger.Json.Value.{
  Value, Items, nil, cons, array, string, number, object_of, set_all, push, push_back, at,
  get_string, int, lookup, insert,
}
use quick_js_debugger.Session.Engine.{Engine}
use quick_js_debugger.Session.State.{Event}

-- The pieces of a line, with blanks between them.
unfoldable pub join : List Bytes → Bytes
join [] = []
join (a ∷ []) = a
join (a ∷ b ∷ rest) = a ++ (b' ' ∷ join (b ∷ rest))

abbrev pub or_nothing : Option Bytes → Bytes
or_nothing none = []
or_nothing (some s) = s

module _ {N V : Type 0} ⦃fl : Floats N⦄ (e : Engine N V) where
  -- What is printed, in front of the newline.
  unfoldable pub console_line : List V → Bytes
  unfolding join
  console_line args = join (map (λ v. or_nothing (e.to_cstring v)) args)

  unfoldable pub console_argument : V → Value N
  console_argument v = elim (e.to_cstring v) [
    | some str ↦
        object_of ((codes "type", string (codes "string")) ∷ (codes "value", string str) ∷ [])
    | none ↦ object_of ((codes "type", string (codes "undefined")) ∷ [])
  ]

  -- `args.push(arg)` for each argument.
  unfoldable pub push_arguments : Value N → List V → Value N
  unfolding console_argument
  push_arguments shown [] = shown
  push_arguments shown (v ∷ vs) = push_arguments (push shown (console_argument v)) vs

  -- The event, for a time in milliseconds.
  unfoldable pub console_event : N → List V → Event N
  unfolding push_arguments
  console_event ms args = record {
    method = codes "Runtime.consoleAPICalled";
    params = object_of (
        (codes "type", string (codes "log"))
        ∷ (codes "args", push_arguments (array nil) args)
        ∷ (codes "executionContextId", int (pos 1))
        ∷ (codes "timestamp", number ms)
        ∷ []);
  }

-- The texts of the arguments of an event, in order.
abbrev pub item_texts : {N : Type 0} → Items N → List Bytes
item_texts nil = []
item_texts (cons x xs) = get_string (at x (codes "value")) ∷ item_texts xs

abbrev pub texts_of : {N : Type 0} → Value N → List Bytes
texts_of (array xs) = item_texts xs
texts_of _ = []

module _ {N V : Type 0} ⦃fl : Floats N⦄ (e : Engine N V) where
  argument_text :
      (v : V) → get_string (at (console_argument e v) (codes "value")) ≡ or_nothing (e.to_cstring v)
  unfolding console_argument set_all insert compare_bytes at lookup equal
  argument_text v =
      elim (e.to_cstring v)
        as (λ o.
          get_string (
            at
              (elim o as (λ _. Value N) [
                | some str ↦
                    object_of
                      ((codes "type", string (codes "string")) ∷ (codes "value", string str) ∷ [])
                | none ↦ object_of ((codes "type", string (codes "undefined")) ∷ [])
              ])
              (codes "value"))
          ≡ or_nothing o) [ some str ↦ refl | none ↦ refl ]

  item_texts-push_back :
      (xs : Items N) (v : V)
      → item_texts (push_back xs (console_argument e v))
        ≡ item_texts xs ++ (or_nothing (e.to_cstring v) ∷ [])
  unfolding push_back
  item_texts-push_back nil v = ap (λ t. t ∷ []) (argument_text v)
  item_texts-push_back (cons x xs) v =
      ap (◌∷◌ (get_string (at x (codes "value")))) (item_texts-push_back xs v)

  texts_of-push_arguments :
      (vs : List V) (xs : Items N)
      → texts_of (push_arguments e (array xs) vs)
        ≡ item_texts xs ++ map (λ v. or_nothing (e.to_cstring v)) vs
  unfolding push_arguments push
  texts_of-push_arguments [] xs = sym (append-nil (item_texts xs))
  texts_of-push_arguments (v ∷ vs) xs =
      texts_of-push_arguments vs (push_back xs (console_argument e v))
      ∙ ap (λ front. front ++ map (λ w. or_nothing (e.to_cstring w)) vs) (item_texts-push_back xs v)
      ∙ append_assoc (item_texts xs) (or_nothing (e.to_cstring v) ∷ [])
          (map (λ w. or_nothing (e.to_cstring w)) vs)

  -- The line that is printed is made of the arguments that the client is shown: their values in
  -- order, with blanks between them, where an argument without a text has none.
  console_line-console_event :
      (ms : N) (args : List V)
      → console_line e args ≡ join (texts_of (at (console_event e ms args).params (codes "args")))
  unfolding console_line console_event set_all insert compare_bytes at lookup equal
  console_line-console_event ms args = ap join (sym (texts_of-push_arguments args nil))
