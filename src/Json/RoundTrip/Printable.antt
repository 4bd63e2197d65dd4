-- ===== src/Json/RoundTrip/Printable.antt =====
-- The values that survive printing, and lists of items and fields put end to end.
use quick_js_debugger.Prelude.{◌≡◌, refl, ap}
use quick_js_debugger.Prelude.Int.{ℤ}
use quick_js_debugger.Json.Floats.{Floats, IsSmall}
use quick_js_debugger.Json.Value.{
  Value, Items, Fields, null, bool, number, string, array, object, nil, cons, end, field, push_back,
}
use quick_js_debugger.Json.Map.{IsSorted, append_fields}

module _ {N : Type 0} ⦃fl : Floats N⦄ where
  -- The values that the printer keeps: whole numbers up to 10^15 in size, and objects in key order,
  -- which is how a std::map holds them.
  unfoldable mutual
    pub IsPrintable : Value N → Type 0
    IsPrintable null = Unit
    IsPrintable (bool b) = Unit
    IsPrintable (number d) = (i : ℤ) × (d ≡ fl.of_int i) × IsSmall i
    IsPrintable (string s) = Unit
    IsPrintable (array xs) = ItemsPrintable xs
    IsPrintable (object fs) = IsSorted fs × FieldsPrintable fs

    pub ItemsPrintable : Items N → Type 0
    ItemsPrintable nil = Unit
    ItemsPrintable (cons v xs) = IsPrintable v × ItemsPrintable xs

    pub FieldsPrintable : Fields N → Type 0
    FieldsPrintable end = Unit
    FieldsPrintable (field k v fs) = IsPrintable v × FieldsPrintable fs

  abbrev pub append_items : Items N → Items N → Items N
  append_items nil ys = ys
  append_items (cons x xs) ys = cons x (append_items xs ys)

  pub append_items-push_back :
      (xs ys : Items N) (v : Value N)
      → append_items (push_back xs v) ys ≡ append_items xs (cons v ys)
  unfolding push_back
  append_items-push_back nil ys v = refl
  append_items-push_back (cons x xs) ys v = ap (cons x) (append_items-push_back xs ys v)

  pub append_fields_assoc :
      (fs gs hs : Fields N)
      → append_fields (append_fields fs gs) hs ≡ append_fields fs (append_fields gs hs)
  append_fields_assoc end gs hs = refl
  append_fields_assoc (field k v fs) gs hs = ap (field k v) (append_fields_assoc fs gs hs)

  pub append_items_nil : (xs : Items N) → append_items xs nil ≡ xs
  append_items_nil nil = refl
  append_items_nil (cons x xs) = ap (cons x) (append_items_nil xs)

  pub append_fields_end : (fs : Fields N) → append_fields fs end ≡ fs
  append_fields_end end = refl
  append_fields_end (field k v fs) = ap (field k v) (append_fields_end fs)
