-- ===== src/Json/RoundTrip/Values.antt =====
-- A printed value is read back, with any text behind it.
use quick_js_debugger.Prelude.{
  ℕ, zero, suc, ◌+◌, ◌*◌, ◌≤◌, ◌≡◌, refl, ap, ◌∙◌, true, false, [], ◌∷◌, ◌++◌, arith, append-nil,
  append_assoc, length, length-append,
}
use quick_js_debugger.Text.Bytes.{Bytes}
use quick_js_debugger.Text.Search.{starts_with}
use quick_js_debugger.Text.Decimal.{to_string}
use quick_js_debugger.Json.Floats.{Floats, IsExact}
use quick_js_debugger.Json.Value.{
  Value, Items, Fields, null, bool, number, string, array, object, nil, cons, end, field, push_back,
}
use quick_js_debugger.Json.Map.{IsSorted, KeysBelow, KeysBelow-append, append_fields, insert_last}
use quick_js_debugger.Json.Print.{
  escape, print_string, serialize, serialize_items, serialize_fields,
}
use quick_js_debugger.Json.Result.{ok}
use quick_js_debugger.Json.Scan.{skip_ws}
use quick_js_debugger.Json.Parse.{
  parse_bool, parse_null, parse_number, parse_value, parse_members, parse_next_member, parse_items,
  parse_next_item, parse, parse_with,
}
use quick_js_debugger.Json.RoundTrip.Strings.{parse_string-escape}
use quick_js_debugger.Json.RoundTrip.Numbers.{delimits, print_number_small, parse_number-to_string}
use quick_js_debugger.Json.RoundTrip.Front.{Begins, Front, to_string-Front, to_string-Begins}
use quick_js_debugger.Json.RoundTrip.Printable.{
  IsPrintable, ItemsPrintable, FieldsPrintable, append_items, append_items-push_back,
  append_items_nil, append_fields_assoc, append_fields_end,
}

length-pair : (a b : Bytes) (c : ℕ) → length ((a ++ b) ++ c ∷ []) ≡ length a + length b + 1
length-pair a b c = omega (arith, length-append (a ++ b) (c ∷ []), length-append a b)

length-member :
    (k a b : Bytes) → length a + length b + 1 ≤ length (print_string k ++ b':' ∷ (a ++ b))
length-member k a b =
    omega (arith, length-append (print_string k) (b':' ∷ (a ++ b)), length-append a b)

length-object :
    (k a b : Bytes)
    → length a + length b + 2 ≤ length ((print_string k ++ b':' ∷ (a ++ b)) ++ b'}' ∷ [])
length-object k a b =
    omega
      (arith, length-append (print_string k ++ b':' ∷ (a ++ b)) (b'}' ∷ []), length-member k a b)

regroup : (a b : Bytes) (c : ℕ) (rest : Bytes) → ((a ++ b) ++ c ∷ []) ++ rest ≡ a ++ (b ++ c ∷ rest)
regroup a b c rest = simp append_assoc

regroup_member :
    (k a b rest : Bytes)
    → (print_string k ++ b':' ∷ (a ++ b)) ++ rest ≡ print_string k ++ b':' ∷ (a ++ (b ++ rest))
regroup_member k a b rest = simp append_assoc

regroup_object :
    (k a b rest : Bytes)
    → ((print_string k ++ b':' ∷ (a ++ b)) ++ b'}' ∷ []) ++ rest
      ≡ print_string k ++ b':' ∷ (a ++ (b ++ b'}' ∷ rest))
regroup_object k a b rest = simp append_assoc

module _ {N : Type 0} ⦃fl : Floats N⦄ where
  serialize-Begins : IsExact fl → (v : Value N) → IsPrintable v → Begins (serialize v)
  unfolding serialize IsPrintable print_string
  serialize-Begins exact null p = (b'n', _, refl, refl, refl)
  serialize-Begins exact (bool true) p = (b't', _, refl, refl, refl)
  serialize-Begins exact (bool false) p = (b'f', _, refl, refl, refl)
  serialize-Begins exact (number d) (i, e, small) =
      rw (e, print_number_small i exact small) (to_string-Begins i)
  serialize-Begins exact (string s) p = (b'"', _, refl, refl, refl)
  serialize-Begins exact (array xs) p = (b'[', _, refl, refl, refl)
  serialize-Begins exact (object fs) p = (b'{', _, refl, refl, refl)

  -- What follows an element or a member is not skipped, and delimits numbers.
  items_tail :
      (ys : Items N) (rest : Bytes)
      → let t = serialize_items false ys ++ b']' ∷ rest in (skip_ws t ≡ t) × (delimits t ≡ true)
  unfolding serialize skip_ws
  items_tail nil rest = (refl, refl)
  items_tail (cons y ys) rest = (refl, refl)

  fields_tail :
      (fs : Fields N) (rest : Bytes)
      → let t = serialize_fields false fs ++ b'}' ∷ rest in (skip_ws t ≡ t) × (delimits t ≡ true)
  unfolding serialize skip_ws
  fields_tail end rest = (refl, refl)
  fields_tail (field k v fs) rest = (refl, refl)

  parse_items_step :
      (f : ℕ) (acc : Items N) (s t : Bytes) (v : Value N)
      → Begins s
      → skip_ws t ≡ t
      → parse_value f (s ++ t) ≡ ok (v, t)
      → parse_items (suc f) acc (s ++ t) ≡ parse_next_item f (push_back acc v) t
  parse_items_step f acc s t v (c, s', e, blank, bracket) skip read =
      rw e (parse_items_cons c (s' ++ t) (rw e at read) ∙ rw skip)
    where
      parse_items_cons :
          (c : ℕ) (u : Bytes)
          → parse_value f (c ∷ u) ≡ ok (v, t)
          → parse_items (suc f) acc (c ∷ u) ≡ parse_next_item f (push_back acc v) (skip_ws t)
      parse_items_cons c u h = unfold parse_items in rw h

  parse_members_step :
      (f : ℕ) (acc : Fields N) (k s t : Bytes) (v : Value N)
      → skip_ws t ≡ t
      → KeysBelow acc k
      → parse_value f (s ++ t) ≡ ok (v, t)
      → parse_members (suc f) acc (print_string k ++ b':' ∷ (s ++ t))
        ≡ parse_next_member f (append_fields acc (field k v end)) t
  unfolding parse_members print_string skip_ws
  parse_members_step f acc k s t v skip below read = rw (
    append_assoc (escape k) (b'"' ∷ []) (b':' ∷ (s ++ t)),
    parse_string-escape k (b':' ∷ (s ++ t)),
    read,
    skip,
    insert_last k v acc below,
  )

  parse_value_number :
      (f : ℕ) (s rest : Bytes) (v : Value N)
      → Front s
      → parse_number (s ++ rest) ≡ ok (v, rest)
      → parse_value (suc (suc f)) (s ++ rest) ≡ ok (v, rest)
  unfolding parse_value skip_ws
  parse_value_number f s rest v (c, s', e, plain) read =
      rw e
        (let read' : parse_number (c ∷ (s' ++ rest)) ≡ ok (v, rest) = rw e at read in ground arith)

  parse_value_array :
      (f : ℕ) (s t : Bytes)
      → Begins s
      → parse_value {N = N} (suc (suc f)) (b'[' ∷ (s ++ t)) ≡ parse_items f nil (s ++ t)
  unfolding parse_value skip_ws
  parse_value_array f s t (c, s', e, blank, bracket) = rw e (ground arith)

  parse_value_object :
      (f : ℕ) (k u : Bytes)
      → parse_value {N = N} (suc (suc f)) (b'{' ∷ (print_string k ++ u))
        ≡ parse_members f end (print_string k ++ u)
  unfolding parse_value skip_ws print_string
  parse_value_object f k u = refl

  -- Every key of `acc` is below the first of `fs`.
  abbrev Precedes : Fields N → Fields N → Type 0
  Precedes acc end = Unit
  Precedes acc (field k v fs) = KeysBelow acc k

  Precedes-append :
      (acc fs : Fields N) (k : Bytes) (v : Value N)
      → KeysBelow acc k
      → IsSorted (field k v fs)
      → Precedes (append_fields acc (field k v end)) fs
  Precedes-append acc end k v below sorted = tt
  Precedes-append acc (field j w fs) k v below sorted = KeysBelow-append acc k j v below sorted.0

  abbrev IsScalar : Value N → Type 0
  IsScalar (array xs) = ⊥
  IsScalar (object fs) = ⊥
  IsScalar _ = Unit

  -- The scalars.
  parse_value_scalar :
      (f : ℕ) (v : Value N) (rest : Bytes)
      → IsExact fl
      → IsPrintable v
      → delimits rest ≡ true
      → IsScalar v
      → parse_value (suc (suc f)) (serialize v ++ rest) ≡ ok (v, rest)
  unfolding parse_value serialize skip_ws parse_bool parse_null starts_with IsPrintable print_string
  parse_value_scalar f null rest exact p h sc = refl
  parse_value_scalar f (bool true) rest exact p h sc = refl
  parse_value_scalar f (bool false) rest exact p h sc = refl
  parse_value_scalar f (number d) rest exact (i, e, small) h sc =
      rw (e, print_number_small i exact small)
        (parse_value_number f (to_string i) rest (number (fl.of_int i)) (to_string-Front i)
          (parse_number-to_string i rest exact small h))
  parse_value_scalar f (string s) rest exact p h sc =
      rw (append_assoc (escape s) (b'"' ∷ []) rest, parse_string-escape s rest)
  parse_value_scalar f (array xs) rest exact p h sc = elim sc [ ]
  parse_value_scalar f (object fs) rest exact p h sc = elim sc [ ]

  mutual
    unfolding parse_value serialize skip_ws IsPrintable push_back

    parse_value-Reads :
        (v : Value N) (rest : Bytes) (f : ℕ)
        → IsExact fl
        → IsPrintable v
        → delimits rest ≡ true
        → 3 * length (serialize v) + 2 ≤ f
        → parse_value f (serialize v ++ rest) ≡ ok (v, rest)
    parse_value-Reads v rest zero exact p h bound = absurd (omega arith)
    parse_value-Reads v rest (suc zero) exact p h bound = absurd (omega arith)
    parse_value-Reads null rest (suc (suc f)) exact p h bound =
        parse_value_scalar f null rest exact p h tt
    parse_value-Reads (bool b) rest (suc (suc f)) exact p h bound =
        parse_value_scalar f (bool b) rest exact p h tt
    parse_value-Reads (number d) rest (suc (suc f)) exact p h bound =
        parse_value_scalar f (number d) rest exact p h tt
    parse_value-Reads (string s) rest (suc (suc f)) exact p h bound =
        parse_value_scalar f (string s) rest exact p h tt
    parse_value-Reads (array nil) rest (suc (suc f)) exact p h bound = refl
    parse_value-Reads (array (cons v xs)) rest (suc (suc zero)) exact p h bound =
        absurd (omega arith)
    parse_value-Reads (array (cons v xs)) rest (suc (suc (suc f))) exact p h bound =
        let t = serialize_items false xs ++ b']' ∷ rest in
        let size = length-pair (serialize v) (serialize_items false xs) b']' in
        ap (λ s. parse_value {N = N} (suc (suc (suc f))) (b'[' ∷ s))
          (regroup (serialize v) (serialize_items false xs) b']' rest)
        ∙ parse_value_array (suc f) (serialize v) t (serialize-Begins exact v p.0)
        ∙ parse_items_step f nil (serialize v) t v (serialize-Begins exact v p.0)
            (items_tail xs rest).0
            (parse_value-Reads v t f exact p.0 (items_tail xs rest).1 (omega arith))
        ∙ parse_next_item-Reads xs (cons v nil) rest f exact p.1 (omega arith)
    parse_value-Reads (object end) rest (suc (suc f)) exact p h bound = refl
    parse_value-Reads (object (field k v fs)) rest (suc (suc zero)) exact p h bound =
        absurd (omega arith)
    parse_value-Reads (object (field k v fs)) rest (suc (suc (suc f))) exact p h bound =
        let t = serialize_fields false fs ++ b'}' ∷ rest in
        let size = length-object k (serialize v) (serialize_fields false fs) in
        ap (λ s. parse_value {N = N} (suc (suc (suc f))) (b'{' ∷ s))
          (regroup_object k (serialize v) (serialize_fields false fs) rest)
        ∙ parse_value_object (suc f) k (b':' ∷ (serialize v ++ t))
        ∙ parse_members_step f end k (serialize v) t v (fields_tail fs rest).0 tt
            (parse_value-Reads v t f exact p.1.0 (fields_tail fs rest).1 (omega arith))
        ∙ parse_next_member-Reads fs (field k v end) rest f exact p.1.1 p.0.1
            (Precedes-append end fs k v tt p.0) (omega arith)

    parse_next_item-Reads :
        (xs acc : Items N) (rest : Bytes) (f : ℕ)
        → IsExact fl
        → ItemsPrintable xs
        → 3 * length (serialize_items false xs) + 1 ≤ f
        → parse_next_item f acc (serialize_items false xs ++ b']' ∷ rest)
          ≡ ok (array (append_items acc xs), rest)
    parse_next_item-Reads xs acc rest zero exact p bound = absurd (omega arith)
    parse_next_item-Reads nil acc rest (suc f) exact p bound = rw append_items_nil
    parse_next_item-Reads (cons v xs) acc rest (suc zero) exact p bound = absurd (omega arith)
    parse_next_item-Reads (cons v xs) acc rest (suc (suc f)) exact p bound =
        let t = serialize_items false xs ++ b']' ∷ rest in
        let size = length-append (serialize v) (serialize_items false xs) in
        ap (parse_items (suc f) acc)
          (append_assoc (serialize v) (serialize_items false xs) (b']' ∷ rest))
        ∙ parse_items_step f acc (serialize v) t v (serialize-Begins exact v p.0)
            (items_tail xs rest).0
            (parse_value-Reads v t f exact p.0 (items_tail xs rest).1 (omega arith))
        ∙ parse_next_item-Reads xs (push_back acc v) rest f exact p.1 (omega arith)
        ∙ rw append_items-push_back

    parse_next_member-Reads :
        (fs acc : Fields N) (rest : Bytes) (f : ℕ)
        → IsExact fl
        → FieldsPrintable fs
        → IsSorted fs
        → Precedes acc fs
        → 3 * length (serialize_fields false fs) + 1 ≤ f
        → parse_next_member f acc (serialize_fields false fs ++ b'}' ∷ rest)
          ≡ ok (object (append_fields acc fs), rest)
    parse_next_member-Reads fs acc rest zero exact p sorted pre bound = absurd (omega arith)
    parse_next_member-Reads end acc rest (suc f) exact p sorted pre bound = rw append_fields_end
    parse_next_member-Reads (field k v fs) acc rest (suc zero) exact p sorted pre bound =
        absurd (omega arith)
    parse_next_member-Reads (field k v fs) acc rest (suc (suc f)) exact p sorted pre bound =
        let t = serialize_fields false fs ++ b'}' ∷ rest in
        let size = length-member k (serialize v) (serialize_fields false fs) in
        ap (parse_members (suc f) acc)
          (regroup_member k (serialize v) (serialize_fields false fs) (b'}' ∷ rest))
        ∙ parse_members_step f acc k (serialize v) t v (fields_tail fs rest).0 pre
            (parse_value-Reads v t f exact p.0 (fields_tail fs rest).1 (omega arith))
        ∙ parse_next_member-Reads fs (append_fields acc (field k v end)) rest f exact p.1 sorted.1
            (Precedes-append acc fs k v pre sorted) (omega arith)
        ∙ rw append_fields_assoc

  -- A printed value is parsed back to itself, if its numbers are whole and at most 10^15 in size,
  -- its objects are in key order and the doubles are exact on such numbers.
  pub parse-serialize : (v : Value N) → IsExact fl → IsPrintable v → parse (serialize v) ≡ ok v
  unfolding parse parse_with
  parse-serialize v exact p =
      let read =
        rw append-nil at
          (parse_value-Reads v [] (3 * length (serialize v) + 3) exact p refl (omega arith)) in
      rw read
