-- ===== src/Json/Parse.antt =====
-- `Value::parse` of json.h: recursive descent with one unit of fuel for each call or round of a
-- loop. Whatever follows the value is ignored, as in the source.
use quick_js_debugger.Prelude.{
  ℕ, zero, suc, ◌+◌, ◌*◌, true, false, ◌||◌, [], ◌∷◌, ◌==◌, if◌then◌else◌, length, drop,
}
use quick_js_debugger.Text.Bytes.{Bytes, codes}
use quick_js_debugger.Text.Search.{starts_with}
use quick_js_debugger.Json.Floats.{Floats}
use quick_js_debugger.Json.Value.{
  Value, Items, Fields, null, bool, number, array, object, nil, end, insert, push_back,
}
use quick_js_debugger.Json.Result.{Result, ok, out_of_fuel, ◌>>=◌, or_throw}
use quick_js_debugger.Json.Scan.{skip_ws, next_is, parse_string, span_number}

-- Past `c`, if it comes next.
abbrev pub skip_byte : ℕ → Bytes → Bytes
skip_byte c s = if next_is c s then drop 1 s else s

module _ {N : Type 0} where
  -- `s.compare(p, n, word) == 0` holds where the word comes next.
  unfoldable pub parse_bool : Bytes → Value N × Bytes
  parse_bool s =
      if starts_with (codes "true") s
      then (bool true, drop 4 s)
      else if starts_with (codes "false") s
      then (bool false, drop 5 s)
      else (null, s)

  unfoldable pub parse_null : Bytes → Value N × Bytes
  parse_null s = if starts_with (codes "null") s then (null, drop 4 s) else (null, s)

  -- Behind the last member or element: the closing bracket is optional.
  abbrev pub close : ℕ → Value N → Bytes → Value N × Bytes
  close c v s = (v, skip_byte c (skip_ws s))

module _ {N : Type 0} ⦃fl : Floats N⦄ where
  unfoldable pub parse_number : Bytes → Result (Value N × Bytes)
  parse_number s =
      let (text, rest) = span_number s in do d ← or_throw (fl.stod text); ok (number d, rest)

  unfoldable mutual
    -- `parse_value`, behind its `skip_ws`, and with `parse_object` and `parse_array` in their cases.
    pub parse_value : ℕ → Bytes → Result (Value N × Bytes)
    parse_value zero s = out_of_fuel
    parse_value (suc f) s = parse_token f (skip_ws s)

    pub parse_token : ℕ → Bytes → Result (Value N × Bytes)
    parse_token zero s = out_of_fuel
    parse_token (suc f) [] = ok (null, [])
    parse_token (suc f) (c ∷ s) =
        let str = (do (r, rest) ← parse_string s; ok (Value.string r, rest)) in
        let obj =
          if next_is b'}' (skip_ws s)
          then ok (object end, drop 1 (skip_ws s))
          else parse_members f end (skip_ws s) in
        let arr =
          if next_is b']' (skip_ws s)
          then ok (array nil, drop 1 (skip_ws s))
          else parse_items f nil (skip_ws s) in
        if c == b'"'
        then str
        else if c == b'{'
        then obj
        else if c == b'['
        then arr
        else if c == b't' || c == b'f'
        then ok (parse_bool (c ∷ s))
        else if c == b'n'
        then ok (parse_null (c ∷ s))
        else parse_number (c ∷ s)

    -- The loop of `parse_object`, over the members read so far.
    pub parse_members : ℕ → Fields N → Bytes → Result (Value N × Bytes)
    parse_members zero fs s = out_of_fuel
    parse_members (suc f) fs s =
        let member = do
          (k, s₁) ← parse_string (drop 1 (skip_ws s))
          (v, s₂) ← parse_value f (skip_byte b':' (skip_ws s₁))
          parse_next_member f (insert k v fs) (skip_ws s₂)
        in if next_is b'"' (skip_ws s) then member else ok (close b'}' (object fs) (skip_ws s))

    pub parse_next_member : ℕ → Fields N → Bytes → Result (Value N × Bytes)
    parse_next_member zero fs s = out_of_fuel
    parse_next_member (suc f) fs s =
        let more = parse_members f fs (drop 1 s) in
        if next_is b',' s then more else ok (close b'}' (object fs) s)

    -- The loop of `parse_array`, over the elements read so far.
    pub parse_items : ℕ → Items N → Bytes → Result (Value N × Bytes)
    parse_items zero xs s = out_of_fuel
    parse_items (suc f) xs [] = ok (close b']' (array xs) [])
    parse_items (suc f) xs (c ∷ s) = do
      (v, s₁) ← parse_value f (c ∷ s)
      parse_next_item f (push_back xs v) (skip_ws s₁)

    pub parse_next_item : ℕ → Items N → Bytes → Result (Value N × Bytes)
    parse_next_item zero xs s = out_of_fuel
    parse_next_item (suc f) xs s =
        let more = parse_items f xs (drop 1 s) in
        if next_is b',' s then more else ok (close b']' (array xs) s)

  -- `Value::parse`.
  unfoldable pub parse_with : ℕ → Bytes → Result (Value N)
  parse_with fuel s = do (v, rest) ← parse_value fuel s; ok v

  -- Three calls for each byte are enough.
  unfoldable pub parse : Bytes → Result (Value N)
  unfolding parse_with
  parse s = parse_with (3 * length s + 3) s
