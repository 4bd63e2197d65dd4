-- ===== src/Session/Remote.antt =====
-- `js_value_to_remote_object` and `store_object`: a JavaScript value as a CDP RemoteObject, and the
-- store of the properties that `Runtime.getProperties` answers from.
pub mod Ids
use quick_js_debugger.Prelude.{
  ℕ, zero, suc, ◌+◌, Bool, true, false, ◌&&◌, ◌||◌, List, [], ◌∷◌, ◌++◌, Option, none, some, not,
  ltb, ◌==◌, if◌then◌else◌, take,
}
use quick_js_debugger.Prelude.Int.{ℤ, pos, negsuc, ltb_ℤ, ◌==ℤ◌}
use quick_js_debugger.Text.Bytes.{Bytes, codes}
use quick_js_debugger.Text.Decimal.{nat_to_string, to_string}
use quick_js_debugger.Json.Floats.{Floats}
use quick_js_debugger.Json.Value.{
  Value, Items, Fields, null, bool, number, string, array, object, nil, cons, insert, object_of,
  set_all, set, push, push_back, int,
}
use quick_js_debugger.Session.Engine.{Engine}

-- `object_store_` and `next_obj_id_`.
pub record Store (N : Type 0) : Type 0 where
  pub objects : Fields N
  pub next_id : ℕ

-- The text of the object id with a number.
unfoldable pub object_id : ℕ → Bytes
object_id n = codes "{\"ordinal\":" ++ (nat_to_string n ++ codes ",\"injectedScriptId\":1}")

-- `kMaxRemoteObjectDepth`.
abbrev pub max_depth : ℕ
max_depth = 1

-- The elements of an array that are walked: none of a negative length, at most 100.
unfoldable pub walked : ℤ → ℕ
walked (pos n) = if ltb n 100 then n else 100
walked (negsuc n) = 0

module _ {N : Type 0} where
  -- The id of the new entry; the object group is not used.
  unfoldable pub store_object : Store N → Value N → Store N × Bytes
  store_object st props = (
    record { objects = insert (object_id st.next_id) props st.objects; next_id = suc st.next_id },
    object_id st.next_id,
  )

  -- A CDP property descriptor.
  unfoldable pub property_of : Bytes → Value N → Bool → Value N
  property_of name value visible = object_of (
      (codes "name", string name)
      ∷ (codes "value", value)
      ∷ (codes "writable", bool true)
      ∷ (codes "configurable", bool visible)
      ∷ (codes "enumerable", bool visible)
      ∷ (codes "isOwn", bool true)
      ∷ [])

  -- Store the properties, and put the object's id into it.
  unfoldable pub with_id : Value N → Store N × Value N → Store N × Value N
  with_id obj (st, props) =
      let (st', oid) = store_object st props in (st', set obj (codes "objectId") (string oid))

module _ {N V : Type 0} ⦃fl : Floats N⦄ (e : Engine N V) where
  -- The loop over the elements, from `i` on; `walk` makes the RemoteObject of one.
  unfoldable pub walk_elements :
      (Store N → V → Store N × Value N) → V → ℕ → ℕ → Store N → Value N → Store N × Value N
  walk_elements walk val i zero st props = (st, props)
  walk_elements walk val i (suc left) st props =
      let (st', ro) = walk st (e.element val i) in
      walk_elements walk val (suc i) left st' (push props (property_of (nat_to_string i) ro true))

  -- The loop over property names; one that has no text is left out.
  unfoldable pub walk_names :
      (Store N → V → Store N × Value N) → V → List ℕ → Store N → Value N → Store N × Value N
  walk_names walk val [] st props = (st, props)
  walk_names walk val (atom ∷ atoms) st props = elim (e.atom_name atom) [
    | none ↦ walk_names walk val atoms st props
    | some name ↦
        let (st', ro) = walk st (e.get val atom) in
        walk_names walk val atoms st' (push props (property_of name ro true))
  ]

  -- Own enumerable string keys, at most `limit` of them.
  unfoldable pub walk_object :
      ℕ → (Store N → V → Store N × Value N) → V → Store N → Store N × Value N
  walk_object limit walk val st = elim (e.own_names val) [
    | none ↦ (st, array nil)
    | some atoms ↦ walk_names walk val (take limit atoms) st (array nil)
  ]

  abbrev number_object : Value N → Bytes → Value N
  number_object v text = object_of (
      (codes "type", string (codes "number"))
      ∷ (codes "value", v)
      ∷ (codes "description", string text)
      ∷ [])

  -- The elements of an array that are stored.
  pub walk_array : Option (Store N → V → Store N × Value N) → V → ℤ → Store N → Store N × Value N
  walk_array none val len st = (st, array nil)
  walk_array (some walk) val len st = walk_elements walk val 0 (walked len) st (array nil)

  -- The array branch; `walk` is absent where the depth is used up.
  unfoldable pub remote_array :
      Option (Store N → V → Store N × Value N) → Store N → V → Store N × Value N
  unfolding walk_array
  remote_array walk st val =
      let len = e.to_int32 (e.property val (codes "length")) in
      let obj = object_of (
        (codes "type", string (codes "object"))
        ∷ (codes "subtype", string (codes "array"))
        ∷ (codes "className", string (codes "Array"))
        ∷ (codes "description", string (codes "Array(" ++ (to_string len ++ codes ")")))
        ∷ []) in
      let length_property =
        property_of (codes "length") (number_object (int len) (to_string len)) false in
      let (st', props) = walk_array walk val len st in with_id obj (st', push props length_property)

  -- The object branch.
  unfoldable pub remote_plain :
      Option (Store N → V → Store N × Value N) → Store N → V → Store N × Value N
  remote_plain walk st val =
      let obj = object_of (
        (codes "type", string (codes "object"))
        ∷ (codes "className", string (codes "Object"))
        ∷ (codes "description", string (codes "Object"))
        ∷ []) in
      with_id obj (elim walk [ none ↦ (st, array nil) | some w ↦ walk_object 100 w val st ])

  -- The branches that store nothing.
  unfoldable pub remote_scalar : V → Value N
  remote_scalar val =
      if e.is_undefined val
      then object_of ((codes "type", string (codes "undefined")) ∷ [])
      else if e.is_null val
      then object_of (
          (codes "type", string (codes "object"))
          ∷ (codes "subtype", string (codes "null"))
          ∷ (codes "value", null)
          ∷ [])
      else if e.is_bool val
      then (let b = not (e.to_bool val ==ℤ pos 0) in
          object_of (
            (codes "type", string (codes "boolean"))
            ∷ (codes "value", bool b)
            ∷ (codes "description", string (if b then codes "true" else codes "false"))
            ∷ []))
      else if e.is_int val
      then number_object (int (e.to_int32 val)) (to_string (e.to_int32 val))
      else if e.is_number val
      then number_object (number (e.to_float64 val)) (fl.print_g (e.to_float64 val))
      else elim (e.to_cstring val) [
        | none ↦ object_of []
        | some s ↦ object_of (
            (codes "type", string (codes "string"))
            ∷ (codes "value", string s)
            ∷ (codes "description", string (b'"' ∷ (s ++ b'"' ∷ [])))
            ∷ [])
      ]

  abbrev pub is_scalar : V → Bool
  is_scalar val =
      e.is_undefined val
      || e.is_null val
      || e.is_bool val
      || e.is_int val
      || e.is_number val
      || e.is_string val

  -- The function branch stores an empty property list.
  pub remote_function : Store N → Store N × Value N
  remote_function st =
      with_id
        (object_of (
          (codes "type", string (codes "function"))
          ∷ (codes "className", string (codes "Function"))
          ∷ (codes "description", string (codes "function()"))
          ∷ []))
        (st, array nil)

  unfoldable pub remote_with :
      Option (Store N → V → Store N × Value N) → Store N → V → Store N × Value N
  unfolding remote_function
  remote_with walk st val =
      if is_scalar val
      then (st, remote_scalar val)
      else if e.is_function val
      then remote_function st
      else if e.is_array val
      then remote_array walk st val
      else if e.is_object val
      then remote_plain walk st val
      else (st, object_of ((codes "type", string (codes "undefined")) ∷ []))

  -- `js_value_to_remote_object` at depth `kMaxRemoteObjectDepth - budget`.
  unfoldable pub remote_object : ℕ → Store N → V → Store N × Value N
  unfolding remote_with
  remote_object zero st val = remote_with none st val
  remote_object (suc budget) st val = remote_with (some (remote_object budget)) st val
