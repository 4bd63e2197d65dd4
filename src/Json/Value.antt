-- ===== src/Json/Value.antt =====
-- json::Value. A value has one type at a time, so it is a tagged union; a getter of another type
-- reads the member that the constructors left at its default.
use Prim.Native.Nat.{Ordering}
use quick_js_debugger.Prelude.{Bool, true, false, List, [], ◌∷◌, Option, none, some, if◌then◌else◌}
use quick_js_debugger.Prelude.Int.{ℤ, pos}
use quick_js_debugger.Text.Bytes.{Bytes, equal, compare_bytes}
use quick_js_debugger.Json.Floats.{Floats}

-- `Items` is `ArrayType`; `Fields` is `ObjectType`, a map that is walked in key order.
mutual
  pub data Value (N : Type 0) : Type 0 where
    null : Value N
    bool : Bool → Value N
    number : N → Value N
    string : Bytes → Value N
    array : Items N → Value N
    object : Fields N → Value N

  pub data Items (N : Type 0) : Type 0 where
    nil : Items N
    cons : Value N → Items N → Items N

  pub data Fields (N : Type 0) : Type 0 where
    end : Fields N
    field : Bytes → Value N → Fields N → Fields N

module _ {N : Type 0} where
  -- `obj_val_[key] = val`.
  unfoldable pub insert : Bytes → Value N → Fields N → Fields N
  insert k v end = field k v end
  insert k v (field j w fs) = elim (compare_bytes k j) [
    | Ordering.lt ↦ field k v (field j w fs)
    | Ordering.eq ↦ field k v fs
    | Ordering.gt ↦ field j w (insert k v fs)
  ]

  -- `obj_val_.find(key)`.
  unfoldable pub lookup : Bytes → Fields N → Option (Value N)
  lookup k end = none
  lookup k (field j w fs) = if equal k j then some w else lookup k fs

  -- `arr_val_.push_back(val)`.
  unfoldable pub push_back : Items N → Value N → Items N
  push_back nil v = cons v nil
  push_back (cons x xs) v = cons x (push_back xs v)

  abbrev pub is_object : Value N → Bool
  is_object (object _) = true
  is_object _ = false

  abbrev pub get_bool : Value N → Bool
  get_bool (bool b) = b
  get_bool _ = false

  abbrev pub get_string : Value N → Bytes
  get_string (string s) = s
  get_string _ = []

  -- `get_int`: the number of a value of another type is 0.
  abbrev pub get_int : ⦃fl : Floats N⦄ → Value N → ℤ
  get_int ⦃fl⦄ (number d) = fl.to_int d
  get_int ⦃fl⦄ _ = fl.to_int (fl.of_int (pos 0))

  unfoldable pub has : Value N → Bytes → Bool
  has (object fs) k = elim (lookup k fs) [ none ↦ false | some _ ↦ true ]
  has _ k = false

  -- `operator[](const std::string&) const`.
  unfoldable pub at : Value N → Bytes → Value N
  at (object fs) k = elim (lookup k fs) [ none ↦ null | some v ↦ v ]
  at _ k = null

  -- `set` and `push`, which first turn a value of another type into an empty one of theirs.
  unfoldable pub set : Value N → Bytes → Value N → Value N
  unfolding insert
  set (object fs) k v = object (insert k v fs)
  set _ k v = object (insert k v end)

  unfoldable pub push : Value N → Value N → Value N
  unfolding push_back
  push (array xs) v = array (push_back xs v)
  push _ v = array (push_back nil v)

  -- An object built by one `set` after another.
  unfoldable pub set_all : Value N → List (Bytes × Value N) → Value N
  unfolding set
  set_all obj [] = obj
  set_all obj ((k, v) ∷ kvs) = set_all (set obj k v) kvs

  abbrev pub object_of : List (Bytes × Value N) → Value N
  object_of = set_all (object end)

  -- The implicit `Value(int)`.
  abbrev pub int : ⦃fl : Floats N⦄ → ℤ → Value N
  int ⦃fl⦄ i = number (fl.of_int i)
