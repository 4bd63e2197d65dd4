-- ===== src/Json/Map.antt =====
-- Objects as maps: a written key is read back, the keys stay in order, and a key above all others
-- goes to the end.
use Prim.Native.Nat.{Ordering}
use quick_js_debugger.Prelude.{◌≡◌, ◌⊎◌, inl, inr, refl, some, [], ◌∷◌, arith, if◌then◌else◌}
use quick_js_debugger.Text.Bytes.{Bytes, equal, equal_iff, compare_bytes}
use quick_js_debugger.Json.Value.{Value, Fields, end, field, insert, lookup}

compare_bytes_eq : (a b : Bytes) → compare_bytes a b ≡ Ordering.eq → a ≡ b
unfolding compare_bytes
compare_bytes_eq [] [] h = refl
compare_bytes_eq [] (y ∷ b) h = cc
compare_bytes_eq (x ∷ a) [] h = cc
compare_bytes_eq (x ∷ a) (y ∷ b) h = ground (arith, compare_bytes_eq a b)

compare_bytes_self : (a : Bytes) → compare_bytes a a ≡ Ordering.eq
unfolding compare_bytes
compare_bytes_self [] = refl
compare_bytes_self (x ∷ a) = ground (arith, compare_bytes_self a)

pub compare_bytes_gt :
    (a b : Bytes) → compare_bytes a b ≡ Ordering.lt → compare_bytes b a ≡ Ordering.gt
unfolding compare_bytes
compare_bytes_gt [] [] h = cc
compare_bytes_gt [] (y ∷ b) h = refl
compare_bytes_gt (x ∷ a) [] h = cc
compare_bytes_gt (x ∷ a) (y ∷ b) h = ground (arith, compare_bytes_gt a b)

compare_bytes_lt : (a b : Bytes) → compare_bytes a b ≡ Ordering.gt → compare_bytes b a ≡ Ordering.lt
unfolding compare_bytes
compare_bytes_lt [] [] h = cc
compare_bytes_lt [] (y ∷ b) h = cc
compare_bytes_lt (x ∷ a) [] h = refl
compare_bytes_lt (x ∷ a) (y ∷ b) h = ground (arith, compare_bytes_lt a b)

compare_bytes_trans :
    (a b c : Bytes)
    → compare_bytes a b ≡ Ordering.lt
    → compare_bytes b c ≡ Ordering.lt
    → compare_bytes a c ≡ Ordering.lt
unfolding compare_bytes
compare_bytes_trans a [] [] h k = cc
compare_bytes_trans (x ∷ a) [] (z ∷ c) h k = cc
compare_bytes_trans [] [] (z ∷ c) h k = refl
compare_bytes_trans a (y ∷ b) [] h k = cc
compare_bytes_trans [] (y ∷ b) (z ∷ c) h k = refl
compare_bytes_trans (x ∷ a) (y ∷ b) (z ∷ c) h k = ground (arith, compare_bytes_trans a b c)

Ordering-cases : (o : Ordering) → (o ≡ Ordering.lt) ⊎ ((o ≡ Ordering.eq) ⊎ (o ≡ Ordering.gt))
Ordering-cases Ordering.lt = inl refl
Ordering-cases Ordering.eq = inr (inl refl)
Ordering-cases Ordering.gt = inr (inr refl)

module _ {N : Type 0} where
  -- After a key was written it holds the value written, and every other key what it held.
  pub lookup-insert :
      (k j : Bytes) (v : Value N) (fs : Fields N)
      → lookup j (insert k v fs) ≡ (if equal j k then some v else lookup j fs)
  unfolding lookup insert
  lookup-insert k j v end = refl
  lookup-insert k j v (field i w fs) = elim (Ordering-cases (compare_bytes k i)) [
    | inl e ↦ rw (e, insert) refl
    | inr (inl e) ↦
        rw (e, insert) (ground (arith, compare_bytes_eq k i e, equal_iff j k, equal_iff j i))
    | inr (inr e) ↦
        rw (e, insert)
          (ground
            (arith, compare_bytes_self k, equal_iff j k, equal_iff j i, lookup-insert k j v fs))
  ]

  -- Every key of the object is above `k`.
  abbrev pub KeysAbove : Bytes → Fields N → Type 0
  KeysAbove k end = Unit
  KeysAbove k (field j v fs) = compare_bytes k j ≡ Ordering.lt

  -- The keys rise strictly, as in a std::map.
  abbrev pub IsSorted : Fields N → Type 0
  IsSorted end = Unit
  IsSorted (field k v fs) = KeysAbove k fs × IsSorted fs

  insert-KeysAbove :
      (i k : Bytes) (v : Value N) (fs : Fields N)
      → compare_bytes i k ≡ Ordering.lt
      → KeysAbove i fs
      → KeysAbove i (insert k v fs)
  unfolding insert
  insert-KeysAbove i k v end h above = h
  insert-KeysAbove i k v (field j w fs) h above = ground arith

  -- Writing a key keeps the keys of an object in strictly rising order.
  insert-IsSorted :
      (k : Bytes) (v : Value N) (fs : Fields N) → IsSorted fs → IsSorted (insert k v fs)
  unfolding insert
  insert-IsSorted k v end h = (tt, tt)
  insert-IsSorted k v (field j w fs) h = ground (
    arith,
    compare_bytes_eq k j,
    compare_bytes_lt k j,
    insert-KeysAbove j k v fs,
    insert-IsSorted k v fs,
  )

  abbrev pub append_fields : Fields N → Fields N → Fields N
  append_fields end gs = gs
  append_fields (field k v fs) gs = field k v (append_fields fs gs)

  -- Every key of `fs` is below `k`.
  abbrev pub KeysBelow : Fields N → Bytes → Type 0
  KeysBelow end k = Unit
  KeysBelow (field j v fs) k = (compare_bytes j k ≡ Ordering.lt) × KeysBelow fs k

  -- A key above the others goes to the end.
  pub insert_last :
      (k : Bytes) (v : Value N) (fs : Fields N)
      → KeysBelow fs k
      → insert k v fs ≡ append_fields fs (field k v end)
  unfolding insert
  insert_last k v end h = refl
  insert_last k v (field j w fs) h =
      ground (arith, compare_bytes_gt j k h.0, insert_last k v fs h.1)

  -- A key above the others stays below a still larger one, with them.
  pub KeysBelow-append :
      (fs : Fields N) (k j : Bytes) (v : Value N)
      → KeysBelow fs k
      → compare_bytes k j ≡ Ordering.lt
      → KeysBelow (append_fields fs (field k v end)) j
  KeysBelow-append end k j v h lt = (lt, tt)
  KeysBelow-append (field i w fs) k j v h lt =
      (compare_bytes_trans i k j h.0 lt, KeysBelow-append fs k j v h.1 lt)
