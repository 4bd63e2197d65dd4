-- ===== src/Session/Remote/Ids.antt =====
-- The object store: an id that was handed out keeps its properties, whatever is stored after it, and
-- one that has not been handed out yet stands for nothing new.
use quick_js_debugger.Prelude.{
  ℕ, zero, suc, ◌≤◌, ◌<◌, ◌≡◌, ◌≢◌, refl, sym, ap, ◌∙◌, Bool, true, false, List, [], ◌∷◌, Option,
  none, some, arith, Bool-cases, inl, inr, if◌then◌else◌, take, drop,
}
use quick_js_debugger.Text.Bytes.{equal, equal_iff}
use quick_js_debugger.Text.Decimal.{read_digits, read_digits-nat_to_string}
use quick_js_debugger.Json.Floats.{Floats}
use quick_js_debugger.Json.Map.{lookup-insert}
use quick_js_debugger.Json.Value.{Value, array, nil, lookup, push}
use quick_js_debugger.Session.Engine.{Engine}
use quick_js_debugger.Session.Remote.{
  Store, object_id, store_object, property_of, with_id, walk_elements, walk_names, walk_object,
  walk_array, remote_array, remote_plain, remote_function, remote_with, remote_object, is_scalar,
}

-- Objects with different numbers have different ids.
pub object_id-injective : (m n : ℕ) → object_id m ≡ object_id n → m ≡ n
unfolding object_id
object_id-injective m n e =
    sym (read_digits-nat_to_string m _ refl)
    ∙ ap (λ s. read_digits 0 (drop 11 s)) e
    ∙ read_digits-nat_to_string n _ refl

other_id : (m n : ℕ) → m ≢ n → equal (object_id m) (object_id n) ≡ false
other_id m n h = elim (Bool-cases (equal (object_id m) (object_id n))) [
  | inl e ↦ absurd (h (object_id-injective m n ((equal_iff (object_id m) (object_id n)).0 e)))
  | inr e ↦ e
]

module _ {N : Type 0} where
  -- The store has grown, and the ids of before stand for what they stood for, as do those that have
  -- still not been handed out.
  pub record Extends (st st' : Store N) : Type 0 where
    pub grows : st.next_id ≤ st'.next_id
    pub keeps :
        (n : ℕ)
        → n < st.next_id
        → lookup (object_id n) st'.objects ≡ lookup (object_id n) st.objects
    pub leaves :
        (n : ℕ)
        → st'.next_id ≤ n
        → lookup (object_id n) st'.objects ≡ lookup (object_id n) st.objects

  pub Extends-refl : (st : Store N) → Extends st st
  Extends-refl st = record { grows = omega arith; keeps = λ n h. refl; leaves = λ n h. refl }

  pub Extends-trans : {a b c : Store N} → Extends a b → Extends b c → Extends a c
  Extends-trans {a} {b} p q = record {
    grows = omega (arith, p.grows, q.grows);
    keeps = λ n h. q.keeps n (omega (arith, p.grows)) ∙ p.keeps n h;
    leaves = λ n h. q.leaves n h ∙ p.leaves n (omega (arith, q.grows));
  }

  pub store_object-Extends : (st : Store N) (props : Value N) → Extends st (store_object st props).0
  unfolding store_object
  store_object-Extends st props = record {
    grows = omega arith;
    keeps = λ n h.
        lookup-insert (object_id st.next_id) (object_id n) props st.objects
        ∙ rw (other_id n st.next_id (λ e. omega arith)) refl;
    leaves = λ n h.
        lookup-insert (object_id st.next_id) (object_id n) props st.objects
        ∙ rw (other_id n st.next_id (λ e. omega arith)) refl;
  }

  pub with_id-Extends :
      {st : Store N} (obj : Value N) (r : Store N × Value N)
      → Extends st r.0
      → Extends st (with_id obj r).0
  unfolding with_id
  with_id-Extends obj (st', props) h = Extends-trans h (store_object-Extends st' props)

module _ {N V : Type 0} ⦃fl : Floats N⦄ (e : Engine N V) where
  -- A walk that only adds to the store.
  abbrev pub Adds : (Store N → V → Store N × Value N) → Type 0
  Adds walk = (st : Store N) (val : V) → Extends st (walk st val).0

  abbrev MayAdd : Option (Store N → V → Store N × Value N) → Type 0
  MayAdd none = Unit
  MayAdd (some walk) = Adds walk

  walk_elements-Extends :
      (walk : Store N → V → Store N × Value N) (val : V) (i left : ℕ) (st : Store N)
      (props : Value N)
      → Adds walk
      → Extends st (walk_elements e walk val i left st props).0
  unfolding walk_elements
  walk_elements-Extends walk val i zero st props h = Extends-refl st
  walk_elements-Extends walk val i (suc left) st props h =
      Extends-trans (h st (e.element val i)) (walk_elements-Extends walk val (suc i) left _ _ h)

  walk_names-Extends :
      (walk : Store N → V → Store N × Value N) (val : V) (atoms : List ℕ) (st : Store N)
      (props : Value N)
      → Adds walk
      → Extends st (walk_names e walk val atoms st props).0
  unfolding walk_names
  walk_names-Extends walk val [] st props h = Extends-refl st
  walk_names-Extends walk val (atom ∷ atoms) st props h =
      elim (e.atom_name atom)
        as (λ o.
          Extends st
            (elim o as (λ _. Store N × Value N) [
              | none ↦ walk_names e walk val atoms st props
              | some name ↦
                  let (st', ro) = walk st (e.get val atom) in
                  walk_names e walk val atoms st' (push props (property_of name ro true))
            ]).0) [
              | none ↦ walk_names-Extends walk val atoms st props h
              | some name ↦
                  Extends-trans (h st (e.get val atom)) (walk_names-Extends walk val atoms _ _ h)
            ]

  pub walk_object-Extends :
      (limit : ℕ) (walk : Store N → V → Store N × Value N) (val : V) (st : Store N)
      → Adds walk
      → Extends st (walk_object e limit walk val st).0
  unfolding walk_object
  walk_object-Extends limit walk val st h =
      elim (e.own_names val)
        as (λ o.
          Extends st
            (elim o as (λ _. Store N × Value N) [
              | none ↦ (st, array nil)
              | some atoms ↦ walk_names e walk val (take limit atoms) st (array nil)
            ]).0) [
              | none ↦ Extends-refl st
              | some atoms ↦ walk_names-Extends walk val (take limit atoms) st (array nil) h
            ]

  remote_array-Extends :
      (walk : Option (Store N → V → Store N × Value N)) (st : Store N) (val : V)
      → MayAdd walk
      → Extends st (remote_array e walk st val).0
  unfolding remote_array walk_array
  remote_array-Extends none st val h = with_id-Extends _ _ (Extends-refl st)
  remote_array-Extends (some walk) st val h =
      with_id-Extends _ _ (walk_elements-Extends walk val 0 _ st (array nil) h)

  remote_plain-Extends :
      (walk : Option (Store N → V → Store N × Value N)) (st : Store N) (val : V)
      → MayAdd walk
      → Extends st (remote_plain e walk st val).0
  unfolding remote_plain
  remote_plain-Extends none st val h = with_id-Extends _ _ (Extends-refl st)
  remote_plain-Extends (some walk) st val h =
      with_id-Extends _ _ (walk_object-Extends 100 walk val st h)

  if-Extends :
      {st : Store N} (b : Bool) (x y : Store N × Value N)
      → Extends st x.0
      → Extends st y.0
      → Extends st (if b then x else y).0
  if-Extends true x y hx hy = hx
  if-Extends false x y hx hy = hy

  remote_with-Extends :
      (walk : Option (Store N → V → Store N × Value N)) → MayAdd walk → Adds (remote_with e walk)
  unfolding remote_with remote_function
  remote_with-Extends walk h st val = if-Extends (is_scalar e val) _ _ (Extends-refl st) (
      if-Extends (e.is_function val) _ _ (with_id-Extends _ _ (Extends-refl st)) (
        if-Extends (e.is_array val) _ _ (remote_array-Extends walk st val h) (
          if-Extends (e.is_object val) _ _ (remote_plain-Extends walk st val h) (Extends-refl st))))

  -- Describing a value to the client keeps every id that was handed out before.
  pub remote_object-Extends : (budget : ℕ) → Adds (remote_object e budget)
  unfolding remote_object
  remote_object-Extends zero st val = remote_with-Extends none tt st val
  remote_object-Extends (suc budget) st val =
      remote_with-Extends (some (remote_object e budget)) (remote_object-Extends budget) st val
