-- ===== src/Json/Result.antt =====
-- The outcome of a parser step: a value, an exception that leaves the parser (of std::stod or
-- std::stoul; nothing in the program catches it), or a model that ran out of fuel.
use quick_js_debugger.Prelude.{◌≡◌, ◌≢◌, refl, Bool, true, false, Option, none, some, if◌then◌else◌}

pub data Result {ℓ} (A : Type ℓ) : Type ℓ where
  ok : A → Result A
  throws out_of_fuel : Result A

infixl 5 ◌>>=◌
abbrev pub ◌>>=◌ {ℓ κ} : {A : Type ℓ} {B : Type κ} → Result A → (A → Result B) → Result B
ok a >>= f = f a
throws >>= f = throws
out_of_fuel >>= f = out_of_fuel

abbrev pub or_throw {ℓ} : {A : Type ℓ} → Option A → Result A
or_throw none = throws
or_throw (some a) = ok a

-- The run kept within its fuel, and `P` holds of its value if it has one.
pub data Ensures {ℓ κ} {A : Type ℓ} (P : A → Type κ) : Result A → Type (ℓ ⊔ κ) where
  holds : {a : A} → P a → Ensures P (ok a)
  thrown : Ensures P throws

module _ {ℓ κ} {A : Type ℓ} {P : A → Type κ} where
  pub Ensures-bind {ℓ' κ'} :
      {B : Type ℓ'} {Q : B → Type κ'} {r : Result A} {f : A → Result B}
      → Ensures P r
      → ((a : A) → P a → Ensures Q (f a))
      → Ensures Q (r >>= f)
  Ensures-bind (holds {a} h) k = k a h
  Ensures-bind thrown k = thrown

  pub Ensures-if :
      (b : Bool) {x y : Result A}
      → (b ≡ true → Ensures P x)
      → (b ≡ false → Ensures P y)
      → Ensures P (if b then x else y)
  Ensures-if true hx hy = hx refl
  Ensures-if false hx hy = hy refl

  pub Ensures-or_throw : (o : Option A) → ((a : A) → o ≡ some a → P a) → Ensures P (or_throw o)
  Ensures-or_throw none h = thrown
  Ensures-or_throw (some a) h = holds (h a refl)

  pub Ensures-ne-out_of_fuel : {r : Result A} → Ensures P r → r ≢ out_of_fuel
  Ensures-ne-out_of_fuel (holds h) = cc
  Ensures-ne-out_of_fuel thrown = cc
