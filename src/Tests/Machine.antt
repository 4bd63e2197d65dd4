-- ===== src/Tests/Machine.antt =====
-- A machine and an engine to run the examples on.
use quick_js_debugger.Prelude.{
  ℕ, suc, ◌-◌, ◌≡◌, refl, ap, ◌∙◌, true, false, [], ◌∷◌, Option, none, some, arith, if◌then◌else◌,
  ◌==◌, append-nil, inr,
}
use quick_js_debugger.Prelude.Int.{ℤ, pos, negsuc, ◌==ℤ◌, leb_ℤ, ==ℤ_iff}
use quick_js_debugger.Text.Bytes.{Bytes, codes}
use quick_js_debugger.Text.Decimal.{
  nat_to_string, to_string, starts_digit, read_digits, read_digits-nat_to_string,
  nat_to_string-starts_digit,
}
use quick_js_debugger.Text.Search.{contains}
use quick_js_debugger.Json.Floats.{Floats, IsExact}
use quick_js_debugger.Session.Engine.{Engine}
use quick_js_debugger.Session.Paths.{Platform}

-- A numeral with an optional minus sign, as a number.
abbrev pub read_whole : Bytes → Option ℤ
read_whole [] = none
read_whole (c ∷ s) =
    if c == b'-'
    then some (negsuc (read_digits 0 s - 1))
    else if starts_digit (c ∷ s)
    then some (pos (read_digits 0 (c ∷ s)))
    else none

instance abbrev pub whole_floats : Floats ℤ
whole_floats = record {
  of_int = λ i. i;
  to_int = λ i. i;
  to_int64 = λ i. i;
  same = ◌==ℤ◌;
  at_most = leb_ℤ;
  print_g = to_string;
  stod = read_whole;
}

read_whole-digits :
    (s : Bytes) → starts_digit s ≡ true → read_whole s ≡ some (pos (read_digits 0 s))
read_whole-digits [] h = cc
read_whole-digits (c ∷ s) h = ground arith

read_whole-to_string : (i : ℤ) → read_whole (to_string i) ≡ some i
unfolding to_string
read_whole-to_string (pos n) =
    let first = rw append-nil at (nat_to_string-starts_digit n []) in
    let value = rw append-nil at (read_digits-nat_to_string n [] refl) in
    read_whole-digits (nat_to_string n) first ∙ ap (λ m. some (pos m)) value
read_whole-to_string (negsuc n) =
    let value = rw append-nil at (read_digits-nat_to_string (suc n) [] refl) in
    ap (λ m. some (negsuc m)) (omega (arith, value))

pub whole_floats-IsExact : IsExact whole_floats
whole_floats-IsExact = record {
  cast_back = λ i h. refl;
  same_self = λ i h. (==ℤ_iff i i).1 refl;
  above = λ i h. ground arith;
  below = λ i h. ground arith;
  read_back = λ i h. read_whole-to_string i;
}

-- A POSIX machine whose regular expressions match themselves.
abbrev pub posix : Platform
posix = record { win32 = false; regex_search = λ p s. some (contains p s) }

-- An engine whose values are numbers and undefined (0); one variable, x, is in its one frame.
abbrev pub engine : Engine ℤ ℕ
engine = record {
  is_undefined = λ v. v == 0;
  is_null = λ v. false;
  is_bool = λ v. false;
  is_int = λ v. false;
  is_number = λ v. false;
  is_string = λ v. false;
  is_function = λ v. v == 7;
  is_array = λ v. false;
  is_object = λ v. true;
  to_bool = λ v. pos v;
  to_int32 = λ v. pos v;
  to_float64 = λ v. pos v;
  to_cstring = λ v. none;
  property = λ v name. 0;
  element = λ v i. 0;
  own_names = λ v. some (1 ∷ []);
  get = λ v atom. atom;
  atom_name = λ atom. some (codes "p");
  global = 1;
  stack_depth = 1;
  locals = λ level. some ((some (codes "x"), 5) ∷ []);
  eval_with = λ bindings text. if contains (codes "false") text then some 0 else some 1;
  eval_global = λ text. inr 2;
}
