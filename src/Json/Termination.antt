-- ===== src/Json/Termination.antt =====
-- The fuel that `parse` is given is enough for every input, well-formed or not.
use quick_js_debugger.Prelude.{
  ℕ, zero, suc, ◌+◌, ◌*◌, ◌≤◌, ◌<◌, ◌≡◌, ◌≢◌, inl, inr, refl, Bool, true, ◌||◌, [], ◌∷◌, ◌++◌,
  arith, ltb, ◌==◌, Bool-cases, length, length-drop, drop, take,
}
use quick_js_debugger.Text.Bytes.{Bytes}
use quick_js_debugger.Json.Floats.{Floats}
use quick_js_debugger.Json.Value.{Value, Items, Fields, array, object, nil, end, insert, push_back}
use quick_js_debugger.Json.Result.{
  Result, out_of_fuel, Ensures, holds, thrown, Ensures-bind, Ensures-if, Ensures-or_throw,
  Ensures-ne-out_of_fuel,
}
use quick_js_debugger.Json.Scan.{
  skip_ws, next_is, stoul16, read_escape, read_string, parse_string, span_digits, span_one,
  span_fraction, span_exponent, span_number,
}
use quick_js_debugger.Json.Parse.{
  skip_byte, parse_bool, parse_null, close, parse_number, parse_value, parse_token, parse_members,
  parse_next_member, parse_items, parse_next_item, parse_with, parse,
}

skip_ws-le : (s : Bytes) → length (skip_ws s) ≤ length s
unfolding skip_ws
skip_ws-le [] = omega arith
skip_ws-le (c ∷ s) = ground (arith, skip_ws-le s)

skip_byte-le : (c : ℕ) (s : Bytes) → length (skip_byte c s) ≤ length s
skip_byte-le c [] = omega arith
skip_byte-le c (x ∷ s) = ground arith

-- Where a byte comes next there is one.
next_is-lt : (c : ℕ) (s : Bytes) → next_is c s ≡ true → suc (length (drop 1 s)) ≡ length s
next_is-lt c [] h = cc
next_is-lt c (x ∷ s) h = refl

drop_four-le : (s : Bytes) → length (drop 4 s) ≤ length s
drop_four-le s = omega (arith, length-drop 4 s)

drop_five-le : (s : Bytes) → length (drop 5 s) ≤ length s
drop_five-le s = omega (arith, length-drop 5 s)

-- A result whose rest is at most as long as `s`.
abbrev Shortens : {A : Type 0} → Bytes → A × Bytes → Type 0
Shortens s r = length r.1 ≤ length s

read_escape-Shortens : (e : ℕ) (s : Bytes) → Ensures (Shortens s) (read_escape e s)
unfolding read_escape
read_escape-Shortens e s =
    Ensures-if (e == b'u')
      (λ _.
        Ensures-if (ltb (length s) 4) (λ _. holds (omega arith))
          (λ _.
            Ensures-bind (Ensures-or_throw {P = λ _. Unit {0}} (stoul16 (take 4 s)) (λ _ _. tt))
              (λ cp _. holds (drop_four-le s))))
      (λ _. holds (omega arith))

Shortens-mono :
    {A : Type 0} (s t : Bytes) {r : Result (A × Bytes)}
    → length s ≤ length t
    → Ensures (Shortens s) r
    → Ensures (Shortens t) r
Shortens-mono s t le (holds h) = holds (omega arith)
Shortens-mono s t le thrown = thrown

read_string-Shortens :
    (f : ℕ) (r s : Bytes) → length s < f → Ensures (Shortens s) (read_string f r s)
unfolding read_string
read_string-Shortens zero r s h = absurd (omega arith)
read_string-Shortens (suc f) r [] h = holds (omega arith)
read_string-Shortens (suc f) r (c ∷ []) h = elim (Bool-cases (c == b'"')) [
  | inl q ↦ rw (q, read_string) (holds (omega arith))
  | inr q ↦ elim (Bool-cases (c == b'\\')) [
    | inl b ↦ rw (q, b, read_string) (holds (omega arith))
    | inr b ↦
        rw (q, b, read_string)
          (Shortens-mono [] (c ∷ []) (omega arith)
            (read_string-Shortens f (r ++ c ∷ []) [] (omega arith)))
  ]
]
read_string-Shortens (suc f) r (c ∷ e ∷ s) h = elim (Bool-cases (c == b'"')) [
  | inl q ↦ rw (q, read_string) (holds (omega arith))
  | inr q ↦ elim (Bool-cases (c == b'\\')) [
    | inl b ↦
        rw (q, b, read_string)
          (Ensures-bind (read_escape-Shortens e s) λ (piece, rest) shorter.
            Shortens-mono rest (c ∷ e ∷ s) (omega arith)
              (read_string-Shortens f (r ++ piece) rest (omega arith)))
    | inr b ↦
        rw (q, b, read_string)
          (Shortens-mono (e ∷ s) (c ∷ e ∷ s) (omega arith)
            (read_string-Shortens f (r ++ c ∷ []) (e ∷ s) (omega arith)))
  ]
]

parse_string-Shortens : (s : Bytes) → Ensures (Shortens s) (parse_string s)
unfolding parse_string
parse_string-Shortens s = read_string-Shortens (suc (length s)) [] s (omega arith)

span_digits-Shortens : (s : Bytes) → Shortens s (span_digits s)
unfolding span_digits
span_digits-Shortens [] = omega arith
span_digits-Shortens (c ∷ s) = ground (arith, span_digits-Shortens s)

span_one-Shortens : (p : ℕ → Bool) (s : Bytes) → Shortens s (span_one p s)
span_one-Shortens p [] = omega arith
span_one-Shortens p (c ∷ s) = ground arith

span_fraction-Shortens : (s : Bytes) → Shortens s (span_fraction s)
unfolding span_fraction
span_fraction-Shortens s = ground (arith, span_digits-Shortens (drop 1 s), length-drop 1 s)

span_exponent-Shortens : (s : Bytes) → Shortens s (span_exponent s)
unfolding span_exponent
span_exponent-Shortens s =
    let sign = span_one-Shortens (λ c. c == b'+' || c == b'-') (drop 1 s) in
    let digits = span_digits-Shortens (span_one (λ c. c == b'+' || c == b'-') (drop 1 s)).1 in
    ground (arith, sign, digits, length-drop 1 s)

span_number-Shortens : (s : Bytes) → Shortens s (span_number s)
unfolding span_number
span_number-Shortens s =
    let s₁ = (span_one (λ c. c == b'-') s).1 in
    let s₂ = (span_digits s₁).1 in
    let s₃ = (span_fraction s₂).1 in
    omega (
      arith,
      span_one-Shortens (λ c. c == b'-') s,
      span_digits-Shortens s₁,
      span_fraction-Shortens s₂,
      span_exponent-Shortens s₃,
    )

parse_bool-Shortens : (N : Type 0) (s : Bytes) → Shortens s (parse_bool {N = N} s)
unfolding parse_bool
parse_bool-Shortens N s = ground (arith, drop_four-le s, drop_five-le s)

parse_null-Shortens : (N : Type 0) (s : Bytes) → Shortens s (parse_null {N = N} s)
unfolding parse_null
parse_null-Shortens N s = ground (arith, drop_four-le s)

module _ {N : Type 0} ⦃fl : Floats N⦄ where
  parse_number-Shortens : (s : Bytes) → Ensures (Shortens s) (parse_number {N = N} s)
  unfolding parse_number
  parse_number-Shortens s =
      Ensures-bind (Ensures-or_throw {P = λ _. Unit {0}} (fl.stod (span_number s).0) (λ _ _. tt))
        (λ d _. holds (span_number-Shortens s))

  close-le : (c : ℕ) (v : Value N) (s : Bytes) → length (close c v s).1 ≤ length s
  close-le c v s = omega (arith, skip_byte-le c (skip_ws s), skip_ws-le s)

  mutual
    unfolding parse_value

    parse_value-Shortens :
        (f : ℕ) (s : Bytes) → 3 * length s + 2 ≤ f → Ensures (Shortens s) (parse_value {N = N} f s)
    parse_value-Shortens zero s h = absurd (omega arith)
    parse_value-Shortens (suc f) s h =
        Shortens-mono (skip_ws s) s (skip_ws-le s)
          (parse_token-Shortens f (skip_ws s) (omega (arith, skip_ws-le s)))

    parse_token-Shortens :
        (f : ℕ) (s : Bytes) → 3 * length s + 1 ≤ f → Ensures (Shortens s) (parse_token {N = N} f s)
    parse_token-Shortens zero s h = absurd (omega arith)
    parse_token-Shortens (suc f) [] h = holds (omega arith)
    parse_token-Shortens (suc f) (c ∷ s) h =
        Ensures-if (c == b'"')
          (λ _. Ensures-bind (parse_string-Shortens s) (λ (r, rest) le. holds (omega arith)))
          (λ _.
            Ensures-if (c == b'{')
              (λ _.
                Ensures-if (next_is b'}' (skip_ws s))
                  (λ e. holds (omega (arith, next_is-lt b'}' (skip_ws s) e, skip_ws-le s)))
                  (λ _.
                    Shortens-mono (skip_ws s) (c ∷ s) (omega (arith, skip_ws-le s))
                      (parse_members-Shortens f end (skip_ws s) (omega (arith, skip_ws-le s)))))
              (λ _.
                Ensures-if (c == b'[')
                  (λ _.
                    Ensures-if (next_is b']' (skip_ws s))
                      (λ e. holds (omega (arith, next_is-lt b']' (skip_ws s) e, skip_ws-le s)))
                      (λ _.
                        Shortens-mono (skip_ws s) (c ∷ s) (omega (arith, skip_ws-le s))
                          (parse_items-Shortens f nil (skip_ws s) (omega (arith, skip_ws-le s)))))
                  (λ _.
                    Ensures-if (c == b't' || c == b'f') (λ _. holds (parse_bool-Shortens N (c ∷ s)))
                      (λ _.
                        Ensures-if (c == b'n') (λ _. holds (parse_null-Shortens N (c ∷ s)))
                          (λ _. parse_number-Shortens (c ∷ s))))))

    parse_members-Shortens :
        (f : ℕ) (fs : Fields N) (s : Bytes)
        → 3 * length s + 3 ≤ f
        → Ensures (Shortens s) (parse_members f fs s)
    parse_members-Shortens zero fs s h = absurd (omega arith)
    parse_members-Shortens (suc f) fs s h =
        Ensures-if (next_is b'"' (skip_ws s))
          (λ e. Ensures-bind (parse_string-Shortens (drop 1 (skip_ws s))) λ (k, s₁) le₁.
            let room : suc (length s₁) ≤ length s =
              omega (arith, next_is-lt b'"' (skip_ws s) e, skip_ws-le s) in
            Ensures-bind
              (parse_value-Shortens f (skip_byte b':' (skip_ws s₁))
                (omega (arith, skip_byte-le b':' (skip_ws s₁), skip_ws-le s₁)))
              λ (v, s₂) le₂.
                Shortens-mono (skip_ws s₂) s
                  (omega (arith, skip_byte-le b':' (skip_ws s₁), skip_ws-le s₁, skip_ws-le s₂))
                  (parse_next_member-Shortens f (insert k v fs) (skip_ws s₂)
                    (omega (arith, skip_byte-le b':' (skip_ws s₁), skip_ws-le s₁, skip_ws-le s₂))))
          (λ _. holds (omega (arith, close-le b'}' (object fs) (skip_ws s), skip_ws-le s)))

    parse_next_member-Shortens :
        (f : ℕ) (fs : Fields N) (s : Bytes)
        → 3 * length s + 1 ≤ f
        → Ensures (Shortens s) (parse_next_member f fs s)
    parse_next_member-Shortens zero fs s h = absurd (omega arith)
    parse_next_member-Shortens (suc f) fs s h =
        Ensures-if (next_is b',' s)
          (λ e.
            Shortens-mono (drop 1 s) s (omega (arith, next_is-lt b',' s e))
              (parse_members-Shortens f fs (drop 1 s) (omega (arith, next_is-lt b',' s e))))
          (λ _. holds (close-le b'}' (object fs) s))

    parse_items-Shortens :
        (f : ℕ) (xs : Items N) (s : Bytes)
        → 3 * length s + 3 ≤ f
        → Ensures (Shortens s) (parse_items f xs s)
    parse_items-Shortens zero xs s h = absurd (omega arith)
    parse_items-Shortens (suc f) xs [] h = holds (close-le b']' (array xs) [])
    parse_items-Shortens (suc f) xs (c ∷ s) h =
        Ensures-bind (parse_value-Shortens f (c ∷ s) (omega arith)) λ (v, s₁) le₁.
          Shortens-mono (skip_ws s₁) (c ∷ s) (omega (arith, skip_ws-le s₁)) (
            parse_next_item-Shortens f (push_back xs v) (skip_ws s₁) (omega (arith, skip_ws-le s₁)))

    parse_next_item-Shortens :
        (f : ℕ) (xs : Items N) (s : Bytes)
        → 3 * length s + 1 ≤ f
        → Ensures (Shortens s) (parse_next_item f xs s)
    parse_next_item-Shortens zero xs s h = absurd (omega arith)
    parse_next_item-Shortens (suc f) xs s h =
        Ensures-if (next_is b',' s)
          (λ e.
            Shortens-mono (drop 1 s) s (omega (arith, next_is-lt b',' s e))
              (parse_items-Shortens f xs (drop 1 s) (omega (arith, next_is-lt b',' s e))))
          (λ _. holds (close-le b']' (array xs) s))

  -- The parser returns a value or throws, on every input: it never runs out of fuel.
  pub parse-ne-out_of_fuel : (s : Bytes) → parse {N = N} s ≢ out_of_fuel
  unfolding parse parse_with
  parse-ne-out_of_fuel s =
      Ensures-ne-out_of_fuel {P = λ _. Unit {0}}
        (Ensures-bind (parse_value-Shortens (3 * length s + 3) s (omega arith)) λ _ _. holds tt)
