-- ===== src/Ws/Http/Headers.antt =====
-- `get_header` on a request that has the field.
use quick_js_debugger.Prelude.{
  ℕ, zero, suc, ◌+◌, ◌≤◌, ◌≡◌, refl, sym, ap, ◌∙◌, true, false, ◌&&◌, [], ◌∷◌, ◌++◌, none, some,
  ◌==◌, Bool-cases, Option-cases, inl, inr, length, length-append, replicate, take, drop,
  take-append, drop-append, append_assoc, arith,
}
use quick_js_debugger.Text.Bytes.{Bytes, tolower, to_lower}
use quick_js_debugger.Text.Search.{starts_with, find?, starts_with-append}
use quick_js_debugger.Session.Paths.{first_is}
use quick_js_debugger.Ws.Http.{crlf, skip_blanks, line_front, get_header}

starts_with-extend :
    (p s back : Bytes) → length p ≤ length s → starts_with p (s ++ back) ≡ starts_with p s
unfolding starts_with
starts_with-extend [] s back h = refl
starts_with-extend (c ∷ p) [] back h = absurd (omega arith)
starts_with-extend (c ∷ p) (x ∷ s) back h =
    ap (λ b. c == x && b) (starts_with-extend p s back (omega arith))

find?-here : (needle s : Bytes) → starts_with needle s ≡ true → find? needle s ≡ some 0
unfolding find?
find?-here needle [] h = rw h refl
find?-here needle (c ∷ s) h = rw h refl

-- The first place stays the first, whatever comes behind it.
find?-extend :
    (needle front back : Bytes)
    → find? needle (front ++ needle) ≡ some (length front)
    → find? needle (front ++ (needle ++ back)) ≡ some (length front)
unfolding find?
find?-extend needle [] back h = find?-here needle (needle ++ back) (starts_with-append needle back)
find?-extend needle (c ∷ front) back h =
    let same =
      ap (λ t. starts_with needle (c ∷ t)) (sym (append_assoc front needle back))
      ∙ starts_with-extend needle (c ∷ (front ++ needle)) back
          (omega (arith, length-append front needle)) in
    elim (Bool-cases (starts_with needle (c ∷ (front ++ needle)))) [
      | inl t ↦ ground arith
      | inr t ↦ elim (Option-cases (find? needle (front ++ needle))) [
        | inl e ↦ ground arith
        | inr (i, e) ↦
            let here : i ≡ length front = ground arith in
            let later = find?-extend needle front back (e ∙ ap some here) in
            ground (arith, same, later)
      ]
    ]

to_lower-append : (a b : Bytes) → to_lower (a ++ b) ≡ to_lower a ++ to_lower b
unfolding to_lower
to_lower-append [] b = refl
to_lower-append (c ∷ a) b = ap (◌∷◌ (tolower c)) (to_lower-append a b)

length-to_lower : (a : Bytes) → length (to_lower a) ≡ length a
unfolding to_lower
length-to_lower [] = refl
length-to_lower (c ∷ a) = ap suc (length-to_lower a)

skip_blanks-stop : (s : Bytes) → first_is b' ' s ≡ false → skip_blanks s ≡ s
unfolding skip_blanks
skip_blanks-stop [] h = refl
skip_blanks-stop (c ∷ s) h = ground arith

skip_blanks-replicate :
    (n : ℕ) (s : Bytes) → first_is b' ' s ≡ false → skip_blanks (replicate n b' ' ++ s) ≡ s
unfolding skip_blanks
skip_blanks-replicate zero s h = skip_blanks-stop s h
skip_blanks-replicate (suc n) s h = skip_blanks-replicate n s h

line_front-line :
    (value rest : Bytes)
    → find? crlf (value ++ crlf) ≡ some (length value)
    → line_front (value ++ (crlf ++ rest)) ≡ value
unfolding line_front
line_front-line value rest h =
    ap
      (λ found. elim found as (λ _. Bytes) [
        | none ↦ value ++ (crlf ++ rest)
        | some end ↦ take end (value ++ (crlf ++ rest))
      ])
      (find?-extend crlf value rest h)
    ∙ take-append value (crlf ++ rest)

first_is-append :
    (value rest : Bytes)
    → first_is b' ' value ≡ false
    → first_is b' ' (value ++ (crlf ++ rest)) ≡ false
first_is-append [] rest h = refl
first_is-append (c ∷ value) rest h = h

to_lower-request :
    (front label name behind : Bytes)
    → to_lower label ≡ to_lower name
    → to_lower (front ++ (label ++ (b':' ∷ behind)))
      ≡ to_lower front ++ ((to_lower name ++ (b':' ∷ [])) ++ to_lower behind)
unfolding to_lower
to_lower-request front label name behind same =
    to_lower-append front (label ++ (b':' ∷ behind))
    ∙ ap (λ t. to_lower front ++ t)
        (to_lower-append label (b':' ∷ behind)
          ∙ ap (λ l. l ++ (b':' ∷ to_lower behind)) same
          ∙ sym (append_assoc (to_lower name) (b':' ∷ []) (to_lower behind)))

drop-request :
    (front label name behind : Bytes)
    → to_lower label ≡ to_lower name
    → drop (length front + length name + 1) (front ++ (label ++ (b':' ∷ behind))) ≡ behind
drop-request front label name behind same =
    let head = front ++ (label ++ (b':' ∷ [])) in
    let request = front ++ (label ++ (b':' ∷ behind)) in
    let names = sym (length-to_lower label) ∙ ap length same ∙ length-to_lower name in
    let size : length front + length name + 1 ≡ length head =
      omega (
        arith,
        names,
        length-append front (label ++ (b':' ∷ [])),
        length-append label (b':' ∷ []),
      ) in
    let parts : request ≡ head ++ behind =
      ap (λ t. front ++ t) (sym (append_assoc label (b':' ∷ []) behind))
      ∙ sym (append_assoc front (label ++ (b':' ∷ [])) behind) in
    ap (λ n. drop n request) size ∙ ap (drop (length head)) parts ∙ drop-append head behind

-- A field of a request is found under its name in any case of letters, and its value is what stands
-- between the blanks behind the colon and the end of the line, if the name with a colon does not
-- occur before that field, the value does not begin with a blank, and no line ends within it.
pub get_header-field :
    (front label value rest name : Bytes) (blanks : ℕ)
    → to_lower label ≡ to_lower name
    → find? (to_lower name ++ (b':' ∷ [])) (to_lower front ++ (to_lower name ++ (b':' ∷ [])))
      ≡ some (length front)
    → first_is b' ' value ≡ false
    → find? crlf (value ++ crlf) ≡ some (length value)
    → get_header
        (front ++ (label ++ (b':' ∷ (replicate blanks b' ' ++ (value ++ (crlf ++ rest))))))
        name
      ≡ value
unfolding get_header
get_header-field front label value rest name blanks same first no_blank one_line =
    let behind = replicate blanks b' ' ++ (value ++ (crlf ++ rest)) in
    let request = front ++ (label ++ (b':' ∷ behind)) in
    let needle = to_lower name ++ (b':' ∷ []) in
    let lowered : to_lower request ≡ to_lower front ++ (needle ++ to_lower behind) =
      to_lower-request front label name behind same in
    let found : find? needle (to_lower request) ≡ some (length front) =
      ap (find? needle) lowered
      ∙ find?-extend needle (to_lower front) (to_lower behind)
          (first ∙ ap some (sym (length-to_lower front)))
      ∙ ap some (length-to_lower front) in
    let cut : drop (length front + length name + 1) request ≡ behind =
      drop-request front label name behind same in
    ap
      (λ place. elim place as (λ _. Bytes) [
        | none ↦ []
        | some at ↦ line_front (skip_blanks (drop (at + length name + 1) request))
      ])
      found
    ∙ ap (λ s. line_front (skip_blanks s)) cut
    ∙ ap line_front (
        skip_blanks-replicate blanks (value ++ (crlf ++ rest))
          (first_is-append value rest no_blank))
    ∙ line_front-line value rest one_line
