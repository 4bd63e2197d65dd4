-- ===== src/Atomics/Meaning.antt =====
-- What the C standard says of the operations, for objects of 32 bits.
use Prim.Native.Nat.{bit_and, bit_or, bit_xor}
use mathlib.Core.Path.{subst}
use quick_js_debugger.Prelude.{
  ℕ, ◌+◌, ◌%◌, ◌^◌, ◌<◌, ◌≡◌, ◌≢◌, refl, sym, ap, ◌∙◌, ◌⊎◌, inl, inr, Bool, true, false, arith,
  ◌==◌, ==_iff, if◌then◌else◌, Bool-cases,
}
use quick_js_debugger.Atomics.{
  Memory, Intrinsics, IsWritten, IsInterlocked, write_word, to_long, minus_long, atomic_fetch_add,
  atomic_fetch_sub, atomic_fetch_or, atomic_fetch_xor, atomic_fetch_and, atomic_exchange,
  atomic_load, atomic_store, atomic_compare_exchange_strong,
}

same_word : (m n : ℕ) → m ≡ n → (m == n) ≡ true
same_word m n e = (==_iff m n).1 e

differ : (m n : ℕ) → m ≢ n → (m == n) ≡ false
differ m n ne = ground (arith, ==_iff m n)

other_word : (m n : ℕ) → (m == n) ≡ false → m ≢ n
other_word m n e = ground (arith, ==_iff m n)

pub IsWritten-refl : (m : Memory) (a v : ℕ) → IsWritten m a v (write_word m a v)
IsWritten-refl m a v = record {
  value = ground (arith, ==_iff a a);
  others = λ b ne. ground (arith, ==_iff b a);
}

undone : (w arg : ℕ) → w < 2 ^ 32 → ((w + to_long arg) % 2 ^ 32 + minus_long arg) % 2 ^ 32 ≡ w
undone w arg h = omega arith

-- What the exchange leaves, whether it took place or not, and what is made of it.
module _ (m swapped : Memory) (obj expected desired old : ℕ) (read : old ≡ m obj)
    (written : IsWritten m obj (if m obj == m expected then desired else m obj) swapped)
    (ne : obj ≢ expected) where
  abbrev Decided : Memory × ℕ → Type 0
  Decided (after, success) =
      ((m obj ≡ m expected) × (success ≡ 1) × IsWritten m obj desired after)
      ⊎ ((m obj ≢ m expected) × (success ≡ 0) × IsWritten m expected (m obj) after)

  abbrev decide : Bool → Memory × ℕ
  decide b = if b then (swapped, 1) else (write_word swapped expected old, 0)

  still_expected : swapped expected ≡ m expected
  still_expected = written.others expected (λ e. ne (sym e))

  swap_done : (m obj == m expected) ≡ true → Decided (decide (old == swapped expected))
  swap_done t =
      let e : m obj ≡ m expected = (==_iff (m obj) (m expected)).0 t in
      let test : (old == swapped expected) ≡ true =
        same_word old (swapped expected) (read ∙ e ∙ sym still_expected) in
      subst (λ b. Decided (decide b)) (sym test)
        (inl (
          e,
          refl,
          record {
            value = written.value ∙ ap (λ b. if b then desired else m obj) t;
            others = written.others;
          },
        ))

  swap_refused : (m obj == m expected) ≡ false → Decided (decide (old == swapped expected))
  swap_refused t =
      let d : m obj ≢ m expected = other_word (m obj) (m expected) t in
      let test : (old == swapped expected) ≡ false =
        differ old (swapped expected) (λ e. d (sym read ∙ e ∙ still_expected)) in
      let kept : swapped obj ≡ m obj = written.value ∙ ap (λ b. if b then desired else m obj) t in
      subst (λ b. Decided (decide b)) (sym test)
        (inr (
          d,
          refl,
          record {
            value = (IsWritten-refl swapped expected old).value ∙ read;
            others =
                λ b other. (IsWritten-refl swapped expected old).others b other ∙ untouched b kept;
          },
        ))
    where
      untouched : (b : ℕ) → swapped obj ≡ m obj → swapped b ≡ m b
      untouched b kept = elim (Bool-cases (b == obj)) [
        | inl same ↦ let e : b ≡ obj = (==_iff b obj).0 same in ap swapped e ∙ kept ∙ sym (ap m e)
        | inr other ↦ written.others b (other_word b obj other)
      ]

module _ (i : Intrinsics) (ok : IsInterlocked i) (m : Memory) (obj : ℕ) where
  -- For two different places: where the object holds what is expected, the call returns 1 and writes
  -- the desired value to the object; where it does not, the call returns 0 and writes what the object
  -- holds to the place of the expected value. Nothing else is written.
  pub atomic_compare_exchange_strong-IsWritten :
      (expected desired : ℕ)
      → obj ≢ expected
      → let (after, success) = atomic_compare_exchange_strong i m obj expected desired in
        ((m obj ≡ m expected) × (success ≡ 1) × IsWritten m obj desired after)
        ⊎ ((m obj ≢ m expected) × (success ≡ 0) × IsWritten m expected (m obj) after)
  unfolding atomic_compare_exchange_strong
  atomic_compare_exchange_strong-IsWritten expected desired ne =
      let swapped = (i.compare_exchange m obj desired (m expected)).0 in
      let (read, written) = ok.compares m obj desired (m expected) in
      elim (Bool-cases (m obj == m expected)) [
        | inl t ↦ swap_done m swapped obj expected desired _ read written ne t
        | inr t ↦ swap_refused m swapped obj expected desired _ read written ne t
      ]

  -- Subtracting what was added gives every word the value that it had, and returns the sum, which wraps
  -- around at 32 bits.
  atomic_fetch_sub-atomic_fetch_add :
      (arg : ℕ)
      → m obj < 2 ^ 32
      → let (after, sum) = atomic_fetch_sub i (atomic_fetch_add i m obj arg).0 obj arg in
        (sum ≡ (m obj + arg) % 2 ^ 32) × ((b : ℕ) → after b ≡ m b)
  unfolding atomic_fetch_sub atomic_fetch_add
  atomic_fetch_sub-atomic_fetch_add arg h =
      let (old, added) = ok.adds m obj (to_long arg) in
      let (sum, taken) = ok.adds (i.exchange_add m obj (to_long arg)).0 obj (minus_long arg) in
      (
        sum ∙ added.value ∙ omega arith,
        λ b. elim (Bool-cases (b == obj)) [
          | inl same ↦
              let e : b ≡ obj = (==_iff b obj).0 same in
              ap (atomic_fetch_sub i (atomic_fetch_add i m obj arg).0 obj arg).0 e
              ∙ taken.value
              ∙ ap (λ w. (w + minus_long arg) % 2 ^ 32) added.value
              ∙ undone (m obj) arg h
              ∙ sym (ap m e)
          | inr other ↦
              taken.others b (other_word b obj other) ∙ added.others b (other_word b obj other)
        ],
      )

  -- An operation that returns what the object held leaves it holding the new value, and nothing else
  -- changed.
  abbrev Updates : Memory × ℕ → ℕ → Type 0
  Updates (after, old) v =
      (old ≡ atomic_load m obj)
      × (atomic_load after obj ≡ v)
      × ((b : ℕ) → b ≢ obj → atomic_load after b ≡ atomic_load m b)

  updated : {r : Memory × ℕ} {v : ℕ} → (r.1 ≡ m obj) × IsWritten m obj v r.0 → Updates r v
  unfolding atomic_load
  updated (old, written) = (old, written.value, written.others)

  -- What is loaded behind an operation is the old value with the argument, cut to 32 bits, or'ed,
  -- xor'ed or and'ed to it, or put in its place; `atomic_store` is `atomic_exchange` but for the result.
  atomic_load_lem :
      (arg : ℕ)
      → Updates (atomic_fetch_or i m obj arg) (bit_or (m obj) (to_long arg))
        × Updates (atomic_fetch_xor i m obj arg) (bit_xor (m obj) (to_long arg))
        × Updates (atomic_fetch_and i m obj arg) (bit_and (m obj) (to_long arg))
        × Updates (atomic_exchange i m obj arg) (to_long arg)
        × (atomic_store i m obj arg ≡ (atomic_exchange i m obj arg).0)
  unfolding atomic_fetch_or atomic_fetch_xor atomic_fetch_and atomic_exchange atomic_store
  atomic_load_lem arg =
      let word = to_long arg in
      (
        updated (ok.ors m obj word),
        updated (ok.xors m obj word),
        updated (ok.ands m obj word),
        updated (ok.exchanges m obj word),
        refl,
      )
