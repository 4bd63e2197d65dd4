-- ===== src/Atomics.antt =====
-- compat/msvc/stdatomic.h: the atomic operations of the C standard for code that is built by MSVC, as
-- macros over the _Interlocked intrinsics of the compiler, which are parameters. Every object is taken for
-- a `long` of 32 bits, which is held as the number of its bits. Each intrinsic is one step.
pub mod Meaning
use Prim.Native.Nat.{bit_and, bit_or, bit_xor}
use quick_js_debugger.Prelude.{
  ℕ, zero, ◌+◌, ◌-◌, ◌%◌, ◌^◌, ◌<◌, ◌≡◌, ◌≢◌, refl, sym, ap, ◌∙◌, ◌⊎◌, inl, inr, Bool, true, false,
  arith, ◌==◌, ==_iff, if◌then◌else◌, Bool-cases,
}

-- The memory: what stands at each address.
abbrev pub Memory : Type 0
Memory = ℕ → ℕ

-- _InterlockedExchangeAdd, _InterlockedOr, _InterlockedXor, _InterlockedAnd, _InterlockedExchange and
-- _InterlockedCompareExchange (the new value before the one compared with); with what they return.
pub record Intrinsics : Type 0 where
  pub exchange_add : Memory → ℕ → ℕ → Memory × ℕ
  pub or_word : Memory → ℕ → ℕ → Memory × ℕ
  pub xor_word : Memory → ℕ → ℕ → Memory × ℕ
  pub and_word : Memory → ℕ → ℕ → Memory × ℕ
  pub exchange : Memory → ℕ → ℕ → Memory × ℕ
  pub compare_exchange : Memory → ℕ → ℕ → ℕ → Memory × ℕ

-- `after` is `before` but for the word at `a`, which is `v`.
pub record IsWritten (before : Memory) (a v : ℕ) (after : Memory) : Type 0 where
  pub value : after a ≡ v
  pub others : (b : ℕ) → b ≢ a → after b ≡ before b

-- What the compiler's documentation says of the intrinsics that the theorems rely on.
pub record IsInterlocked (i : Intrinsics) : Type 0 where
  pub adds :
      (m : Memory) (a v : ℕ)
      → ((i.exchange_add m a v).1 ≡ m a)
        × IsWritten m a ((m a + v) % 2 ^ 32) (i.exchange_add m a v).0
  pub ors :
      (m : Memory) (a v : ℕ)
      → ((i.or_word m a v).1 ≡ m a) × IsWritten m a (bit_or (m a) v) (i.or_word m a v).0
  pub xors :
      (m : Memory) (a v : ℕ)
      → ((i.xor_word m a v).1 ≡ m a) × IsWritten m a (bit_xor (m a) v) (i.xor_word m a v).0
  pub ands :
      (m : Memory) (a v : ℕ)
      → ((i.and_word m a v).1 ≡ m a) × IsWritten m a (bit_and (m a) v) (i.and_word m a v).0
  pub exchanges :
      (m : Memory) (a v : ℕ) → ((i.exchange m a v).1 ≡ m a) × IsWritten m a v (i.exchange m a v).0
  pub compares :
      (m : Memory) (a v c : ℕ)
      → ((i.compare_exchange m a v c).1 ≡ m a)
        × IsWritten m a (if m a == c then v else m a) (i.compare_exchange m a v c).0

-- `(long)(arg)` and `-(long)(arg)`.
abbrev pub to_long : ℕ → ℕ
to_long arg = arg % 2 ^ 32

abbrev pub minus_long : ℕ → ℕ
minus_long arg = (2 ^ 32 - arg % 2 ^ 32) % 2 ^ 32

-- `*expected = old`.
abbrev pub write_word : Memory → ℕ → ℕ → Memory
write_word m a v b = if b == a then v else m b

module _ (i : Intrinsics) where
  unfoldable pub atomic_fetch_add : Memory → ℕ → ℕ → Memory × ℕ
  atomic_fetch_add m obj arg = i.exchange_add m obj (to_long arg)

  unfoldable pub atomic_fetch_sub : Memory → ℕ → ℕ → Memory × ℕ
  atomic_fetch_sub m obj arg = i.exchange_add m obj (minus_long arg)

  unfoldable pub atomic_fetch_or : Memory → ℕ → ℕ → Memory × ℕ
  atomic_fetch_or m obj arg = i.or_word m obj (to_long arg)

  unfoldable pub atomic_fetch_xor : Memory → ℕ → ℕ → Memory × ℕ
  atomic_fetch_xor m obj arg = i.xor_word m obj (to_long arg)

  unfoldable pub atomic_fetch_and : Memory → ℕ → ℕ → Memory × ℕ
  atomic_fetch_and m obj arg = i.and_word m obj (to_long arg)

  unfoldable pub atomic_exchange : Memory → ℕ → ℕ → Memory × ℕ
  atomic_exchange m obj desired = i.exchange m obj (to_long desired)

  unfoldable pub atomic_store : Memory → ℕ → ℕ → Memory
  atomic_store m obj desired = (i.exchange m obj (to_long desired)).0

  -- The new memory, and the int that is returned; `*expected` is read before and behind the exchange.
  unfoldable pub atomic_compare_exchange_strong : Memory → ℕ → ℕ → ℕ → Memory × ℕ
  atomic_compare_exchange_strong m obj expected desired =
      let (m', old) = i.compare_exchange m obj desired (m expected) in
      if old == m' expected then (m', 1) else (write_word m' expected old, 0)

unfoldable pub atomic_load : Memory → ℕ → ℕ
atomic_load m obj = m obj
