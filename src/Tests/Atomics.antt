-- ===== src/Tests/Atomics.antt =====
-- The atomic operations on a memory whose intrinsics do what is documented.
use Prim.Native.Nat.{bit_and, bit_or, bit_xor}
use quick_js_debugger.Prelude.{◌+◌, ◌*◌, ◌%◌, ◌^◌, ◌≡◌, ◌≢◌, ◌⊎◌, refl, arith, ◌==◌, if◌then◌else◌}
use quick_js_debugger.Atomics.{
  Memory, Intrinsics, IsWritten, IsInterlocked, write_word, atomic_compare_exchange_strong,
}
use quick_js_debugger.Atomics.Meaning.{IsWritten-refl, atomic_compare_exchange_strong-IsWritten}

abbrev documented : Intrinsics
documented = record {
  exchange_add = λ m a v. (write_word m a ((m a + v) % 2 ^ 32), m a);
  or_word = λ m a v. (write_word m a (bit_or (m a) v), m a);
  xor_word = λ m a v. (write_word m a (bit_xor (m a) v), m a);
  and_word = λ m a v. (write_word m a (bit_and (m a) v), m a);
  exchange = λ m a v. (write_word m a v, m a);
  compare_exchange = λ m a v c. (write_word m a (if m a == c then v else m a), m a);
}

documented-IsInterlocked : IsInterlocked documented
documented-IsInterlocked = record {
  adds = λ m a v. (refl, IsWritten-refl m a _);
  ors = λ m a v. (refl, IsWritten-refl m a _);
  xors = λ m a v. (refl, IsWritten-refl m a _);
  ands = λ m a v. (refl, IsWritten-refl m a _);
  exchanges = λ m a v. (refl, IsWritten-refl m a _);
  compares = λ m a v c. (refl, IsWritten-refl m a _);
}

-- A word holds ten times its address.
abbrev tens : Memory
tens a = a * 10

atomic_compare_exchange_strong-IsWritten_example :
    ((tens 3 ≡ tens 4)
      × ((atomic_compare_exchange_strong documented tens 3 4 7).1 ≡ 1)
      × IsWritten tens 3 7 (atomic_compare_exchange_strong documented tens 3 4 7).0)
    ⊎ ((tens 3 ≢ tens 4)
        × ((atomic_compare_exchange_strong documented tens 3 4 7).1 ≡ 0)
        × IsWritten tens 4 (tens 3) (atomic_compare_exchange_strong documented tens 3 4 7).0)
atomic_compare_exchange_strong-IsWritten_example =
    atomic_compare_exchange_strong-IsWritten documented documented-IsInterlocked tens 3 4 7
      (omega arith)
