-- ===== src/Ws/Masks.antt =====
-- Masking a payload twice with the same key gives the payload back.
use Prim.Native.Nat.{bit_xor}
use quick_js_debugger.Prelude.{
  ℕ, zero, suc, ◌<◌, ◌≡◌, refl, ap, ◌∙◌, Bool, true, [], ◌∷◌, arith, ◌==◌, ==_iff, All, ◌%◌, length,
}
use quick_js_debugger.Prelude.Ranges.{passes_from, passes_from-passes}
use quick_js_debugger.Text.Bytes.{Bytes}
use quick_js_debugger.Ws.Frames.{unmask, byte_at}

abbrev returns : ℕ → ℕ → Bool
returns c k = bit_xor (bit_xor c k) k == c

abbrev row : ℕ → Bool
row c = passes_from (returns c) 0 256

xor_table : passes_from row 0 256 ≡ true
unfolding passes_from
xor_table = refl

bit_xor_twice : (c k : ℕ) → c < 256 → k < 256 → bit_xor (bit_xor c k) k ≡ c
bit_xor_twice c k hc hk =
    let line = passes_from-passes row 256 0 c (omega arith) hc xor_table in
    (==_iff _ c).0 (passes_from-passes (returns c) 256 0 k (omega arith) hk line)

abbrev pub AreBytes : Bytes → Type 0
AreBytes = All (λ c. c < 256)

byte_at-lt : (n : ℕ) (s : Bytes) → AreBytes s → byte_at n s < 256
byte_at-lt n [] h = omega arith
byte_at-lt zero (c ∷ s) h = h.0
byte_at-lt (suc n) (c ∷ s) h = byte_at-lt n s h.1

-- A payload that was masked is unmasked with the same key.
pub unmask-unmask :
    (mask payload : Bytes) (i : ℕ)
    → AreBytes mask
    → AreBytes payload
    → unmask mask i (unmask mask i payload) ≡ payload
unfolding unmask
unmask-unmask mask [] i hm hd = refl
unmask-unmask mask (c ∷ s) i hm hd =
    ap (λ x. x ∷ unmask mask (suc i) (unmask mask (suc i) s))
      (bit_xor_twice c (byte_at (i % 4) mask) hd.0 (byte_at-lt (i % 4) mask hm))
    ∙ ap (◌∷◌ c) (unmask-unmask mask s (suc i) hm hd.1)

pub length-unmask : (mask payload : Bytes) (i : ℕ) → length (unmask mask i payload) ≡ length payload
unfolding unmask
length-unmask mask [] i = refl
length-unmask mask (c ∷ s) i = ap suc (length-unmask mask s (suc i))
