-- ===== src/Prelude/Ranges.antt =====
-- A Boolean test at every number of a range, by evaluation.
use mathlib.Core.Path.{subst}
use Prim.Native.Nat.{ℕ, zero, suc, ◌+◌, ◌≤◌, ◌<◌}
use mathlib.Core.Path.{◌≡◌, refl}
use mathlib.Core.Bool.{Bool, true, false, ◌&&◌}
use mathlib.Core.Logic.{inl, inr}
use native.Mathlib.Omega.{arith}
use quick_js_debugger.Prelude.Tests.{◌==◌, ==_iff, Bool-cases}

-- The test at `left` numbers, from `first` on.
unfoldable pub passes_from : (ℕ → Bool) → ℕ → ℕ → Bool
passes_from p first zero = true
passes_from p first (suc left) = let others = passes_from p (suc first) left in p first && others

both : (a b : Bool) → (a && b) ≡ true → (a ≡ true) × (b ≡ true)
both true b h = (refl, h)
both false b h = cc

pub passes_from-passes :
    (p : ℕ → Bool) (left first c : ℕ)
    → first ≤ c
    → c < first + left
    → passes_from p first left ≡ true
    → p c ≡ true
unfolding passes_from
passes_from-passes p zero first c low high h = absurd (omega arith)
passes_from-passes p (suc left) first c low high h =
    let (here, later) = both (p first) (passes_from p (suc first) left) h in
    elim (Bool-cases (first == c)) [
      | inl e ↦ subst (λ x. p x ≡ true) ((==_iff first c).0 e) here
      | inr e ↦ passes_from-passes p left (suc first) c (ground arith) (omega arith) later
    ]
