-- ===== src/Prelude/Finite.antt =====
-- Checking a Boolean property at every number under a bound by evaluation, and what a check that came
-- out true says. It decides the tables of bytes and scancodes.
use Prim.Native.Nat.{ℕ, zero, suc, ◌<◌}
use mathlib.Core.Bool.{Bool, true, false}
use mathlib.Core.Path.{◌≡◌}
use mathlib.Core.Logic.{inl, inr}
use native.Mathlib.Omega.{arith}
use hrafn_os.Prelude.Tests.{◌==◌, Bool-cases, if◌then◌else◌}

-- The property `p` holds at bound - 1, bound - 2, … and 0.
unfoldable pub holds_under : (ℕ → Bool) → ℕ → Bool
holds_under p zero = true
holds_under p (suc bound) = let rest = holds_under p bound in if p bound then rest else false

pub holds_under-at :
    (p : ℕ → Bool) {bound : ℕ} {k : ℕ} → holds_under p bound ≡ true → k < bound → p k ≡ true
unfolding holds_under
holds_under-at p {bound = zero} c l = absurd (omega arith)
holds_under-at p {bound = suc bound} {k} c l = elim (Bool-cases (k == bound)) [
  | inl e ↦ let q : k ≡ bound = ground arith in rw q (ground arith)
  | inr e ↦ holds_under-at p {bound = bound} (ground arith) (ground arith)
]
