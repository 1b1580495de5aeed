-- ===== src/Base/Tables.antt =====
-- Tests of every number below a bound, by evaluation: for facts about octets and bytes.
use Prim.Native.Nat.{ℕ, zero, suc, ◌<◌}
use mathlib.Core.Path.{◌≡◌}
use mathlib.Core.Logic.{inl, inr}
use mathlib.Core.Bool.{Bool, true, ◌&&◌}
use native.Mathlib.Omega.{arith}
use unicast.Base.Tests.{◌==◌, Bool-cases}

unfoldable pub holds_below : (ℕ → Bool) → ℕ → Bool
holds_below test zero = true
holds_below test (suc bound) = holds_below test bound && test bound

pub holds_below-at :
    (test : ℕ → Bool) (bound n : ℕ) → n < bound → holds_below test bound ≡ true → test n ≡ true
unfolding holds_below
holds_below-at test zero n below checked = absurd (omega arith)
holds_below-at test (suc bound) n below checked = elim (Bool-cases (n == bound)) [
  | inl last ↦ ground arith
  | inr earlier ↦ ground (arith, holds_below-at test bound n)
]
