-- ===== src/Base/Bits.antt =====
-- What setting bit 4 of a byte does, from one sweep over the 256 bytes.
use Prim.Native.Nat.{ℕ, zero, suc, ◌<◌, bit_and, bit_or}
use mathlib.Core.Path.{◌≡◌, refl}
use mathlib.Core.Logic.{◌≢◌, inl, inr}
use mathlib.Core.Bool.{Bool, true, false, ◌&&◌, ◌||◌, not}
use native.Mathlib.Omega.{arith}
use pathforge.Base.Tests.{◌==◌, if◌then◌else◌, Bool-cases}

-- Set, the bit is found set; and where it is set already, setting it changes nothing.
sets_bit : ℕ → Bool
sets_bit f = not (bit_and (bit_or f 16) 16 == 0) && (bit_and f 16 == 0 || bit_or f 16 == f)

sweep : ℕ → Bool
sweep zero = true
sweep (suc f) = if sets_bit f then sweep f else false

sweep-at : (bound f : ℕ) → f < bound → sweep bound ≡ true → sets_bit f ≡ true
unfolding sweep
sweep-at zero f below swept = absurd (omega arith)
sweep-at (suc top) f below swept = elim (Bool-cases (sets_bit top)) [
  | inl good ↦ ground (arith, good, sweep-at top f)
  | inr bad ↦ ground (arith, bad)
]

sweep_bytes : sweep 256 ≡ true
unfolding sweep sets_bit
sweep_bytes = refl

pub bit_or_sets : (f : ℕ) → f < 256 → bit_and (bit_or f 16) 16 ≢ 0
unfolding sets_bit
bit_or_sets f below = ground (arith, sweep-at 256 f below sweep_bytes)

pub bit_or_same : (f : ℕ) → f < 256 → bit_and f 16 ≢ 0 → bit_or f 16 ≡ f
unfolding sets_bit
bit_or_same f below set = ground (arith, sweep-at 256 f below sweep_bytes)
