-- ===== src/Base/Masks.antt =====
-- The word of a graceful restart: four bits above twelve, put together and taken apart with masks.
-- Every one of the words is run.
use Prim.Native.Nat.{ℕ, zero, suc, ◌*◌, ◌/◌, ◌<◌, bit_and, bit_or}
use mathlib.Core.Path.{◌≡◌, refl}
use mathlib.Core.Bool.{Bool, true, ◌&&◌}
use native.Mathlib.Omega.{arith}
use pathforge.Base.Tests.{◌==◌, ltb}

abbrev pub mask_word : ℕ → ℕ → ℕ
mask_word high low = bit_or (bit_and high 15 * 4096) (bit_and low 4095)

parts_back : ℕ → ℕ → Bool
parts_back high low =
    ltb (mask_word high low) 65536
    && bit_and (mask_word high low) 4095 == low
    && bit_and (mask_word high low / 4096) 15 == high

highs : ℕ → ℕ → Bool
highs zero low = true
highs (suc high) low = parts_back high low && highs high low

lows : ℕ → Bool
lows zero = true
lows (suc low) = highs 16 low && lows low

highs-at : (n high low : ℕ) → highs n low ≡ true → high < n → parts_back high low ≡ true
unfolding highs
highs-at zero high low h below = absurd (omega arith)
highs-at (suc n) high low h below = ground (arith, highs-at n high low)

lows-at : (n low : ℕ) → lows n ≡ true → low < n → highs 16 low ≡ true
unfolding lows
lows-at zero low h below = absurd (omega arith)
lows-at (suc n) low h below = ground (arith, lows-at n low)

lows_all : lows 4096 ≡ true
unfolding lows highs parts_back
lows_all = refl

pub mask_word_parts :
    (high low : ℕ)
    → high < 16
    → low < 4096
    → (mask_word high low < 65536)
      × (bit_and (mask_word high low) 4095 ≡ low)
      × (bit_and (mask_word high low / 4096) 15 ≡ high)
unfolding parts_back
mask_word_parts high low h l =
    let e = highs-at 16 high low (lows-at 4096 low lows_all l) h in
    (ground arith, ground arith, ground arith)
