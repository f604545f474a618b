-- ===== src/Base/Masked.antt =====
-- The upper bits of a word, taken with `&` and a mask of ones above zeros.
use pathforge.Base.Tests.{◌==◌}
use native.Mathlib.Nat.{div-div-eq-div-mul}
use Prim.Native.Nat.{
  ℕ, zero, suc, ◌+◌, ◌-◌, ◌*◌, ◌/◌, ◌^◌, ◌≤◌, ◌<◌, bit_and, min, digits, bit_and-bitwise,
}
use mathlib.Core.Path.{◌≡◌, refl, ap, sym, ◌∙◌}
use native.Mathlib.Omega.{arith}
use pathforge.Base.Joined.{doubled}

-- A number shifted to the right.
abbrev pub halved : ℕ → ℕ → ℕ
halved zero a = a
halved (suc bits) a = halved bits (a / 2)

-- So many ones.
abbrev pub ones : ℕ → ℕ
ones zero = 0
ones (suc count) = ones count * 2 + 1

digits_zero : (n m : ℕ) → digits (λ b. 0) min n 0 m ≡ 0
digits_zero zero m = refl
digits_zero (suc n) m = refl

digits_all : (count n a : ℕ) → a ≤ n → a ≤ ones count → digits (λ b. 0) min n a (ones count) ≡ a
digits_all zero n a h l =
    let e : a ≡ 0 = omega arith in ap (λ x. digits (λ b. 0) min n x 0) e ∙ digits_zero n 0 ∙ sym e
digits_all (suc count) zero a h l = omega arith
digits_all (suc count) (suc n) zero h l = refl
digits_all (suc count) (suc n) (suc a) h l =
    let half : (ones count * 2 + 1) / 2 ≡ ones count = omega arith in
    let e = digits_all count n (suc a / 2) (omega arith) (omega arith) in rw (half, e) (omega arith)

halved_zero : (bits : ℕ) → halved bits 0 ≡ 0
halved_zero zero = refl
halved_zero (suc bits) = halved_zero bits

doubled_zero : (bits : ℕ) → doubled bits 0 ≡ 0
unfolding doubled
doubled_zero zero = refl
doubled_zero (suc bits) = ap (λ n. n * 2) (doubled_zero bits)

shifts_zero : (bits : ℕ) → doubled bits (halved bits 0) ≡ 0
shifts_zero bits = ap (doubled bits) (halved_zero bits) ∙ doubled_zero bits

digits_upper :
    (bits count n a : ℕ)
    → a ≤ n
    → halved bits a ≤ ones count
    → digits (λ b. 0) min n a (doubled bits (ones count)) ≡ doubled bits (halved bits a)
unfolding doubled
digits_upper zero count n a h l = digits_all count n a h l
digits_upper (suc bits) count zero a h l =
    let e : a ≡ 0 = omega arith in sym (rw e (shifts_zero (suc bits)))
digits_upper (suc bits) count (suc n) zero h l = sym (shifts_zero (suc bits))
digits_upper (suc bits) count (suc n) (suc a) h l =
    let half : doubled bits (ones count) * 2 / 2 ≡ doubled bits (ones count) = omega arith in
    let e = digits_upper bits count n (suc a / 2) (omega arith) l in rw (half, e) (omega arith)

ones_none : (count : ℕ) → ones (0 + count) ≡ ones count
ones_none count = let e : 0 + count ≡ count = omega arith in ap ones e

ones_more : (bits count : ℕ) → ones (suc bits + count) ≡ ones (bits + count) * 2 + 1
ones_more bits count = let e : suc bits + count ≡ suc (bits + count) = omega arith in ap ones e

-- A number of so many bits has the rest of them above the lowest ones.
halved-ones : (bits count a : ℕ) → a ≤ ones (bits + count) → halved bits a ≤ ones count
halved-ones zero count a h = omega (arith, ones_none count)
halved-ones (suc bits) count a h =
    halved-ones bits count (a / 2) (omega (arith, ones_more bits count))

power_some : (bits : ℕ) → 1 ≤ 2 ^ bits
power_some zero = omega arith
power_some (suc bits) = let h = power_some bits in omega (arith, h)

-- The mask, as the source makes it.
ones-doubled : (bits count : ℕ) → ones (bits + count) ≡ doubled bits (ones count) + (2 ^ bits - 1)
unfolding doubled
ones-doubled zero count = omega (arith, ones_none count)
ones-doubled (suc bits) count =
    let e = ones-doubled bits count in
    let h = power_some bits in omega (arith, e, h, ones_more bits count)

doubled-== : (bits a b : ℕ) → (doubled bits a == doubled bits b) ≡ (a == b)
unfolding doubled
doubled-== zero a b = refl
doubled-== (suc bits) a b =
    let twice : (doubled bits a * 2 == doubled bits b * 2) ≡ (doubled bits a == doubled bits b) =
      ground arith in
    twice ∙ doubled-== bits a b

halved_lem : (bits a : ℕ) → halved bits a ≡ a / 2 ^ bits
halved_lem zero a = omega arith
halved_lem (suc bits) a =
    halved_lem bits (a / 2) ∙ div-div-eq-div-mul a 2 (2 ^ bits) ∙ ap (λ n. a / n) (omega arith)

-- A shifted one is a u32.
pub power_below : (bits : ℕ) → bits < 32 → 2 ^ bits < 4294967296
power_below bits h =
    let e : bits + (31 - bits) ≡ 31 = omega arith in
    let top : ones (bits + (31 - bits)) ≡ 2147483647 = ap ones e in
    omega (arith, top, ones-doubled bits (31 - bits))

-- Of a u32 the mask keeps the number without its lowest bits.
bit_and-doubled :
    (bits count a : ℕ)
    → bits + count ≡ 32
    → a < 4294967296
    → bit_and a (4294967295 - (2 ^ bits - 1)) ≡ doubled bits (halved bits a)
bit_and-doubled bits count a e u =
    let top : ones (bits + count) ≡ 4294967295 = ap ones e in
    let mask : 4294967295 - (2 ^ bits - 1) ≡ doubled bits (ones count) =
      omega (arith, top, ones-doubled bits count) in
    let low : a ≤ ones (bits + count) = omega (arith, top) in
    ap (bit_and a) mask
    ∙ bit_and-bitwise a (doubled bits (ones count))
    ∙ digits_upper bits count a a (omega arith) (halved-ones bits count a low)

-- Two numbers are the same under the mask if they are without their lowest bits.
pub bit_and-mask :
    (bits a b : ℕ)
    → bits ≤ 32
    → a < 4294967296
    → b < 4294967296
    → (bit_and a (4294967295 - (2 ^ bits - 1)) == bit_and b (4294967295 - (2 ^ bits - 1)))
      ≡ ((a / 2 ^ bits) == (b / 2 ^ bits))
bit_and-mask bits a b h u v =
    let all : bits + (32 - bits) ≡ 32 = omega arith in
    rw (bit_and-doubled bits (32 - bits) a all u, bit_and-doubled bits (32 - bits) b all v)
      (doubled-== bits (halved bits a) (halved bits b)
        ∙ rw (halved_lem bits a, halved_lem bits b) refl)
