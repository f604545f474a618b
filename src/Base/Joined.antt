-- ===== src/Base/Joined.antt =====
-- The bits of two numbers put together with `|`, where none of them meet: their sum.
use Prim.Native.Nat.{
  digits, max, bit_or-bitwise, ℕ, zero, suc, ◌+◌, ◌*◌, ◌/◌, ◌%◌, ◌^◌, ◌≤◌, ◌<◌, bit_or,
}
use mathlib.Core.Path.{◌≡◌, refl, ap, subst, ◌∙◌}
use native.Mathlib.Omega.{arith}

-- So many of the lowest bits are zero.
HasZeros : ℕ → ℕ → Type 0
HasZeros zero a = Unit {0}
HasZeros (suc bits) a = (a % 2 ≡ 0) × HasZeros bits (a / 2)

digits_alone : (n a : ℕ) → a ≤ n → digits (λ b. b) max n a 0 ≡ a
digits_alone zero zero h = refl
digits_alone zero (suc a) h = absurd (omega arith)
digits_alone (suc n) zero h = refl
digits_alone (suc n) (suc a) h =
    let e = digits_alone n (suc a / 2) (omega arith) in rw e (omega arith)

digits_sum :
    (bits n a b : ℕ) → a ≤ n → HasZeros bits a → b < 2 ^ bits → digits (λ b. b) max n a b ≡ a + b
unfolding HasZeros
digits_sum zero n a b h z l =
    let none_left : b ≡ 0 = omega arith in
    ap (digits (λ x. x) max n a) none_left ∙ digits_alone n a h ∙ omega arith
digits_sum (suc bits) zero a b h z l = omega arith
digits_sum (suc bits) (suc n) zero b h z l = omega arith
digits_sum (suc bits) (suc n) (suc a) b h z l =
    let e = digits_sum bits n (suc a / 2) (b / 2) (omega arith) z.1 (omega arith) in
    let even : suc a % 2 ≡ 0 = z.0 in rw e (omega (arith, even))

double-HasZeros : (bits a : ℕ) → HasZeros bits a → HasZeros (suc bits) (a * 2)
unfolding HasZeros
double-HasZeros bits a z =
    let half : a ≡ a * 2 / 2 = omega arith in (omega arith, subst (HasZeros bits) half z)

-- A number shifted to the left.
unfoldable pub doubled : ℕ → ℕ → ℕ
doubled zero a = a
doubled (suc bits) a = doubled bits a * 2

doubled-HasZeros : (bits a : ℕ) → HasZeros bits (doubled bits a)
unfolding HasZeros doubled
doubled-HasZeros zero a = tt
doubled-HasZeros (suc bits) a = double-HasZeros bits (doubled bits a) (doubled-HasZeros bits a)

doubled_16 : (a : ℕ) → doubled 16 a ≡ a * 65536
unfolding doubled
doubled_16 a = omega arith

-- The upper and the lower half of a u32.
pub bit_or-halves : (high low : ℕ) → low < 65536 → bit_or (high * 65536) low ≡ high * 65536 + low
bit_or-halves high low h =
    let zeros = subst (HasZeros 16) (doubled_16 high) (doubled-HasZeros 16 high) in
    bit_or-bitwise (high * 65536) low
    ∙ digits_sum 16 (high * 65536) (high * 65536) low (omega arith) zeros (omega arith)
