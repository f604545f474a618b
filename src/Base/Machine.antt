-- ===== src/Base/Machine.antt =====
-- Arithmetic that Rust checks for overflow in a debug build and wraps in a release build.
use Prim.Native.Nat.{ℕ, ◌+◌, ◌*◌, ◌-◌, ◌/◌, ◌%◌, ◌^◌, ◌≤◌, ◌<◌}
use mathlib.Core.Path.{◌≡◌, refl}
use mathlib.Core.Option.{Option, none, some}
use pathforge.Base.Tests.{ltb, if◌then◌else◌, lt→ltb, le→ltb}
use pathforge.Base.Words.{u8, u32}

-- Whether overflow checks are compiled in.
pub data Build : Type 0 where
  checked wrapping : Build

-- What an operation comes to that overflows with the wrapped result; `none` is the panic.
abbrev pub overflow : Build → ℕ → Option ℕ
overflow checked n = none
overflow wrapping n = some n

-- `a - b` on u8
unfoldable pub sub8 : Build → ℕ → ℕ → Option ℕ
sub8 build a b = if ltb a b then overflow build (u8 (a + 256 - b)) else some (a - b)

-- `a >> s` and `a << s` on u32: a shift by 32 or more overflows, and wraps to the shift modulo 32.
unfoldable pub shr32 : Build → ℕ → ℕ → Option ℕ
shr32 build a s = if ltb s 32 then some (a / 2 ^ s) else overflow build (a / 2 ^ (s % 32))

unfoldable pub shl32 : Build → ℕ → ℕ → Option ℕ
shl32 build a s =
    if ltb s 32 then some (u32 (a * 2 ^ s)) else overflow build (u32 (a * 2 ^ (s % 32)))

pub sub8_lem : (build : Build) (a b : ℕ) → b ≤ a → sub8 build a b ≡ some (a - b)
unfolding sub8
sub8_lem build a b h = rw (le→ltb a b h) refl

pub shr32_lem : (build : Build) (a s : ℕ) → s < 32 → shr32 build a s ≡ some (a / 2 ^ s)
unfolding shr32
shr32_lem build a s h = rw (lt→ltb s 32 h) refl

pub shl32_lem : (build : Build) (a s : ℕ) → s < 32 → shl32 build a s ≡ some (u32 (a * 2 ^ s))
unfolding shl32
shl32_lem build a s h = rw (lt→ltb s 32 h) refl
