-- ===== src/Base/Words.antt =====
-- Machine words: a value of an unsigned type is the number that it stands for.
use Prim.Native.Nat.{ℕ, ◌+◌, ◌*◌, ◌/◌, ◌%◌, ◌<◌}
use mathlib.Core.Path.{◌≡◌}
use mathlib.Core.List.{List, [], ◌∷◌}
use native.Mathlib.Omega.{arith}

-- Of each width the cast, which drops what is above it, and the values that it keeps.
abbrev pub u8 : ℕ → ℕ
u8 n = n % 256

abbrev pub IsU8 : ℕ → Type 0
IsU8 n = n < 256

abbrev pub u16 : ℕ → ℕ
u16 wide = wide % 65536

abbrev pub IsU16 : ℕ → Type 0
IsU16 wide = wide < 65536

abbrev pub u32 : ℕ → ℕ
u32 wide = wide % 4294967296

abbrev pub IsU32 : ℕ → Type 0
IsU32 wide = wide < 4294967296

-- `from_be_bytes` and `to_be_bytes`. The digits are taken one by one, which is what is read back.
abbrev pub be16 : ℕ → ℕ → ℕ
be16 a b = a * 256 + b

abbrev pub be32 : ℕ → ℕ → ℕ → ℕ → ℕ
be32 a b c d = ((a * 256 + b) * 256 + c) * 256 + d

abbrev pub bytes16 : ℕ → List ℕ
bytes16 n = (n / 256) ∷ (n % 256) ∷ []

abbrev pub bytes32 : ℕ → List ℕ
bytes32 n = (n / 16777216) ∷ (n / 65536 % 256) ∷ (n / 256 % 256) ∷ (n % 256) ∷ []

pub be16-bytes16 : (n : ℕ) → be16 (n / 256) (n % 256) ≡ n
be16-bytes16 n = omega arith

pub be32-bytes32 : (n : ℕ) → be32 (n / 16777216) (n / 65536 % 256) (n / 256 % 256) (n % 256) ≡ n
be32-bytes32 n = omega arith
