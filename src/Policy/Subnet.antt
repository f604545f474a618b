-- ===== src/Policy/Subnet.antt =====
-- What the mask of `is_subnet` of src/policy.rs compares.
use pathforge.Base.{
  ℕ, ◌-◌, ◌*◌, ◌/◌, ◌^◌, ◌≤◌, ◌<◌, ◌≡◌, refl, some, Bool, true, false, ◌&&◌, ◌==◌, ltb, leb, inl,
  inr, Bool-cases, Build, sub8_lem, shl32_lem, IsU32, ==_iff, arith, bit_and-mask, power_below, u32,
}
use pathforge.Policy.{is_subnet}

-- The upper bits of two addresses are the same.
abbrev pub shares : ℕ → ℕ → ℕ → Bool
shares len a b = (a / 2 ^ (32 - len)) == (b / 2 ^ (32 - len))

shares_default : (len a b : ℕ) → IsU32 a → IsU32 b → (len == 0) ≡ true → shares len a b ≡ true
shares_default len a b u v e = let z : len ≡ 0 = (==_iff len 0).0 e in rw z (ground arith)

-- For a network of at most 32 bits, is_subnet panics in no build, and it holds exactly if the tested
-- prefix is at least as long as the network and has its leading bits.
pub is_subnet_lem :
    (build : Build) (test_addr test_len net_addr net_len : ℕ)
    → net_len ≤ 32
    → IsU32 test_addr
    → IsU32 net_addr
    → is_subnet build test_addr test_len net_addr net_len
      ≡ some (leb net_len test_len && shares net_len net_addr test_addr)
unfolding is_subnet
is_subnet_lem build test_addr test_len net_addr net_len h u v =
    elim (Bool-cases (ltb test_len net_len)) [
      | inl short ↦
          let not_long : leb net_len test_len ≡ false = ground (arith, short) in
          rw (short, not_long) refl
      | inr long ↦ elim (Bool-cases (net_len == 0)) [
        | inl default ↦
            let enough : leb net_len test_len ≡ true = ground (arith, long) in
            rw (long, default, enough, shares_default net_len net_addr test_addr v u default) refl
        | inr positive ↦
            let enough : leb net_len test_len ≡ true = ground (arith, long) in
            let few : 32 - net_len < 32 = ground (arith, positive) in
            let below = power_below (32 - net_len) few in
            let bit : u32 (1 * 2 ^ (32 - net_len)) ≡ 2 ^ (32 - net_len) = omega (arith, below) in
            rw
              (
                long,
                positive,
                sub8_lem build 32 net_len h,
                shl32_lem build 1 (32 - net_len) few,
                bit,
                enough,
                bit_and-mask (32 - net_len) net_addr test_addr (omega arith) v u,
              )
              refl
      ]
    ]
