-- ===== src/Mp.antt =====
-- src/mp.rs: address families and the errors of the multiprotocol attributes. The children model
-- MpPrefix, MpReachNlri and MpUnreachNlri.
pub mod Prefix
pub mod Reach
pub mod Unreach
mod Tests
use pathforge.Base.{ℕ, List, Outcome, ok, err, ◌==◌, if◌then◌else◌}

pub data Afi : Type 0 where
  ipv4 ipv6 : Afi

-- `afi as u16`
abbrev pub afi_code : Afi → ℕ
afi_code ipv4 = 1
afi_code ipv6 = 2

pub data Safi : Type 0 where
  unicast multicast labeled_unicast : Safi

-- `safi as u8`
abbrev pub safi_code : Safi → ℕ
safi_code unicast = 1
safi_code multicast = 2
safi_code labeled_unicast = 4

-- The variant InvalidAddress of the source is built nowhere.
pub data MpError : Type 0 where
  unknown_afi unknown_safi : ℕ → MpError
  too_short invalid_address : MpError

-- `Afi::try_from` and `Safi::try_from`
unfoldable pub afi_from : ℕ → Outcome MpError Afi
afi_from v = if v == 1 then ok ipv4 else if v == 2 then ok ipv6 else err (unknown_afi v)

unfoldable pub safi_from : ℕ → Outcome MpError Safi
safi_from v =
    if v == 1
    then ok unicast
    else if v == 2
    then ok multicast
    else if v == 4
    then ok labeled_unicast
    else err (unknown_safi v)

-- An address by its octets: 4 for V4, 16 for V6.
pub data IpAddr : Type 0 where
  v4 v6 : List ℕ → IpAddr

-- `octets()`
abbrev pub octets : IpAddr → List ℕ
octets (v4 a) = a
octets (v6 a) = a
