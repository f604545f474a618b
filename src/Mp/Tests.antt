-- ===== src/Mp/Tests.antt =====
-- The theorems on the multiprotocol attributes at concrete inputs.
use pathforge.Base.{ℕ, ◌≡◌, refl, List, [], ◌∷◌, ◌++◌, replicate, some, ok, arith}
use pathforge.Bytes.{listed, listed-IsDocumented}
use pathforge.Mp.{ipv6, unicast, v6, IpAddr}
use pathforge.Mp.Prefix.{MpPrefix}
use pathforge.Mp.Prefix.Wire as PrefixWire
use pathforge.Mp.Reach
use pathforge.Mp.Reach.{MpReachNlri}
use pathforge.Mp.Reach.Panic.{PanicsCutOff, parse-PanicsCutOff}
use pathforge.Mp.Reach.RoundTrip.{IsSendable, reach_round_trip}

-- 2001:db8::/32 over 2001:db8::1.
abbrev documentation : MpPrefix
documentation = record {
  afi = ipv6;
  prefix_len = 32;
  address = v6 (0x20 ∷ 1 ∷ 0x0D ∷ 0xB8 ∷ replicate 12 0);
}

documentation-IsSendable : PrefixWire.IsSendable ipv6 documentation
documentation-IsSendable = record {
  afi_eq = refl;
  of_family = refl;
  octets_len = refl;
  len_fits = omega arith;
  trimmed = refl;
}

abbrev hop : IpAddr
hop = v6 ((0x20 ∷ 1 ∷ 0x0D ∷ 0xB8 ∷ replicate 11 0) ++ (1 ∷ []))

abbrev announced : MpReachNlri
announced = record { afi = ipv6; safi = unicast; next_hops = hop ∷ []; nlri = documentation ∷ [] }

announced-IsSendable : IsSendable announced
announced-IsSendable = record {
  hops = (record { of_family = refl; octets_len = refl; bytes = ground arith }, tt);
  hops_fit = omega arith;
  prefixes = (documentation-IsSendable, tt);
}

reach_round_trip_example :
    (s : List ℕ) × (Reach.serialize listed announced ≡ some s)
    × (Reach.parse listed s ≡ ok announced)
reach_round_trip_example =
    reach_round_trip listed listed-IsDocumented announced announced-IsSendable

-- An attribute for IPv4 unicast without next hops and without the SNPA byte.
parse-PanicsCutOff_example :
    PanicsCutOff (0 ∷ 1 ∷ 1 ∷ 0 ∷ []) (Reach.parse listed (0 ∷ 1 ∷ 1 ∷ 0 ∷ []))
parse-PanicsCutOff_example = parse-PanicsCutOff listed listed-IsDocumented (0 ∷ 1 ∷ 1 ∷ 0 ∷ [])
