-- ===== src/Mp/Reach/RoundTrip.antt =====
-- MpReachNlri::parse reads what ::serialize writes.
use mathlib.Core.List.{append_assoc, append-nil}
use pathforge.Base.{
  ℕ, zero, suc, ◌+◌, ◌*◌, ◌≤◌, ◌<◌, ◌≡◌, refl, ◌∙◌, sym, ap, List, [], ◌∷◌, ◌++◌, some, ok, arith,
  length, length-append, All, IsU8, le→ltb, bytes32, u8, take-length-append, drop-length-append,
}
use pathforge.Bytes.{BytesCrate, IsDocumented, listed, for_documented}
use pathforge.Mp.{Afi, ipv4, ipv6, afi_code, safi_code, IpAddr, v4, v6, octets}
use pathforge.Mp.Prefix.{serialize_all, slots, address_of}
use pathforge.Mp.Prefix.Wire as PrefixWire
use pathforge.Mp.Prefix.Wire.{encode_all, serialize_all_lem, parse_all-encode}
use pathforge.Mp.Unreach.Wire.{afi_from-code, safi_from-code, afi_bytes}
use pathforge.Mp.Reach
use pathforge.Mp.Reach.{MpReachNlri, read_v4, read_v6, read_next_hops, parse_nlri, put_next_hops}
use pathforge.Mp.Reach.Panic.{parse-next_hops}

-- A next hop of the family.
pub record IsHopOf (afi : Afi) (nh : IpAddr) : Type 0 where
  pub of_family : nh ≡ address_of afi (octets nh)
  pub octets_len : length (octets nh) ≡ slots afi
  pub bytes : All IsU8 (octets nh)

abbrev pub hop_bytes : List IpAddr → List ℕ
hop_bytes [] = []
hop_bytes (nh ∷ nhs) = octets nh ++ hop_bytes nhs

-- Next hops and prefixes of the one family, with next hops that fit their length byte.
pub record IsSendable (m : MpReachNlri) : Type 0 where
  pub hops : All (IsHopOf m.afi) m.next_hops
  pub hops_fit : length (hop_bytes m.next_hops) < 256
  pub prefixes : All (PrefixWire.IsSendable m.afi) m.nlri

put_next_hops_lem :
    (buf : List ℕ) (nhs : List IpAddr) → put_next_hops listed buf nhs ≡ buf ++ hop_bytes nhs
unfolding put_next_hops
put_next_hops_lem buf [] = sym (append-nil buf)
put_next_hops_lem buf (nh ∷ nhs) =
    put_next_hops_lem (buf ++ octets nh) nhs ∙ append_assoc buf (octets nh) (hop_bytes nhs)

read_v4_octets :
    (fuel : ℕ) (a rest : List ℕ) (nhs : List IpAddr)
    → length a ≡ 4
    → All IsU8 a
    → read_v4 listed fuel rest ≡ ok nhs
    → read_v4 listed (suc fuel) (a ++ rest) ≡ ok (v4 a ∷ nhs)
unfolding read_v4
read_v4_octets fuel (a ∷ b ∷ c ∷ d ∷ []) rest nhs l u e =
    let p : bytes32 (((a * 256 + b) * 256 + c) * 256 + d) ≡ a ∷ b ∷ c ∷ d ∷ [] = ground arith in
    rw (le→ltb (length (a ∷ b ∷ c ∷ d ∷ rest)) 4 (omega arith), e, p) refl
read_v4_octets fuel _ rest nhs l u e = absurd (omega arith)

read_v6_octets :
    (fuel : ℕ) (a rest : List ℕ) (nhs : List IpAddr)
    → length a ≡ 16
    → read_v6 listed fuel rest ≡ ok nhs
    → read_v6 listed (suc fuel) (a ++ rest) ≡ ok (v6 a ∷ nhs)
unfolding read_v6
read_v6_octets fuel a rest nhs l e = rw (← l) (
    rw
      (
        le→ltb (length (a ++ rest)) (length a) (omega (arith, length-append a rest)),
        take-length-append a rest,
        drop-length-append a rest,
        e,
      )
      refl)

read_v4-encode :
    (fuel : ℕ) (nhs : List IpAddr)
    → All (IsHopOf ipv4) nhs
    → length (hop_bytes nhs) ≤ fuel
    → read_v4 listed fuel (hop_bytes nhs) ≡ ok nhs
unfolding read_v4
read_v4-encode zero [] w h = refl
read_v4-encode (suc fuel) [] w h = refl
read_v4-encode zero (nh ∷ nhs) w h =
    absurd (omega (arith, w.0.octets_len, length-append (octets nh) (hop_bytes nhs)))
read_v4-encode (suc fuel) (nh ∷ nhs) w h =
    read_v4_octets fuel (octets nh) (hop_bytes nhs) nhs w.0.octets_len w.0.bytes (
      read_v4-encode fuel nhs w.1
        (omega (arith, w.0.octets_len, length-append (octets nh) (hop_bytes nhs))))
    ∙ ap (λ x. ok (x ∷ nhs)) (sym w.0.of_family)

read_v6-encode :
    (fuel : ℕ) (nhs : List IpAddr)
    → All (IsHopOf ipv6) nhs
    → length (hop_bytes nhs) ≤ fuel
    → read_v6 listed fuel (hop_bytes nhs) ≡ ok nhs
unfolding read_v6
read_v6-encode zero [] w h = refl
read_v6-encode (suc fuel) [] w h = refl
read_v6-encode zero (nh ∷ nhs) w h =
    absurd (omega (arith, w.0.octets_len, length-append (octets nh) (hop_bytes nhs)))
read_v6-encode (suc fuel) (nh ∷ nhs) w h =
    read_v6_octets fuel (octets nh) (hop_bytes nhs) nhs w.0.octets_len (
      read_v6-encode fuel nhs w.1
        (omega (arith, w.0.octets_len, length-append (octets nh) (hop_bytes nhs))))
    ∙ ap (λ x. ok (x ∷ nhs)) (sym w.0.of_family)

read_next_hops-encode :
    (afi : Afi) (nhs : List IpAddr)
    → All (IsHopOf afi) nhs
    → read_next_hops listed afi (hop_bytes nhs) ≡ ok nhs
unfolding read_next_hops
read_next_hops-encode ipv4 nhs w = read_v4-encode (length (hop_bytes nhs)) nhs w (omega arith)
read_next_hops-encode ipv6 nhs w = read_v6-encode (length (hop_bytes nhs)) nhs w (omega arith)

abbrev wire : MpReachNlri → List ℕ
wire m =
    let nh = hop_bytes m.next_hops in
    0 ∷ afi_code m.afi ∷ safi_code m.safi ∷ length nh ∷ (nh ++ (0 ∷ encode_all m.nlri))

parse-wire : (m : MpReachNlri) → IsSendable m → Reach.parse listed (wire m) ≡ ok m
unfolding parse_nlri
parse-wire m w =
    parse-next_hops 0 (afi_code m.afi) (safi_code m.safi) (hop_bytes m.next_hops)
      (0 ∷ encode_all m.nlri)
    ∙ rw
        (
          afi_from-code m.afi,
          safi_from-code m.safi,
          read_next_hops-encode m.afi m.next_hops w.hops,
          parse_all-encode m.afi (length (encode_all m.nlri)) m.nlri w.prefixes (omega arith),
        )
        refl

serialize-wire : (m : MpReachNlri) → IsSendable m → Reach.serialize listed m ≡ some (wire m)
unfolding Reach.serialize
serialize-wire m w =
    let nh : List ℕ = hop_bytes m.next_hops in
    let e : u8 (length nh) ≡ length nh = omega (arith, w.hops_fit) in
    let head : List ℕ = 0 ∷ afi_code m.afi ∷ safi_code m.safi ∷ length nh ∷ [] in
    rw (put_next_hops_lem [] m.next_hops, e)
      (ap
          (λ s.
            serialize_all listed m.nlri
              (((s ++ (safi_code m.safi ∷ [])) ++ (length nh ∷ [])) ++ nh ++ (0 ∷ [])))
          (afi_bytes m.afi)
        ∙ serialize_all_lem m.afi m.nlri (head ++ (nh ++ (0 ∷ []))) w.prefixes
        ∙ ap (λ s. some (head ++ s)) (append_assoc nh (0 ∷ []) (encode_all m.nlri)))

listed_round_trip :
    (m : MpReachNlri)
    → IsSendable m
    → (s : List ℕ) × (Reach.serialize listed m ≡ some s) × (Reach.parse listed s ≡ ok m)
listed_round_trip m w = (wire m, serialize-wire m w, parse-wire m w)

-- An attribute is serialized without a panic and parsed to the same next hops and prefixes, in order,
-- if the next hops and the prefixes are of its family, the next hops take less than 256 bytes, and
-- each prefix has a length that fits the family's address and zeros behind the octets that are sent.
pub reach_round_trip :
    (o : BytesCrate)
    → IsDocumented o
    → (m : MpReachNlri) → IsSendable m
    → (s : List ℕ) × (Reach.serialize o m ≡ some s) × (Reach.parse o s ≡ ok m)
reach_round_trip o d m w =
    for_documented (λ c. (s : List ℕ) × (Reach.serialize c m ≡ some s) × (Reach.parse c s ≡ ok m)) o
      d (listed_round_trip m w)
