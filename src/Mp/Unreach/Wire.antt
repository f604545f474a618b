-- ===== src/Mp/Unreach/Wire.antt =====
-- MpUnreachNlri::parse comes back on every buffer, and reads what ::serialize writes.
use pathforge.Base.{
  ℕ, ◌≡◌, refl, ◌∙◌, ap, List, [], ◌∷◌, ◌++◌, some, ok, arith, length, All, ComesBack, Returns-bind,
  le→ltb, bytes16, be16,
}
use pathforge.Bytes.{BytesCrate, IsDocumented, listed, for_documented}
use pathforge.Mp.{
  Afi, ipv4, ipv6, afi_code, afi_from, Safi, unicast, multicast, labeled_unicast, safi_code,
  safi_from,
}
use pathforge.Mp.Prefix.{MpPrefix, serialize_all}
use pathforge.Mp.Prefix.Wire.{encode_all, serialize_all_lem, parse_all-encode, parse_all-Returns}
use pathforge.Mp.Prefix.Wire as PrefixWire
use pathforge.Mp.Unreach
use pathforge.Mp.Unreach.{MpUnreachNlri}

pub afi_from-code : (afi : Afi) → afi_from (be16 0 (afi_code afi)) ≡ ok afi
unfolding afi_from
afi_from-code ipv4 = refl
afi_from-code ipv6 = refl

pub safi_from-code : (safi : Safi) → safi_from (safi_code safi) ≡ ok safi
unfolding safi_from
safi_from-code unicast = refl
safi_from-code multicast = refl
safi_from-code labeled_unicast = refl

-- The two bytes of a family's code.
pub afi_bytes : (afi : Afi) → bytes16 (afi_code afi) ≡ 0 ∷ afi_code afi ∷ []
afi_bytes ipv4 = refl
afi_bytes ipv6 = refl

pub afi_from-Returns : (v : ℕ) → ComesBack (afi_from v)
unfolding afi_from
afi_from-Returns v = ground arith

pub safi_from-Returns : (v : ℕ) → ComesBack (safi_from v)
unfolding safi_from
safi_from-Returns v = ground arith

listed-ComesBack : (buf : List ℕ) → ComesBack (Unreach.parse listed buf)
unfolding Unreach.parse
listed-ComesBack [] = tt
listed-ComesBack (a ∷ []) = tt
listed-ComesBack (a ∷ b ∷ []) = tt
listed-ComesBack (a ∷ b ∷ c ∷ s) = rw (le→ltb (length (a ∷ b ∷ c ∷ s)) 3 (omega arith)) (
    Returns-bind (λ _. Unit {0}) _ _ _ (afi_from-Returns _)
      λ afi _.
        Returns-bind (λ _. Unit {0}) _ _ _ (safi_from-Returns c)
          λ safi _.
            Returns-bind (λ _. Unit {0}) _ _ _ (parse_all-Returns afi (length s) s (omega arith))
              λ _ _. tt)

-- On every buffer the call comes back with an error or a value: it never panics, and its loop ends.
parse-ComesBack_unreach :
    (o : BytesCrate) → IsDocumented o → (buf : List ℕ) → ComesBack (Unreach.parse o buf)
parse-ComesBack_unreach o d buf =
    for_documented (λ c. ComesBack (Unreach.parse c buf)) o d (listed-ComesBack buf)

parse_body :
    (afi : Afi) (safi : Safi) (ps : List MpPrefix)
    → All (PrefixWire.IsSendable afi) ps
    → Unreach.parse listed (0 ∷ afi_code afi ∷ safi_code safi ∷ encode_all ps)
      ≡ ok (record { afi = afi; safi = safi; withdrawn = ps })
unfolding Unreach.parse
parse_body afi safi ps w =
    rw
      (
        le→ltb (length (0 ∷ afi_code afi ∷ safi_code safi ∷ encode_all ps)) 3 (omega arith),
        afi_from-code afi,
        safi_from-code safi,
        parse_all-encode afi (length (encode_all ps)) ps w (omega arith),
      )
      refl

listed_round_trip :
    (m : MpUnreachNlri)
    → All (PrefixWire.IsSendable m.afi) m.withdrawn
    → (wire : List ℕ) × (Unreach.serialize listed m ≡ some wire)
      × (Unreach.parse listed wire ≡ ok m)
unfolding Unreach.serialize
listed_round_trip m w = (
  _,
  ap (λ s. serialize_all listed m.withdrawn (s ++ (safi_code m.safi ∷ []))) (afi_bytes m.afi)
      ∙ serialize_all_lem m.afi m.withdrawn (0 ∷ afi_code m.afi ∷ safi_code m.safi ∷ []) w,
  parse_body m.afi m.safi m.withdrawn w,
)

-- Withdrawn prefixes of the family, of a length that fits the address and with clear host octets,
-- are serialized without a panic and parsed to the same, in order.
unreach_round_trip :
    (o : BytesCrate)
    → IsDocumented o
    → (m : MpUnreachNlri) → All (PrefixWire.IsSendable m.afi) m.withdrawn
    → (wire : List ℕ) × (Unreach.serialize o m ≡ some wire) × (Unreach.parse o wire ≡ ok m)
unreach_round_trip o d m w =
    for_documented
      (λ c. (wire : List ℕ) × (Unreach.serialize c m ≡ some wire) × (Unreach.parse c wire ≡ ok m)) o
      d (listed_round_trip m w)
