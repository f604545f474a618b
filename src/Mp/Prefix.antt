-- ===== src/Mp/Prefix.antt =====
-- struct MpPrefix of src/mp.rs.
pub mod Wire
use pathforge.Base.{
  ℕ, zero, suc, List, [], ◌∷◌, Option, none, some, Outcome, ok, stuck, ◌>>=◌, ◌>>◌, call, bail_if,
  length, take, ltb, if◌then◌else◌, and_then,
}
use pathforge.Bytes.{BytesCrate}
use pathforge.Message.Prefix.{octets_for, fill_array}
use pathforge.Mp.{Afi, ipv4, ipv6, IpAddr, v4, v6, octets, MpError, too_short}

pub record MpPrefix : Type 0 where
  pub afi : Afi
  pub prefix_len : ℕ
  pub address : IpAddr

-- `MpPrefix::ipv4` and `MpPrefix::ipv6`
unfoldable pub new_ipv4 : List ℕ → ℕ → MpPrefix
new_ipv4 addr len = record { afi = ipv4; prefix_len = len; address = v4 addr }

unfoldable pub new_ipv6 : List ℕ → ℕ → MpPrefix
new_ipv6 addr len = record { afi = ipv6; prefix_len = len; address = v6 addr }

unfoldable pub encoded_len : MpPrefix → ℕ
encoded_len p = octets_for p.prefix_len

-- The length of the array that the family has, and the address made of it.
abbrev pub slots : Afi → ℕ
slots ipv4 = 4
slots ipv6 = 16

abbrev pub address_of : Afi → List ℕ → IpAddr
address_of ipv4 b = v4 b
address_of ipv6 b = v6 b

module _ (o : BytesCrate) where
  open o use {remaining, get_u8, put_u8, put_slice}

  unfoldable pub parse : Afi → List ℕ → Outcome MpError (MpPrefix × List ℕ)
  parse afi buf = do
    bail_if (ltb (remaining buf) 1) too_short
    (prefix_len, buf1) ← call (get_u8 buf)
    bail_if (ltb (remaining buf1) (octets_for prefix_len)) too_short
    (b, buf2) ← fill_array o (slots afi) (octets_for prefix_len) buf1
    ok (record { afi = afi; prefix_len = prefix_len; address = address_of afi b }, buf2)

  -- `none` is the panic of `a.octets()[..byte_len]` where that is longer than the address.
  unfoldable pub serialize : MpPrefix → List ℕ → Option (List ℕ)
  serialize p buf =
      let buf1 = put_u8 buf p.prefix_len in
      let byte_len = encoded_len p in
      if ltb (length (octets p.address)) byte_len
      then none
      else some (put_slice buf1 (take byte_len (octets p.address)))

  -- `while buf.remaining() > 0`, with a round for a byte at least
  unfoldable pub parse_all : Afi → ℕ → List ℕ → Outcome MpError (List MpPrefix)
  parse_all afi zero buf = if ltb 0 (remaining buf) then stuck else ok []
  parse_all afi (suc fuel) buf =
      let round = do (p, buf1) ← parse afi buf; more ← parse_all afi fuel buf1; ok (p ∷ more)
      in if ltb 0 (remaining buf) then round else ok []

  unfoldable pub serialize_all : List MpPrefix → List ℕ → Option (List ℕ)
  serialize_all [] buf = some buf
  serialize_all (p ∷ ps) buf = and_then (serialize p buf) λ buf1. serialize_all ps buf1
