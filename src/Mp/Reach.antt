-- ===== src/Mp/Reach.antt =====
-- struct MpReachNlri of src/mp.rs.
pub mod Panic
pub mod RoundTrip
use pathforge.Base.{
  ℕ, zero, suc, List, [], ◌∷◌, Option, Outcome, ok, stuck, ◌>>=◌, ◌>>◌, call, bail_if, length, ltb,
  if◌then◌else◌, u8, bytes32,
}
use pathforge.Bytes.{BytesCrate}
use pathforge.Mp.{
  Afi, ipv4, ipv6, afi_code, afi_from, Safi, safi_code, safi_from, MpError, too_short, IpAddr, v4,
  v6, octets,
}
use pathforge.Mp.Prefix.{MpPrefix, parse_all, serialize_all}

pub record MpReachNlri : Type 0 where
  pub afi : Afi
  pub safi : Safi
  pub next_hops : List IpAddr
  pub nlri : List MpPrefix

unfoldable pub new : Afi → Safi → IpAddr → MpReachNlri
new afi safi next_hop = record { afi = afi; safi = safi; next_hops = next_hop ∷ []; nlri = [] }

module _ (o : BytesCrate) where
  open o use {
    remaining, get_u8, get_u16, get_u32, copy_to_bytes, copy_to_slice, put, put_u8, put_u16,
    put_slice,
  }

  -- The two loops over the next hops; a remainder that is shorter than an address is dropped.
  unfoldable pub read_v4 : ℕ → List ℕ → Outcome MpError (List IpAddr)
  read_v4 zero nh_buf = if ltb (remaining nh_buf) 4 then ok [] else stuck
  read_v4 (suc fuel) nh_buf =
      let round = do
        (n, rest) ← call (get_u32 nh_buf)
        more ← read_v4 fuel rest
        ok (v4 (bytes32 n) ∷ more)
      in if ltb (remaining nh_buf) 4 then ok [] else round

  unfoldable pub read_v6 : ℕ → List ℕ → Outcome MpError (List IpAddr)
  read_v6 zero nh_buf = if ltb (remaining nh_buf) 16 then ok [] else stuck
  read_v6 (suc fuel) nh_buf =
      let round = do
        (b, rest) ← call (copy_to_slice nh_buf 16)
        more ← read_v6 fuel rest
        ok (v6 b ∷ more)
      in if ltb (remaining nh_buf) 16 then ok [] else round

  unfoldable pub read_next_hops : Afi → List ℕ → Outcome MpError (List IpAddr)
  read_next_hops ipv4 nh_buf = read_v4 (length nh_buf) nh_buf
  read_next_hops ipv6 nh_buf = read_v6 (length nh_buf) nh_buf

  -- What follows the next hops: the SNPA byte, read without a look at what is left, and the NLRI.
  unfoldable pub parse_nlri : Afi → Safi → List IpAddr → List ℕ → Outcome MpError MpReachNlri
  parse_nlri afi safi next_hops buf = do
    (_, buf1) ← call (get_u8 buf)
    nlri ← parse_all o afi (length buf1) buf1
    ok (record { afi = afi; safi = safi; next_hops = next_hops; nlri = nlri })

  unfoldable pub parse : List ℕ → Outcome MpError MpReachNlri
  parse buf = do
    bail_if (ltb (remaining buf) 4) too_short
    (afi_word, buf1) ← call (get_u16 buf)
    afi ← afi_from afi_word
    (safi_byte, buf2) ← call (get_u8 buf1)
    safi ← safi_from safi_byte
    (nh_len, buf3) ← call (get_u8 buf2)
    bail_if (ltb (remaining buf3) nh_len) too_short
    (nh_bytes, buf4) ← call (copy_to_bytes buf3 nh_len)
    next_hops ← read_next_hops afi nh_bytes
    parse_nlri afi safi next_hops buf4

  unfoldable pub put_next_hops : List ℕ → List IpAddr → List ℕ
  put_next_hops nh_buf [] = nh_buf
  put_next_hops nh_buf (nh ∷ nhs) = put_next_hops (put_slice nh_buf (octets nh)) nhs

  -- The length of the next hops is cut to a byte; `none` is the panic of a prefix.
  unfoldable pub serialize : MpReachNlri → Option (List ℕ)
  serialize m =
      let buf = put_u8 (put_u16 [] (afi_code m.afi)) (safi_code m.safi) in
      let nh_buf = put_next_hops [] m.next_hops in
      serialize_all o m.nlri (put_u8 (put (put_u8 buf (u8 (length nh_buf))) nh_buf) 0)
