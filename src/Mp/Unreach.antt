-- ===== src/Mp/Unreach.antt =====
-- struct MpUnreachNlri of src/mp.rs.
pub mod Wire
use pathforge.Base.{ℕ, List, [], Option, Outcome, ok, ◌>>=◌, ◌>>◌, call, bail_if, length, ltb}
use pathforge.Bytes.{BytesCrate}
use pathforge.Mp.{Afi, afi_code, afi_from, Safi, safi_code, safi_from, MpError, too_short}
use pathforge.Mp.Prefix.{MpPrefix, parse_all, serialize_all}

pub record MpUnreachNlri : Type 0 where
  pub afi : Afi
  pub safi : Safi
  pub withdrawn : List MpPrefix

unfoldable pub new : Afi → Safi → MpUnreachNlri
new afi safi = record { afi = afi; safi = safi; withdrawn = [] }

module _ (o : BytesCrate) where
  open o use {remaining, get_u8, get_u16, put_u8, put_u16}

  unfoldable pub parse : List ℕ → Outcome MpError MpUnreachNlri
  parse buf = do
    bail_if (ltb (remaining buf) 3) too_short
    (afi_word, buf1) ← call (get_u16 buf)
    afi ← afi_from afi_word
    (safi_byte, buf2) ← call (get_u8 buf1)
    safi ← safi_from safi_byte
    withdrawn ← parse_all o afi (length buf2) buf2
    ok (record { afi = afi; safi = safi; withdrawn = withdrawn })

  unfoldable pub serialize : MpUnreachNlri → Option (List ℕ)
  serialize m =
      serialize_all o m.withdrawn (put_u8 (put_u16 [] (afi_code m.afi)) (safi_code m.safi))
