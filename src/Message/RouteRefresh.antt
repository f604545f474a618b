-- ===== src/Message/RouteRefresh.antt =====
-- src/message/route_refresh.rs
use pathforge.Base.{ℕ, ◌+◌, List, [], ◌∷◌, Option, none, some, be16}
use pathforge.Bytes.{BytesCrate}

pub record RouteRefresh : Type 0 where
  pub afi : ℕ
  pub safi : ℕ

unfoldable pub new : ℕ → ℕ → RouteRefresh
new afi safi = record { afi = afi; safi = safi }

-- Of four bytes or more the first two and the fourth are read.
unfoldable pub parse : List ℕ → Option RouteRefresh
parse (a ∷ b ∷ _ ∷ d ∷ _) = some (record { afi = be16 a b; safi = d })
parse _ = none

-- Header and body; this file writes the header by hand.
unfoldable pub serialize : BytesCrate → RouteRefresh → List ℕ
serialize o m =
    put_u8 (put_u8 (put_u16 (put_u8 (put_u16 (put_bytes [] 255 16) (19 + 4)) 5) m.afi) 0) m.safi
  where
    open o use {put_u8, put_u16, put_bytes}
