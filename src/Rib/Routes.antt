-- ===== src/Rib/Routes.antt =====
-- The routes and keys of src/rib.rs. A SocketAddr is a number that is compared and nothing else, an
-- Instant the number that the monotonic clock shows.
use pathforge.Base.{ℕ, Bool, false, ◌&&◌, ◌==◌}
use pathforge.Attr.{PathAttributes}
use pathforge.Message.Prefix.{Prefix}
use pathforge.Rpki.{RovState, not_found}

pub record Route : Type 0 where
  pub prefix : Prefix
  pub attrs : PathAttributes
  pub peer_addr : ℕ
  pub peer_as : ℕ
  pub received_at : ℕ
  pub stale : Bool
  pub rov_state : RovState

-- `Route::new`, at the time `now`.
unfoldable pub new : Prefix → PathAttributes → ℕ → ℕ → ℕ → Route
new prefix attrs peer_addr peer_as now = record {
  prefix = prefix;
  attrs = attrs;
  peer_addr = peer_addr;
  peer_as = peer_as;
  received_at = now;
  stale = false;
  rov_state = not_found;
}

pub record PrefixKey : Type 0 where
  pub address : ℕ
  pub prefix_len : ℕ

-- `PrefixKey::from`
abbrev pub key_of : Prefix → PrefixKey
key_of p = record { address = p.address; prefix_len = p.prefix_len }

-- The derived `==`.
abbrev pub same_key : PrefixKey → PrefixKey → Bool
same_key a b = a.address == b.address && a.prefix_len == b.prefix_len
