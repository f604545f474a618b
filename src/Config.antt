-- ===== src/Config.antt =====
-- src/config.rs: the configuration and its validation. Text is the list of its bytes, a SocketAddr a
-- number. Reading the file and the TOML in it is the crate toml's and not modelled.
pub mod Accept
mod Tests
use pathforge.Base.{
  ℕ, ◌/◌, List, [], ◌∷◌, Option, none, some, Bool, true, false, not, ◌&&◌, ◌==◌, ltb, leb, length,
  holds, Outcome, ok, ◌>>=◌, ◌>>◌, bail_if, if◌then◌else◌,
}
use pathforge.Mp.{IpAddr, v4, v6}
use pathforge.Message.Header.{bytes_eq}

pub record RouterConfig : Type 0 where
  pub local_as : ℕ
  pub router_id : ℕ
  pub listen : ℕ
  pub hold_time : ℕ
  pub keepalive_interval : Option ℕ

pub record NeighborConfig : Type 0 where
  pub addr : IpAddr
  pub remote_as : ℕ
  pub hold_time : Option ℕ
  pub description : Option (List ℕ)
  pub route_reflector_client : Bool
  pub import_policy : Option (List ℕ)
  pub export_policy : Option (List ℕ)
  pub md5_password : Option (List ℕ)

pub data FilterAction : Type 0 where
  permit deny : FilterAction

pub record PrefixListEntry : Type 0 where
  pub action : FilterAction
  pub prefix : List ℕ
  pub ge : Option ℕ
  pub le : Option ℕ

pub record PrefixList : Type 0 where
  pub name : List ℕ
  pub entries : List PrefixListEntry

pub record CommunityList : Type 0 where
  pub name : List ℕ
  pub communities : List (List ℕ)

pub record PolicyConfig : Type 0 where
  pub prefix_lists : List PrefixList
  pub community_lists : List CommunityList

pub record Config : Type 0 where
  pub router : RouterConfig
  pub neighbors : List NeighborConfig
  pub policy : PolicyConfig

-- The messages of `bail!`, of those on a neighbor with its address.
pub data ConfigError : Type 0 where
  zero_local_as unspecified_router_id broadcast_router_id loopback_router_id : ConfigError
  bad_hold_time zero_keepalive long_keepalive : ConfigError
  duplicate_neighbor zero_remote_as bad_neighbor_hold_time : IpAddr → ConfigError
  empty_password long_password : IpAddr → ConfigError

-- The derived `==` of addresses.
abbrev pub same_addr : IpAddr → IpAddr → Bool
same_addr (v4 a) (v4 b) = bytes_eq a b
same_addr (v6 a) (v6 b) = bytes_eq a b
same_addr _ _ = false

-- `hold_time != 0 && hold_time < 3`
abbrev pub is_short : ℕ → Bool
is_short hold_time = not (hold_time == 0) && ltb hold_time 3

unfoldable pub check_router_id : ℕ → Outcome ConfigError (Unit {0})
check_router_id rid = do
  bail_if (rid == 0) unspecified_router_id
  bail_if (rid == 4294967295) broadcast_router_id
  bail_if (rid / 16777216 == 127) loopback_router_id

unfoldable pub check_keepalive : ℕ → Option ℕ → Outcome ConfigError (Unit {0})
check_keepalive hold_time none = ok tt
check_keepalive hold_time (some ka) = do
  bail_if (ka == 0) zero_keepalive
  bail_if (not (hold_time == 0) && leb hold_time ka) long_keepalive

unfoldable pub check_hold_time : IpAddr → Option ℕ → Outcome ConfigError (Unit {0})
check_hold_time addr none = ok tt
check_hold_time addr (some ht) = bail_if (is_short ht) (bad_neighbor_hold_time addr)

unfoldable pub check_password : IpAddr → Option (List ℕ) → Outcome ConfigError (Unit {0})
check_password addr none = ok tt
check_password addr (some pw) = do
  bail_if (length pw == 0) (empty_password addr)
  bail_if (ltb 80 (length pw)) (long_password addr)

-- The loop over the neighbors, with the addresses that were seen.
unfoldable pub check_neighbors : List IpAddr → List NeighborConfig → Outcome ConfigError (Unit {0})
check_neighbors seen [] = ok tt
check_neighbors seen (n ∷ ns) = do
  bail_if (holds same_addr seen n.addr) (duplicate_neighbor n.addr)
  bail_if (n.remote_as == 0) (zero_remote_as n.addr)
  check_hold_time n.addr n.hold_time
  check_password n.addr n.md5_password
  check_neighbors (n.addr ∷ seen) ns

unfoldable pub validate : Config → Outcome ConfigError (Unit {0})
validate c = do
  bail_if (c.router.local_as == 0) zero_local_as
  check_router_id c.router.router_id
  bail_if (is_short c.router.hold_time) bad_hold_time
  check_keepalive c.router.hold_time c.router.keepalive_interval
  check_neighbors [] c.neighbors
