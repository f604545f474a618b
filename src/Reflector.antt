-- ===== src/Reflector.antt =====
-- src/rr.rs: which routes a route reflector passes on, and how it finds loops.
pub mod Loops
mod Tests
use pathforge.Base.{
  ℕ, List, [], ◌∷◌, Option, none, some, Bool, true, false, ◌||◌, ◌==◌, if◌then◌else◌,
}
use pathforge.Attr.{PathAttributes}

-- The variant None of the source is `ebgp` here.
pub data RrRole : Type 0 where
  ebgp client non_client : RrRole

pub record RrConfig : Type 0 where
  pub cluster_id : ℕ
  pub enabled : Bool

unfoldable pub new_config : ℕ → RrConfig
new_config cluster_id = record { cluster_id = cluster_id; enabled = true }

pub record RouteReflector : Type 0 where
  pub config : RrConfig
  pub router_id : ℕ

unfoldable pub new : RrConfig → ℕ → RouteReflector
new config router_id = record { config = config; router_id = router_id }

-- `match (source_role, target_role)`
unfoldable pub reflects : RrRole → RrRole → Bool
reflects ebgp _ = true
reflects client client = true
reflects client non_client = true
reflects non_client client = true
reflects non_client non_client = false
reflects _ _ = false

-- An address is a number that is compared.
unfoldable pub should_reflect : RouteReflector → RrRole → RrRole → ℕ → ℕ → Bool
should_reflect rr source_role target_role source_addr target_addr =
    if source_addr == target_addr then false else reflects source_role target_role

-- The originator that is there already, or the given one.
abbrev pub or_set : Option ℕ → ℕ → Option ℕ
or_set none originator_id = some originator_id
or_set (some n) originator_id = some n

unfoldable pub prepare_reflected_attrs : RouteReflector → PathAttributes → ℕ → PathAttributes
prepare_reflected_attrs rr attrs originator_id = record attrs {
  originator_id = or_set attrs.originator_id originator_id;
  cluster_list = rr.config.cluster_id ∷ attrs.cluster_list;
}

-- `Vec::contains`
abbrev pub contains : List ℕ → ℕ → Bool
contains [] n = false
contains (m ∷ ms) n = m == n || contains ms n

unfoldable pub has_cluster_loop : RouteReflector → PathAttributes → Bool
has_cluster_loop rr attrs = contains attrs.cluster_list rr.config.cluster_id

-- `==` of an optional address and one that is there
abbrev pub is_some_of : Option ℕ → ℕ → Bool
is_some_of none n = false
is_some_of (some m) n = m == n

unfoldable pub has_originator_loop : RouteReflector → PathAttributes → Bool
has_originator_loop rr attrs = is_some_of attrs.originator_id rr.router_id

unfoldable pub has_loop : RouteReflector → PathAttributes → Bool
has_loop rr attrs = has_cluster_loop rr attrs || has_originator_loop rr attrs
