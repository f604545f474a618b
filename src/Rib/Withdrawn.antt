-- ===== src/Rib/Withdrawn.antt =====
-- What the withdrawals of an UPDATE do in src/rib.rs.
use pathforge.Base.{ℕ, ◌≡◌, ◌⊎◌, List, none, false, ◌==◌, get, holds, map}
use pathforge.Message.Prefix.{Prefix}
use pathforge.Rib.{Dampening, Rib}
use pathforge.Rib.Announced.{route_of}
use pathforge.Rib.Routes
use pathforge.Rib.Routes.{PrefixKey, key_of, same_key}

module _ (d : Dampening) where
  open d use {Table, check_advertisement}

  -- The peer has no route for the prefixes withdrawn, and the routes of the other peers stay.
  abbrev pub HasWithdrawn : ℕ → List Prefix → Rib Table → Rib Table → Type 0
  HasWithdrawn peer withdrawn rib after =
      ((key : PrefixKey)
        → (holds same_key (map key_of withdrawn) key ≡ false) ⊎ (route_of d after peer key ≡ none))
      × ((other : ℕ)
          → (peer ≡ other) ⊎ (get ◌==◌ other after.adj_rib_in ≡ get ◌==◌ other rib.adj_rib_in))
