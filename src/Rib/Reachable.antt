-- ===== src/Rib/Reachable.antt =====
-- The RIBs that a run of the operations of src/rib.rs comes to, from `Rib::new`.
use pathforge.Base.{subst, sym, ℕ, ◌≡◌, refl, List, Option, none, some, Build, get}
use pathforge.Attr.{PathAttributes}
use pathforge.Message.Prefix.{Prefix}
use pathforge.Rpki.{RpkiValidator}
use pathforge.Rib
use pathforge.Rib.{
  Dampening, Rib, AdjRibIn, process_update, remove_peer, mark_peer_stale, remove_stale_for_peer,
}
use pathforge.Rib.Routes.{Route, PrefixKey, same_key}
use pathforge.Rib.Decision.{sort_routes, first}
use pathforge.Rib.Decision.Best.{sort_routes-IsBest, sort_routes-none}
use pathforge.Rib.Selection.{IsSelected}
use pathforge.Rib.Fresh.{fresh_of, offers}
use pathforge.Rib.Upkeep.{IsConsistent}
use pathforge.Rib.Reach.{
  EndsConsistent, process_update-EndsConsistent, remove_peer-IsConsistent,
  mark_peer_stale-IsConsistent, remove_stale_for_peer-IsConsistent,
}

first-IsSelected :
    (o : Option Route) (rs : List Route) → o ≡ first (sort_routes rs) → IsSelected o rs
first-IsSelected none rs e = sort_routes-none rs (sym e)
first-IsSelected (some best) rs e = sort_routes-IsBest rs best (sym e)

module _ (d : Dampening) where
  open d use {Table}

  -- One operation: an UPDATE of a peer that panics nowhere, a peer that leaves, one whose routes are
  -- kept as stale, and the end of the time for which they are kept.
  pub data Steps (build : Build) : Rib Table → Rib Table → Type 0 where
    update :
        {rib after : Rib Table} (clock : ℕ → ℕ) (peer peer_as : ℕ) (nlri : List Prefix)
        (attrs : PathAttributes) (withdrawn : List Prefix)
        → process_update d build clock rib peer peer_as nlri attrs withdrawn ≡ some after
        → Steps build rib after
    leave : {rib : Rib Table} (peer : ℕ) → Steps build rib (remove_peer d rib peer).0
    mark : {rib : Rib Table} (peer : ℕ) → Steps build rib (mark_peer_stale d rib peer)
    drop_stale : {rib : Rib Table} (peer : ℕ) → Steps build rib (remove_stale_for_peer d rib peer).0

  pub data Reaches (build : Build) (table : Table) (rpki : RpkiValidator) : Rib Table → Type 0 where
    start : Reaches build table rpki (Rib.new d table rpki)
    step :
        {rib after : Rib Table}
        → Reaches build table rpki rib
        → Steps build rib after
        → Reaches build table rpki after

  new-IsConsistent : (table : Table) (rpki : RpkiValidator) → IsConsistent d (Rib.new d table rpki)
  unfolding Rib.new sort_routes Rib.candidates
  new-IsConsistent table rpki = record { unique = tt; decided = λ key. refl }

  Steps-IsConsistent :
      (build : Build) (rib after : Rib Table)
      → Steps build rib after
      → IsConsistent d rib
      → IsConsistent d after
  Steps-IsConsistent build rib after (update clock peer peer_as nlri attrs withdrawn e) w =
      subst (EndsConsistent d) e
        (process_update-EndsConsistent d build clock rib peer peer_as nlri attrs withdrawn w)
  Steps-IsConsistent build rib after (leave peer) w = remove_peer-IsConsistent d rib peer w
  Steps-IsConsistent build rib after (mark peer) w = mark_peer_stale-IsConsistent d rib peer w
  Steps-IsConsistent build rib after (drop_stale peer) w =
      remove_stale_for_peer-IsConsistent d rib peer w

  Reaches-IsConsistent :
      (build : Build) (table : Table) (rpki : RpkiValidator) (rib : Rib Table)
      → Reaches build table rpki rib
      → IsConsistent d rib
  Reaches-IsConsistent build table rpki rib start = new-IsConsistent table rpki
  Reaches-IsConsistent build table rpki rib (step {rib = before} r s) =
      Steps-IsConsistent build before rib s (Reaches-IsConsistent build table rpki before r)

  -- In every RIB that the operations come to from `Rib::new`, in any order and for any peers, the
  -- Loc-RIB has for every prefix a route that is behind none of those that the peers have for it, and
  -- no route exactly if they have none. The routes are compared with the stale flag cleared, which
  -- the marking sets in a peer's map and not in the Loc-RIB.
  pub Reaches-IsSelected :
      (build : Build) (table : Table) (rpki : RpkiValidator) (rib : Rib Table)
      → Reaches build table rpki rib
      → (key : PrefixKey)
      → IsSelected (fresh_of (get same_key key rib.loc_rib)) (offers key rib.adj_rib_in)
  Reaches-IsSelected build table rpki rib r key =
      first-IsSelected _ (offers key rib.adj_rib_in)
        ((Reaches-IsConsistent build table rpki rib r).decided key)
