-- ===== src/Rib/Unique.antt =====
-- Each prefix stands once in the Loc-RIB of src/rib.rs.
use pathforge.Base.{
  ℕ, subst, List, [], ◌∷◌, ◌++◌, Option, none, some, Option-cases, inl, inr, Build, get, insert,
  ◌==◌, values, map, and_then, HasUniqueKeys, insert-HasUniqueKeys, remove-HasUniqueKeys,
}
use pathforge.Attr.{PathAttributes}
use pathforge.Message.Prefix.{Prefix}
use pathforge.Rib
use pathforge.Rib.{
  Dampening, Rib, AdjRibIn, process_update, remove_peer, mark_peer_stale, remove_stale_for_peer,
  decide_all, run_decision_process, candidates, remove_all, announce_all,
}
use pathforge.Rib.Decision.{sort_routes, first}
use pathforge.Rib.Reach.{mark_found, purge_found}
use pathforge.Rib.Reachable.{Steps, update, leave, mark, drop_stale, Reaches, start, step}
use pathforge.Rib.Routes.{PrefixKey, same_key, key_of}
use pathforge.Rib.Selection.{decision_none, decision_some, same_key-IsTest}
use pathforge.Rpki.{RpkiValidator}

module _ (d : Dampening) where
  open d use {Table}

  abbrev IsUnique : Rib Table → Type 0
  IsUnique rib = HasUniqueKeys same_key rib.loc_rib

  decision-IsUnique :
      (rib : Rib Table) (key : PrefixKey) → IsUnique rib → IsUnique (run_decision_process d rib key)
  decision-IsUnique rib key u =
      elim (Option-cases (first (sort_routes (candidates key (values ◌==◌ rib.adj_rib_in))))) [
        | inl e ↦ rw (decision_none d rib key e) (remove-HasUniqueKeys same_key key rib.loc_rib u)
        | inr (best, e) ↦
            rw (decision_some d rib key best e)
              (insert-HasUniqueKeys same_key same_key-IsTest key best rib.loc_rib u)
      ]

  decide_all-IsUnique :
      (rib : Rib Table) (ks : List PrefixKey) → IsUnique rib → IsUnique (decide_all d rib ks)
  unfolding decide_all
  decide_all-IsUnique rib [] u = u
  decide_all-IsUnique rib (key ∷ ks) u =
      decide_all-IsUnique (run_decision_process d rib key) ks (decision-IsUnique rib key u)

  abbrev EndsUnique : Option (Rib Table) → Type 0
  EndsUnique none = Unit {0}
  EndsUnique (some rib) = IsUnique rib

  announced-EndsUnique :
      (rib : Rib Table) (peer : ℕ) (gone : List PrefixKey)
      (o : Option (Table × AdjRibIn × List PrefixKey))
      → IsUnique rib
      → EndsUnique (
          and_then o λ (table1, adj, affected). some (
            decide_all d
              (record rib {
                dampening = table1;
                adj_rib_in = insert ◌==◌ peer (remove_all gone adj) rib.adj_rib_in;
              })
              (affected ++ gone)))
  announced-EndsUnique rib peer gone none u = tt
  announced-EndsUnique rib peer gone (some (t, adj, ks)) u = decide_all-IsUnique _ (ks ++ gone) u

  process_update-EndsUnique :
      (build : Build) (clock : ℕ → ℕ) (rib : Rib Table) (peer peer_as : ℕ) (nlri : List Prefix)
      (attrs : PathAttributes) (withdrawn : List Prefix)
      → IsUnique rib
      → EndsUnique (process_update d build clock rib peer peer_as nlri attrs withdrawn)
  unfolding process_update
  process_update-EndsUnique build clock rib peer peer_as nlri attrs withdrawn u =
      announced-EndsUnique rib peer (map key_of withdrawn) _ u

  remove_peer-IsUnique :
      (rib : Rib Table) (peer : ℕ) → IsUnique rib → IsUnique (remove_peer d rib peer).0
  unfolding remove_peer
  remove_peer-IsUnique rib peer u = decide_all-IsUnique _ _ u

  mark-IsUnique :
      (rib : Rib Table) (peer : ℕ) → IsUnique rib → IsUnique (mark_peer_stale d rib peer)
  mark-IsUnique rib peer u = elim (Option-cases (get ◌==◌ peer rib.adj_rib_in)) [
    | inl e ↦ rw (mark_found d rib peer none e) u
    | inr (adj, e) ↦ rw (mark_found d rib peer (some adj) e) u
  ]

  remove_stale-IsUnique :
      (rib : Rib Table) (peer : ℕ) → IsUnique rib → IsUnique (remove_stale_for_peer d rib peer).0
  remove_stale-IsUnique rib peer u = elim (Option-cases (get ◌==◌ peer rib.adj_rib_in)) [
    | inl e ↦ rw (purge_found d rib peer none e) u
    | inr (adj, e) ↦ rw (purge_found d rib peer (some adj) e) (decide_all-IsUnique _ _ u)
  ]

  Steps-IsUnique :
      (build : Build) (rib after : Rib Table)
      → Steps d build rib after
      → IsUnique rib
      → IsUnique after
  Steps-IsUnique build rib after (update clock peer peer_as nlri attrs withdrawn e) u =
      subst EndsUnique e
        (process_update-EndsUnique build clock rib peer peer_as nlri attrs withdrawn u)
  Steps-IsUnique build rib after (leave peer) u = remove_peer-IsUnique rib peer u
  Steps-IsUnique build rib after (mark peer) u = mark-IsUnique rib peer u
  Steps-IsUnique build rib after (drop_stale peer) u = remove_stale-IsUnique rib peer u

  -- In every RIB that the operations come to from `Rib::new`, each prefix stands once in the Loc-RIB.
  pub Reaches-IsUnique :
      (build : Build) (table : Table) (rpki : RpkiValidator) (rib : Rib Table)
      → Reaches d build table rpki rib
      → HasUniqueKeys same_key rib.loc_rib
  unfolding Rib.new
  Reaches-IsUnique build table rpki rib start = tt
  Reaches-IsUnique build table rpki rib (step {rib = before} r s) =
      Steps-IsUnique build before rib s (Reaches-IsUnique build table rpki before r)
