-- ===== src/Rib/Selection.antt =====
-- What the decision process of src/rib.rs leaves in the Loc-RIB.
use pathforge.Base.{
  ℕ, ◌∷◌, keys, ◌≡◌, inl, inr, refl, List, [], Option, none, some, false, arith, get, insert,
  remove, values, IsTest, get-insert, get-insert_other, get-remove, get-remove_other, Option-cases,
  ◌==◌, ap, ◌∙◌, ==_iff,
}
use pathforge.Rib.{
  decide_all, remove_peer, or_default, Dampening, Rib, candidates, run_decision_process,
}
use pathforge.Rib.Routes.{Route, PrefixKey, same_key}
use pathforge.Rib.Decision.{sort_routes, first}
use pathforge.Rib.Decision.Best.{IsBest, sort_routes-IsBest, sort_routes-none}

pub same_key-IsTest : IsTest same_key
same_key-IsTest = record { to_eq = λ j k h. ground arith; reflexive = λ k. ground arith }

pub number-IsTest : IsTest ◌==◌
number-IsTest = record { to_eq = λ j k h. (==_iff j k).0 h; reflexive = λ k. (==_iff k k).1 refl }

-- The Loc-RIB at a key, against the routes that the peers have for it.
abbrev pub IsSelected : Option Route → List Route → Type 0
IsSelected none rs = rs ≡ []
IsSelected (some best) rs = IsBest best rs

module _ (d : Dampening) where
  open d use {Table}

  pub decision_none :
      (rib : Rib Table) (key : PrefixKey)
      → first (sort_routes (candidates key (values ◌==◌ rib.adj_rib_in))) ≡ none
      → run_decision_process d rib key ≡ record rib { loc_rib = remove same_key key rib.loc_rib }
  unfolding run_decision_process
  decision_none rib key e =
      ap
        (λ f. elim f as (λ _. Rib Table) [
          | none ↦ record rib { loc_rib = remove same_key key rib.loc_rib }
          | some best ↦ record rib { loc_rib = insert same_key key best rib.loc_rib }
        ])
        e

  pub decision_some :
      (rib : Rib Table) (key : PrefixKey) (best : Route)
      → first (sort_routes (candidates key (values ◌==◌ rib.adj_rib_in))) ≡ some best
      → run_decision_process d rib key
        ≡ record rib { loc_rib = insert same_key key best rib.loc_rib }
  unfolding run_decision_process
  decision_some rib key best e =
      ap
        (λ f. elim f as (λ _. Rib Table) [
          | none ↦ record rib { loc_rib = remove same_key key rib.loc_rib }
          | some best ↦ record rib { loc_rib = insert same_key key best rib.loc_rib }
        ])
        e

  -- The decision process leaves in the Loc-RIB, at the key, one of the routes that the peers have
  -- for it and that is behind none of them in the comparison, or no route if they have none; and at
  -- every other key what was there. The routes of the peers stay as they were.
  pub run_decision_process-IsSelected :
      (rib : Rib Table) (key : PrefixKey)
      → IsSelected
          (get same_key key (run_decision_process d rib key).loc_rib)
          (candidates key (values ◌==◌ rib.adj_rib_in))
        × ((other : PrefixKey)
            → same_key key other ≡ false
            → get same_key other (run_decision_process d rib key).loc_rib
              ≡ get same_key other rib.loc_rib)
        × ((run_decision_process d rib key).adj_rib_in ≡ rib.adj_rib_in)
  run_decision_process-IsSelected rib key =
      elim (Option-cases (first (sort_routes (candidates key (values ◌==◌ rib.adj_rib_in))))) [
        | inl e ↦ rw (decision_none rib key e) (
          rw (get-remove same_key key rib.loc_rib) (sort_routes-none _ e),
          (λ other n. get-remove_other same_key same_key-IsTest key other rib.loc_rib n),
          refl,
        )
        | inr (best, e) ↦ rw (decision_some rib key best e) (
          rw (get-insert same_key same_key-IsTest key best rib.loc_rib)
              (sort_routes-IsBest _ best e),
          (λ other n. get-insert_other same_key same_key-IsTest key other best rib.loc_rib n),
          refl,
        )
      ]

  pub decide_all-adj :
      (ks : List PrefixKey) (rib : Rib Table) → (decide_all d rib ks).adj_rib_in ≡ rib.adj_rib_in
  unfolding decide_all
  decide_all-adj [] rib = refl
  decide_all-adj (k ∷ ks) rib =
      decide_all-adj ks (run_decision_process d rib k) ∙ (run_decision_process-IsSelected rib k).2

  -- A peer that is removed has no routes left, every other peer has those that it had, and the keys
  -- that are reported are those of the removed routes.
  pub remove_peer_lem :
      (rib : Rib Table) (peer : ℕ)
      → (get ◌==◌ peer (remove_peer d rib peer).0.adj_rib_in ≡ none)
        × ((other : ℕ)
            → (peer == other) ≡ false
            → get ◌==◌ other (remove_peer d rib peer).0.adj_rib_in ≡ get ◌==◌ other rib.adj_rib_in)
        × ((remove_peer d rib peer).1 ≡ keys same_key (or_default (get ◌==◌ peer rib.adj_rib_in)))
  unfolding remove_peer
  remove_peer_lem rib peer =
      let e =
        decide_all-adj (keys same_key (or_default (get ◌==◌ peer rib.adj_rib_in)))
          (record rib { adj_rib_in = remove ◌==◌ peer rib.adj_rib_in }) in
      (
        ap (get ◌==◌ peer) e ∙ get-remove ◌==◌ peer rib.adj_rib_in,
        (λ other n.
            ap (get ◌==◌ other) e
            ∙ get-remove_other ◌==◌ number-IsTest peer other rib.adj_rib_in n),
        refl,
      )
