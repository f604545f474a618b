-- ===== src/Rib/Upkeep.antt =====
-- Every operation of src/rib.rs keeps the Loc-RIB at what the decision process makes of the routes of
-- the peers.
use pathforge.Base.{
  ℕ, ◌≡◌, ◌⊎◌, inl, inr, refl, ◌∙◌, sym, ap, subst, List, [], ◌∷◌, true, false, Bool-cases,
  Option-cases, arith, get, remove, values, holds, HasUniqueKeys, get-insert, get-remove,
  get-remove_other, ◌==◌,
}
use pathforge.Rib.{
  Dampening, Rib, AdjRibIn, candidates, run_decision_process, decide_all, remove_all,
}
use pathforge.Rib.Routes.{PrefixKey, same_key}
use pathforge.Rib.Decision.{sort_routes, first}
use pathforge.Rib.Selection.{
  same_key-IsTest, decision_none, decision_some, run_decision_process-IsSelected,
}
use pathforge.Rib.Fresh.{fresh_of, offers, first-sort_routes-fresh}

module _ (d : Dampening) where
  open d use {Table}

  -- At the key the Loc-RIB has the first of the sorted offers, up to the stale flag.
  abbrev pub IsDecidedAt : Rib Table → PrefixKey → Type 0
  IsDecidedAt rib key =
      fresh_of (get same_key key rib.loc_rib) ≡ first (sort_routes (offers key rib.adj_rib_in))

  -- At every key; and each peer has one map.
  pub record IsConsistent (rib : Rib Table) : Type 0 where
    pub unique : HasUniqueKeys ◌==◌ rib.adj_rib_in
    pub decided : (key : PrefixKey) → IsDecidedAt rib key

  decided_here :
      (rib : Rib Table) (key : PrefixKey)
      → get same_key key (run_decision_process d rib key).loc_rib
        ≡ first (sort_routes (candidates key (values ◌==◌ rib.adj_rib_in)))
  decided_here rib key =
      elim (Option-cases (first (sort_routes (candidates key (values ◌==◌ rib.adj_rib_in))))) [
        | inl e ↦ rw (decision_none d rib key e) (get-remove same_key key rib.loc_rib ∙ sym e)
        | inr (best, e) ↦
            rw (decision_some d rib key best e)
              (get-insert same_key same_key-IsTest key best rib.loc_rib ∙ sym e)
      ]

  run-IsDecidedAt :
      (rib : Rib Table) (k j : PrefixKey)
      → (same_key k j ≡ true) ⊎ IsDecidedAt rib j
      → IsDecidedAt (run_decision_process d rib k) j
  run-IsDecidedAt rib k j h =
      let (_, others, adj) = run_decision_process-IsSelected d rib k in
      let same_offers = ap (λ a. first (sort_routes (offers j a))) (sym adj) in
      elim (Bool-cases (same_key k j)) [
        | inl e ↦
            let p : k ≡ j = same_key-IsTest.to_eq k j e in
            subst
              (λ x.
                fresh_of (get same_key j (run_decision_process d rib x).loc_rib)
                ≡ first (sort_routes (offers j (run_decision_process d rib k).adj_rib_in)))
              (sym p)
              (ap fresh_of (decided_here rib j)
                ∙ first-sort_routes-fresh (candidates j (values ◌==◌ rib.adj_rib_in))
                ∙ same_offers)
        | inr n ↦ elim h [
          | inl e ↦ absurd (cc)
          | inr was ↦ ap fresh_of (others j n) ∙ was ∙ same_offers
        ]
      ]

  decide_all-IsDecidedAt :
      (ks : List PrefixKey) (rib : Rib Table) (j : PrefixKey)
      → (holds same_key ks j ≡ true) ⊎ IsDecidedAt rib j
      → IsDecidedAt (decide_all d rib ks) j
  unfolding decide_all
  decide_all-IsDecidedAt [] rib j (inl e) = absurd (cc)
  decide_all-IsDecidedAt [] rib j (inr h) = h
  decide_all-IsDecidedAt (k ∷ ks) rib j (inl e) = elim (Bool-cases (same_key k j)) [
    | inl t ↦ decide_all-IsDecidedAt ks _ j (inr (run-IsDecidedAt rib k j (inl t)))
    | inr f ↦ decide_all-IsDecidedAt ks _ j (inl (rw f at e))
  ]
  decide_all-IsDecidedAt (k ∷ ks) rib j (inr h) =
      decide_all-IsDecidedAt ks _ j (inr (run-IsDecidedAt rib k j (inr h)))

  -- The routes of the peers change at some keys, and these are decided anew.
  pub redecide :
      (rib : Rib Table) (adj : List (ℕ × AdjRibIn)) (table : Table) (ks : List PrefixKey)
      → ((j : PrefixKey) → holds same_key ks j ≡ false → offers j adj ≡ offers j rib.adj_rib_in)
      → ((j : PrefixKey) → IsDecidedAt rib j)
      → (j : PrefixKey)
      → IsDecidedAt (decide_all d (record rib { adj_rib_in = adj; dampening = table }) ks) j
  redecide rib adj table ks kept was j =
      decide_all-IsDecidedAt ks _ j (elim (Bool-cases (holds same_key ks j)) [
        | inl t ↦ inl t
        | inr f ↦ inr (was j ∙ ap (λ o. first (sort_routes o)) (sym (kept j f)))
      ])

-- A key that is not removed is found as before.
pub get-remove_all :
    (ks : List PrefixKey) (rib : AdjRibIn) (j : PrefixKey)
    → holds same_key ks j ≡ false
    → get same_key j (remove_all ks rib) ≡ get same_key j rib
unfolding remove_all
get-remove_all [] rib j h = refl
get-remove_all (k ∷ ks) rib j h = elim (Bool-cases (same_key k j)) [
  | inl t ↦ absurd (ground (arith, h, t))
  | inr f ↦
      get-remove_all ks (remove same_key k rib) j (rw f at h)
      ∙ get-remove_other same_key same_key-IsTest k j rib f
]
