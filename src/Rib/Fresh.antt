-- ===== src/Rib/Fresh.antt =====
-- The decision of src/rib.rs does not look at the stale flag: routes are compared with it cleared.
use pathforge.Base.{
  ℕ, ◌≡◌, refl, ◌∙◌, sym, ap, List, [], ◌∷◌, map, Option, none, some, false, Bool-cases, inl, inr,
  get, insert, remove, values, remove_absent, HasUniqueKeys, ◌==◌, ==_iff,
}
use pathforge.Rib.{AdjRibIn, candidates, keep, or_default}
use pathforge.Rib.Routes.{Route, PrefixKey, same_key}
use pathforge.Rib.Decision.{compare_routes, is_gt, insert_by, sort_routes, first}

abbrev pub fresh : Route → Route
fresh r = record r { stale = false }

abbrev pub fresh_of : Option Route → Option Route
fresh_of none = none
fresh_of (some r) = some (fresh r)

compare_routes-fresh : (r s : Route) → compare_routes (fresh r) (fresh s) ≡ compare_routes r s
unfolding compare_routes
compare_routes-fresh r s = refl

insert_by-fresh :
    (r : Route) (rs : List Route) → map fresh (insert_by r rs) ≡ insert_by (fresh r) (map fresh rs)
unfolding insert_by
insert_by-fresh r [] = refl
insert_by-fresh r (s ∷ rs) = elim (Bool-cases (is_gt (compare_routes r s))) [
  | inl behind ↦
      rw (compare_routes-fresh r s, behind) (ap (λ l. fresh s ∷ l) (insert_by-fresh r rs))
  | inr front ↦ rw (compare_routes-fresh r s, front) refl
]

sort_routes-fresh : (rs : List Route) → map fresh (sort_routes rs) ≡ sort_routes (map fresh rs)
unfolding sort_routes
sort_routes-fresh [] = refl
sort_routes-fresh (r ∷ rs) =
    insert_by-fresh r (sort_routes rs) ∙ ap (insert_by (fresh r)) (sort_routes-fresh rs)

first-fresh : (rs : List Route) → fresh_of (first rs) ≡ first (map fresh rs)
first-fresh [] = refl
first-fresh (r ∷ rs) = refl

-- The choice among the routes, with the flag cleared, is the choice among the routes cleared.
pub first-sort_routes-fresh :
    (rs : List Route) → fresh_of (first (sort_routes rs)) ≡ first (sort_routes (map fresh rs))
first-sort_routes-fresh rs = first-fresh (sort_routes rs) ∙ ap first (sort_routes-fresh rs)

keep-fresh :
    (r : Option Route) (rs : List Route) → map fresh (keep r rs) ≡ keep (fresh_of r) (map fresh rs)
keep-fresh none rs = refl
keep-fresh (some r) rs = refl

-- What the peers have for a prefix, cleared.
abbrev pub offers : PrefixKey → List (ℕ × AdjRibIn) → List Route
offers key adj = map fresh (candidates key (values ◌==◌ adj))

offers-cons :
    (key : PrefixKey) (peer : ℕ) (rib : AdjRibIn) (adj : List (ℕ × AdjRibIn))
    → offers key ((peer, rib) ∷ adj) ≡ keep (fresh_of (get same_key key rib)) (offers key adj)
unfolding candidates
offers-cons key peer rib adj = keep-fresh (get same_key key rib) (candidates key (values ◌==◌ adj))

-- A peer's routes are replaced: what is offered for a prefix stays, if the peer's route for it does.
pub offers-insert :
    (key : PrefixKey) (peer : ℕ) (left : AdjRibIn) (adj : List (ℕ × AdjRibIn))
    → fresh_of (get same_key key left)
      ≡ fresh_of (get same_key key (or_default (get ◌==◌ peer adj)))
    → offers key (insert ◌==◌ peer left adj) ≡ offers key adj
unfolding candidates
offers-insert key peer left [] h = offers-cons key peer left [] ∙ rw h refl
offers-insert key peer left ((j, rib) ∷ adj) h = elim (Bool-cases (j == peer)) [
  | inl e ↦
      let same : fresh_of (get same_key key left) ≡ fresh_of (get same_key key rib) = rw e at h in
      rw e (
        offers-cons key peer left adj
        ∙ ap (λ o. keep o (offers key adj)) same
        ∙ sym (offers-cons key j rib adj))
  | inr n ↦
      let rest : fresh_of (get same_key key left)
          ≡ fresh_of (get same_key key (or_default (get ◌==◌ peer adj))) =
        rw n at h in
      rw n (
        offers-cons key j rib (insert ◌==◌ peer left adj)
        ∙ ap (keep (fresh_of (get same_key key rib))) (offers-insert key peer left adj rest)
        ∙ sym (offers-cons key j rib adj))
]

-- A peer is removed that has no route for the prefix.
pub offers-remove :
    (key : PrefixKey) (peer : ℕ) (adj : List (ℕ × AdjRibIn))
    → HasUniqueKeys ◌==◌ adj
    → get same_key key (or_default (get ◌==◌ peer adj)) ≡ none
    → offers key (remove ◌==◌ peer adj) ≡ offers key adj
unfolding candidates
offers-remove key peer [] u h = refl
offers-remove key peer ((j, rib) ∷ adj) u h = elim (Bool-cases (j == peer)) [
  | inl e ↦
      let p : j ≡ peer = (==_iff j peer).0 e in
      let gone : get same_key key rib ≡ none = rw e at h in
      let absent : get ◌==◌ peer adj ≡ none = rw (← p) u.0 in
      rw e (
        ap (offers key) (remove_absent ◌==◌ peer adj absent)
        ∙ ap (λ o. keep (fresh_of o) (offers key adj)) (sym gone)
        ∙ sym (offers-cons key j rib adj))
  | inr n ↦
      let rest : get same_key key (or_default (get ◌==◌ peer adj)) ≡ none = rw n at h in
      rw n (
        offers-cons key j rib (remove ◌==◌ peer adj)
        ∙ ap (keep (fresh_of (get same_key key rib))) (offers-remove key peer adj u.1 rest)
        ∙ sym (offers-cons key j rib adj))
]
