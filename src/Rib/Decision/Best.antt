-- ===== src/Rib/Decision/Best.antt =====
-- What the sort of src/rib.rs puts first.
use pathforge.Base.{
  ◌≡◌, ◌≢◌, ◌⊎◌, inl, inr, refl, List, [], ◌∷◌, none, some, All, true, false, Bool-cases, arith,
  subst,
}
use pathforge.Rib.Routes.{Route}
use pathforge.Rib.Decision.{compare_routes, is_gt, insert_by, sort_routes, first}
use pathforge.Rib.Decision.Order.{compare_routes-IsComparison, IsAtLeast, IsAtLeast-trans}

-- One of the routes, and behind none of them.
abbrev pub IsIn : Route → List Route → Type 0
IsIn r [] = ⊥
IsIn r (s ∷ rs) = (r ≡ s) ⊎ IsIn r rs

abbrev pub IsBest : Route → List Route → Type 0
IsBest r rs = IsIn r rs × All (IsAtLeast r) rs

IsAtLeast-self : (r : Route) → IsAtLeast r r
IsAtLeast-self r h = let p = compare_routes-IsComparison in ground (arith, h, p.flip_gt r r h)

IsAtLeast-flip : (r s : Route) → is_gt (compare_routes r s) ≡ true → IsAtLeast s r
IsAtLeast-flip r s h k =
    let p = compare_routes-IsComparison in ground (arith, h, k, p.flip_gt s r k)

not_gt : (r s : Route) → is_gt (compare_routes r s) ≡ false → IsAtLeast r s
not_gt r s h k = ground (arith, h, k)

All-mono :
    (r s : Route) (rs : List Route) → IsAtLeast r s → All (IsAtLeast s) rs → All (IsAtLeast r) rs
All-mono r s [] h a = tt
All-mono r s (t ∷ rs) h a = (IsAtLeast-trans r s t h a.0, All-mono r s rs h a.1)

-- The head of a list into which a route was sorted.
insert_by-IsBest :
    (r : Route) (sorted rs : List Route)
    → ((h : Route) → first sorted ≡ some h → IsBest h rs)
    → (first sorted ≡ none → rs ≡ [])
    → (h : Route) → first (insert_by r sorted) ≡ some h
    → IsBest h (r ∷ rs)
unfolding insert_by
insert_by-IsBest r [] rs ih empty h e =
    let p : r ≡ h = cc in
    subst (λ z. IsBest z (r ∷ rs)) p (rw (empty refl) (inl refl, (IsAtLeast-self r, tt)))
insert_by-IsBest r (s ∷ sorted) rs ih empty h e = elim (Bool-cases (is_gt (compare_routes r s))) [
  | inl behind ↦
      let q : first (insert_by r (s ∷ sorted)) ≡ some s = rw behind refl in
      let p : s ≡ h = cc in
      let (i, a) = ih s refl in
      subst (λ z. IsBest z (r ∷ rs)) p (inr i, (IsAtLeast-flip r s behind, a))
  | inr front ↦
      let q : first (insert_by r (s ∷ sorted)) ≡ some r = rw front refl in
      let p : r ≡ h = cc in
      let (i, a) = ih s refl in
      subst (λ z. IsBest z (r ∷ rs)) p
        (inl refl, (IsAtLeast-self r, All-mono r s rs (not_gt r s front) a))
]

insert_by-first : (r : Route) (sorted : List Route) → first (insert_by r sorted) ≢ none
unfolding insert_by
insert_by-first r [] e = cc
insert_by-first r (s ∷ sorted) e = elim (Bool-cases (is_gt (compare_routes r s))) [
  | inl behind ↦ let q : first (insert_by r (s ∷ sorted)) ≡ some s = rw behind refl in absurd (cc)
  | inr front ↦ let q : first (insert_by r (s ∷ sorted)) ≡ some r = rw front refl in absurd (cc)
]

pub sort_routes-none : (rs : List Route) → first (sort_routes rs) ≡ none → rs ≡ []
unfolding sort_routes
sort_routes-none [] e = refl
sort_routes-none (r ∷ rs) e = absurd (insert_by-first r (sort_routes rs) e)

pub sort_routes-IsBest :
    (rs : List Route) (h : Route) → first (sort_routes rs) ≡ some h → IsBest h rs
unfolding sort_routes
sort_routes-IsBest [] h e = absurd (cc)
sort_routes-IsBest (r ∷ rs) h e =
    insert_by-IsBest r (sort_routes rs) rs (sort_routes-IsBest rs) (sort_routes-none rs) h e
