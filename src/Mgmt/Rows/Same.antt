-- ===== src/Mgmt/Rows/Same.antt =====
-- Tables with the same entries are shown the same way, in whatever order a HashMap gives them.
use pathforge.Mgmt.Rows.Sorted.{
  or_found, IsOrdered, get-before, All-before, get-sort_entries, sort_entries-IsOrdered,
}
use pathforge.Base.{
  HasUniqueKeys, sym, subst, ◌∙◌, ap, ◌≡◌, refl, [], ◌∷◌, Option, none, some, Bool, true, false,
  ◌&&◌, if◌then◌else◌, get, Bool-cases, arith, inl, inr,
}
use pathforge.Mgmt.Rows.{sort_entries, matching, key_before}
use pathforge.Rib.Selection.{same_key-IsTest}
use pathforge.Rib.{LocRib}
use pathforge.Rib.Routes.{Route, PrefixKey, same_key}

get-head : (e : PrefixKey × Route) (l : LocRib) → get same_key e.0 (e ∷ l) ≡ some e.1
get-head e l = rw (same_key-IsTest.reflexive e.0) refl

get-later :
    (k : PrefixKey) (e : PrefixKey × Route) (l : LocRib)
    → same_key e.0 k ≡ false
    → get same_key k (e ∷ l) ≡ get same_key k l
get-later k e l h = rw h refl

neither_before :
    (a b : PrefixKey) → key_before a b ≡ false → key_before b a ≡ false → same_key a b ≡ true
neither_before a b h k = ground arith

some_not_none : {o : Option Route} {r : Route} → o ≡ some r → o ≡ none → ⊥
some_not_none e n = cc

module _ (e f : PrefixKey × Route) (l m : LocRib) (o : IsOrdered (e ∷ l)) (p : IsOrdered (f ∷ m))
    (same : (k : PrefixKey) → get same_key k (e ∷ l) ≡ get same_key k (f ∷ m)) where
  not_before : key_before e.0 f.0 ≡ false
  not_before = elim (Bool-cases (key_before e.0 f.0)) [
    | inl b ↦ absurd (
        some_not_none (sym (same e.0) ∙ get-head e l)
          (get-before e.0 (f ∷ m) (b, All-before e.0 f.0 m b p.0)))
    | inr b ↦ b
  ]

  -- With the same first key, the same is found in the rests.
  rests_same : e.0 ≡ f.0 → (k : PrefixKey) → get same_key k l ≡ get same_key k m
  rests_same h k = elim (Bool-cases (same_key e.0 k)) [
    | inl b ↦
        let q : e.0 ≡ k = same_key-IsTest.to_eq e.0 k b in
        let nl : get same_key k l ≡ none =
          subst (λ j. get same_key j l ≡ none) q (get-before e.0 l o.0) in
        let nm : get same_key k m ≡ none =
          subst (λ j. get same_key j m ≡ none) (sym h ∙ q) (get-before f.0 m p.0) in
        nl ∙ sym nm
    | inr b ↦
        let c : same_key f.0 k ≡ false = subst (λ j. same_key j k ≡ false) h b in
        sym (get-later k e l b) ∙ same k ∙ get-later k f m c
  ]

-- Two ordered lists in which the same is found are the same.
ordered_eq :
    (l m : LocRib)
    → IsOrdered l
    → IsOrdered m
    → ((k : PrefixKey) → get same_key k l ≡ get same_key k m)
    → l ≡ m
ordered_eq [] [] o p same = refl
ordered_eq [] (f ∷ m) o p same = absurd (some_not_none (get-head f m) (sym (same f.0)))
ordered_eq (e ∷ l) [] o p same = absurd (some_not_none (get-head e l) (same e.0))
ordered_eq (e ∷ l) (f ∷ m) o p same =
    let key : e.0 ≡ f.0 = same_key-IsTest.to_eq e.0 f.0 (
      neither_before e.0 f.0 (not_before e f l m o p same)
        (not_before f e m l p o (λ k. sym (same k)))) in
    let route : some e.1 ≡ some f.1 =
      sym (get-head e l) ∙ same e.0 ∙ ap (λ j. get same_key j (f ∷ m)) key ∙ get-head f m in
    let rest : l ≡ m = ordered_eq l m o.1 p.1 (rests_same e f l m o p same key) in
    cc (key, route, rest)

-- Tables with the same entries are sorted to the same list.
pub sort_entries_eq :
    (l m : LocRib)
    → HasUniqueKeys same_key l
    → HasUniqueKeys same_key m
    → ((k : PrefixKey) → get same_key k l ≡ get same_key k m)
    → sort_entries l ≡ sort_entries m
sort_entries_eq l m u v same =
    ordered_eq (sort_entries l) (sort_entries m) (sort_entries-IsOrdered l u)
      (sort_entries-IsOrdered m v)
      (λ k. get-sort_entries k l u ∙ same k ∙ sym (get-sort_entries k m v))

-- What a filter leaves at a key.
abbrev pub keep_if : (Route → Bool) → Option Route → Option Route
keep_if p none = none
keep_if p (some r) = if p r then some r else none

matching_step :
    (p : Route → Bool) (e : PrefixKey × Route) (l : LocRib)
    → matching p (e ∷ l) ≡ (if p e.1 then e ∷ matching p l else matching p l)
unfolding matching
matching_step p e l = refl

matching_nil : (p : Route → Bool) → matching p [] ≡ []
unfolding matching
matching_nil p = refl

get-kept :
    (x : Bool) (k : PrefixKey) (e : PrefixKey × Route) (m : LocRib)
    → get same_key k (if x then e ∷ m else m)
      ≡ or_found (x && same_key e.0 k) e.1 (get same_key k m)
get-kept true k e m = refl
get-kept false k e m = refl

keep_if-found :
    (p : Route → Bool) (y : Bool) (r : Route) (o : Option Route)
    → keep_if p (or_found y r o) ≡ (if y then keep_if p (some r) else keep_if p o)
keep_if-found p true r o = refl
keep_if-found p false r o = refl

found_or_kept :
    (x y : Bool) (r : Route) (o : Option Route)
    → (y ≡ true → o ≡ none)
    → or_found (x && y) r o ≡ (if y then if x then some r else none else o)
found_or_kept true true r o h = refl
found_or_kept true false r o h = refl
found_or_kept false true r o h = h refl
found_or_kept false false r o h = refl

pub get-matching :
    (p : Route → Bool) (k : PrefixKey) (l : LocRib)
    → HasUniqueKeys same_key l
    → get same_key k (matching p l) ≡ keep_if p (get same_key k l)
get-matching p k [] u = rw (matching_nil p) refl
get-matching p k (e ∷ l) u =
    let rest = get-matching p k l u.1 in
    let absent : same_key e.0 k ≡ true → keep_if p (get same_key k l) ≡ none = λ c.
      let q : e.0 ≡ k = same_key-IsTest.to_eq e.0 k c in
      ap (keep_if p) (subst (λ j. get same_key j l ≡ none) q u.0) in
    ap (get same_key k) (matching_step p e l)
    ∙ get-kept (p e.1) k e (matching p l)
    ∙ ap (or_found (p e.1 && same_key e.0 k) e.1) rest
    ∙ found_or_kept (p e.1) (same_key e.0 k) e.1 (keep_if p (get same_key k l)) absent
    ∙ sym (keep_if-found p (same_key e.0 k) e.1 (get same_key k l))

pub matching-HasUniqueKeys :
    (p : Route → Bool) (l : LocRib)
    → HasUniqueKeys same_key l
    → HasUniqueKeys same_key (matching p l)
matching-HasUniqueKeys p [] u = rw (matching_nil p) tt
matching-HasUniqueKeys p (e ∷ l) u = rw (matching_step p e l) (elim (Bool-cases (p e.1)) [
  | inl b ↦ rw b (get-matching p e.0 l u.1 ∙ ap (keep_if p) u.0, matching-HasUniqueKeys p l u.1)
  | inr b ↦ rw b (matching-HasUniqueKeys p l u.1)
])
