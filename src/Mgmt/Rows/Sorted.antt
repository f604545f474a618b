-- ===== src/Mgmt/Rows/Sorted.antt =====
-- The order that the tables of src/mgmt.rs put routes in.
use pathforge.Base.{
  get-tail, HasUniqueKeys, ◌∙◌, ap, ◌≡◌, refl, [], ◌∷◌, Option, none, some, Bool, true, false, ◌&&◌,
  if◌then◌else◌, All, get, Bool-cases, arith, inl, inr,
}
use pathforge.Mgmt.Rows.{sort_entries, key_before, place}
use pathforge.Rib.{LocRib}
use pathforge.Rib.Routes.{Route, PrefixKey, same_key}

-- Each entry comes before all that are behind it.
abbrev pub IsOrdered : LocRib → Type 0
IsOrdered [] = Unit {0}
IsOrdered (e ∷ l) = All (λ f. key_before e.0 f.0 ≡ true) l × IsOrdered l

before_trans :
    (a b c : PrefixKey) → key_before a b ≡ true → key_before b c ≡ true → key_before a c ≡ true
before_trans a b c h k = ground arith

before-differs : (a b : PrefixKey) → key_before a b ≡ true → same_key b a ≡ false
before-differs a b h = ground arith

before-differs_too : (a b : PrefixKey) → key_before a b ≡ true → same_key a b ≡ false
before-differs_too a b h = ground arith

-- Of two keys that differ one is before the other.
before_total :
    (a b : PrefixKey) → same_key b a ≡ false → key_before b a ≡ false → key_before a b ≡ true
before_total a b h k = ground arith

pub All-before :
    (a b : PrefixKey) (l : LocRib)
    → key_before a b ≡ true
    → All (λ f. key_before b f.0 ≡ true) l
    → All (λ f. key_before a f.0 ≡ true) l
All-before a b [] h k = tt
All-before a b (f ∷ l) h k = (before_trans a b f.0 h k.0, All-before a b l h k.1)

-- No entry behind a key has the key.
pub get-before :
    (a : PrefixKey) (l : LocRib) → All (λ f. key_before a f.0 ≡ true) l → get same_key a l ≡ none
get-before a [] h = refl
get-before a (f ∷ l) h = rw (before-differs a f.0 h.0) (get-before a l h.1)

place_step :
    (e f : PrefixKey × Route) (l : LocRib)
    → place e (f ∷ l) ≡ (if key_before f.0 e.0 then f ∷ place e l else e ∷ f ∷ l)
unfolding place
place_step e f l = refl

place_nil : (e : PrefixKey × Route) → place e [] ≡ e ∷ []
unfolding place
place_nil e = refl

All-place :
    (P : PrefixKey × Route → Type 0) (e : PrefixKey × Route) (l : LocRib)
    → P e
    → All P l
    → All P (place e l)
All-place P e [] h k = rw (place_nil e) (h, tt)
All-place P e (f ∷ l) h k = rw (place_step e f l) (elim (Bool-cases (key_before f.0 e.0)) [
  | inl b ↦ rw b (k.0, All-place P e l h k.1)
  | inr b ↦ rw b (h, k)
])

-- What is found at a key, after an entry is put in.
abbrev pub or_found : Bool → Route → Option Route → Option Route
or_found hit r rest = if hit then some r else rest

never_both : (a b k : PrefixKey) → same_key a b ≡ false → (same_key a k && same_key b k) ≡ false
never_both a b k n = ground arith

found_swap :
    (x y : Bool) (r s : Route) (o : Option Route)
    → (x && y) ≡ false
    → or_found x r (or_found y s o) ≡ or_found y s (or_found x r o)
found_swap true true r s o h = absurd (ground arith)
found_swap true false r s o h = refl
found_swap false y r s o h = refl

get-place :
    (k : PrefixKey) (e : PrefixKey × Route) (l : LocRib)
    → get same_key e.0 l ≡ none
    → get same_key k (place e l) ≡ or_found (same_key e.0 k) e.1 (get same_key k l)
get-place k e [] h = rw (place_nil e) refl
get-place k e (f ∷ l) h =
    let (n, rest) = get-tail same_key f.0 e.0 f.1 l h in
    ap (get same_key k) (place_step e f l) ∙ elim (Bool-cases (key_before f.0 e.0)) [
      | inl b ↦
          rw b (ap (or_found (same_key f.0 k) f.1) (get-place k e l rest))
          ∙ found_swap (same_key f.0 k) (same_key e.0 k) f.1 e.1 (get same_key k l)
              (never_both f.0 e.0 k n)
      | inr b ↦ rw b refl
    ]

-- The keys that differ from an entry's are before it or behind it.
place-IsOrdered :
    (e : PrefixKey × Route) (l : LocRib)
    → get same_key e.0 l ≡ none
    → IsOrdered l
    → IsOrdered (place e l)
place-IsOrdered e [] h o = rw (place_nil e) (tt, tt)
place-IsOrdered e (f ∷ l) h o =
    let (n, rest) = get-tail same_key f.0 e.0 f.1 l h in
    rw (place_step e f l) (elim (Bool-cases (key_before f.0 e.0)) [
      | inl b ↦
          let P : PrefixKey × Route → Type 0 = λ g. key_before f.0 g.0 ≡ true in
          rw b (All-place P e l b o.0, place-IsOrdered e l rest o.1)
      | inr b ↦
          let first : key_before e.0 f.0 ≡ true = before_total e.0 f.0 n b in
          rw b ((first, All-before e.0 f.0 l first o.0), o)
    ])

sort_step : (e : PrefixKey × Route) (l : LocRib) → sort_entries (e ∷ l) ≡ place e (sort_entries l)
unfolding sort_entries
sort_step e l = refl

pub get-sort_entries :
    (k : PrefixKey) (l : LocRib)
    → HasUniqueKeys same_key l
    → get same_key k (sort_entries l) ≡ get same_key k l
unfolding sort_entries
get-sort_entries k [] u = refl
get-sort_entries k (e ∷ l) u =
    get-place k e (sort_entries l) (get-sort_entries e.0 l u.1 ∙ u.0)
    ∙ ap (or_found (same_key e.0 k) e.1) (get-sort_entries k l u.1)

pub sort_entries-IsOrdered : (l : LocRib) → HasUniqueKeys same_key l → IsOrdered (sort_entries l)
unfolding sort_entries
sort_entries-IsOrdered [] u = tt
sort_entries-IsOrdered (e ∷ l) u =
    place-IsOrdered e (sort_entries l) (get-sort_entries e.0 l u.1 ∙ u.0)
      (sort_entries-IsOrdered l u.1)
