-- ===== src/Rib/Query/Longest.antt =====
-- What Rib::longest_match of src/rib.rs finds.
use pathforge.Rib.{Rib, LocRib}
use pathforge.Rib.Query.{match_from, longest_match, covers_addr, shift_of, longer}
use pathforge.Base.{
  ltb→lt, ltb, ap, if◌then◌else◌, ℕ, ◌-◌, ◌/◌, ◌^◌, ◌≤◌, ◌<◌, ◌≡◌, refl, sym, subst, ◌∙◌, [], ◌∷◌,
  Option, none, some, Bool, true, ◌⊎◌, inl, inr, ◌==◌, All, arith, Build, shr32_lem, IsU32,
  Bool-cases, le→ltb, ==_iff,
}
use pathforge.Rib.Routes.{Route, PrefixKey}

abbrev pub IsUsualKey : PrefixKey → Type 0
IsUsualKey key = (key.prefix_len ≤ 32) × IsU32 key.address

-- The address is one of those of the prefix.
abbrev pub IsWithin : ℕ → PrefixKey → Type 0
IsWithin addr key = addr / 2 ^ (32 - key.prefix_len) ≡ key.address / 2 ^ (32 - key.prefix_len)

abbrev within : ℕ → PrefixKey → Bool
within addr key = (addr / 2 ^ (32 - key.prefix_len)) == (key.address / 2 ^ (32 - key.prefix_len))

default_within : (addr n : ℕ) → IsU32 addr → n ≡ 0 → addr / 2 ^ (32 - n) ≡ 0
default_within addr n u e = rw e (omega arith)

covers_addr_lem :
    (build : Build) (addr : ℕ) (key : PrefixKey)
    → IsU32 addr
    → IsUsualKey key
    → covers_addr build addr key ≡ some (within addr key)
unfolding covers_addr shift_of
covers_addr_lem build addr key u (l, a) = elim (Bool-cases (key.prefix_len == 0)) [
  | inl e ↦
      let z : key.prefix_len ≡ 0 = (==_iff key.prefix_len 0).0 e in
      let same : within addr key ≡ true = (==_iff _ _).1 (
        default_within addr key.prefix_len u z
        ∙ sym (default_within key.address key.prefix_len a z)) in
      rw (e, same) refl
  | inr n ↦
      let positive : 32 - key.prefix_len < 32 = ground (arith, n) in
      rw
        (
          n,
          le→ltb 32 key.prefix_len l,
          shr32_lem build addr (32 - key.prefix_len) positive,
          shr32_lem build key.address (32 - key.prefix_len) positive,
        )
        refl
]

abbrev pub IsIn : PrefixKey × Route → LocRib → Type 0
IsIn e [] = ⊥
IsIn e (f ∷ rib) = (e ≡ f) ⊎ IsIn e rib

-- No entry that the address is within is longer.
abbrev pub IsLongestOf : ℕ → LocRib → PrefixKey × Route → Type 0
IsLongestOf addr rib c = All (λ e. IsWithin addr e.0 → e.0.prefix_len ≤ c.0.prefix_len) rib

-- Of an entry that was found before, and the entries that are left.
abbrev pub StartsAt : Option (PrefixKey × Route) → PrefixKey × Route → Type 0
StartsAt none c = ⊥
StartsAt (some b) c = b ≡ c

abbrev pub IsNoShorter : Option (PrefixKey × Route) → PrefixKey × Route → Type 0
IsNoShorter none c = Unit {0}
IsNoShorter (some b) c = b.0.prefix_len ≤ c.0.prefix_len

abbrev pub IsFound : ℕ → Option (PrefixKey × Route) → LocRib → Option (PrefixKey × Route) → Type 0
IsFound addr none rib none = All (λ e. ¬ IsWithin addr e.0) rib
IsFound addr (some b) rib none = ⊥
IsFound addr best rib (some c) =
    (StartsAt best c ⊎ (IsIn c rib × IsWithin addr c.0))
    × (IsNoShorter best c × IsLongestOf addr rib c)

-- An entry that the address is not within makes no difference.
IsFound-pass :
    (addr : ℕ) (best : Option (PrefixKey × Route)) (e : PrefixKey × Route) (rib : LocRib)
    (c : Option (PrefixKey × Route))
    → ¬ IsWithin addr e.0
    → IsFound addr best rib c
    → IsFound addr best (e ∷ rib) c
IsFound-pass addr none e rib none n h = (n, h)
IsFound-pass addr (some b) e rib none n h = h
IsFound-pass addr best e rib (some c) n (inl s, (l, a)) = (inl s, (l, ((λ w. absurd (n w)), a)))
IsFound-pass addr best e rib (some c) n (inr (i, w), (l, a)) =
    (inr (inr i, w), (l, ((λ w. absurd (n w)), a)))

-- The entry before is longer, or the one that is taken is not shorter than it.
older :
    (addr : ℕ) (b e : PrefixKey × Route) (rib : LocRib) (c : PrefixKey × Route)
    → e.0.prefix_len < b.0.prefix_len
    → IsFound addr (some b) rib (some c)
    → IsFound addr (some b) (e ∷ rib) (some c)
older addr b e rib c h (inl s, (l, a)) = (inl s, (l, ((λ v. omega (arith, h, l)), a)))
older addr b e rib c h (inr (i, w), (l, a)) = (inr (inr i, w), (l, ((λ v. omega (arith, h, l)), a)))

newer :
    (addr : ℕ) (b e : PrefixKey × Route) (rib : LocRib) (c : PrefixKey × Route)
    → IsWithin addr e.0
    → b.0.prefix_len ≤ e.0.prefix_len
    → IsFound addr (some e) rib (some c)
    → IsFound addr (some b) (e ∷ rib) (some c)
newer addr b e rib c w h (inl s, (l, a)) =
    (inr (inl (sym s), subst (λ x. IsWithin addr x.0) s w), (omega (arith, h, l), ((λ v. l), a)))
newer addr b e rib c w h (inr (i, v), (l, a)) =
    (inr (inr i, v), (omega (arith, h, l), ((λ x. l), a)))

-- One that it is within is taken unless a longer one is there.
IsFound-take :
    (addr : ℕ) (best : Option (PrefixKey × Route)) (e : PrefixKey × Route) (rib : LocRib)
    (c : Option (PrefixKey × Route))
    → IsWithin addr e.0
    → IsFound addr (some (longer best e)) rib c
    → IsFound addr best (e ∷ rib) c
IsFound-take addr none e rib none w h = absurd h
IsFound-take addr none e rib (some c) w (inl s, (l, a)) =
    (inr (inl (sym s), subst (λ x. IsWithin addr x.0) s w), (tt, ((λ v. l), a)))
IsFound-take addr none e rib (some c) w (inr (i, v), (l, a)) = (inr (inr i, v), (tt, ((λ v. l), a)))
IsFound-take addr (some b) e rib none w h = absurd h
IsFound-take addr (some b) e rib (some c) w h =
    elim (Bool-cases (ltb e.0.prefix_len b.0.prefix_len)) [
      | inl x ↦
          let kept : longer (some b) e ≡ b = rw x refl in
          older addr b e rib c (ltb→lt e.0.prefix_len b.0.prefix_len x)
            (subst (λ y. IsFound addr (some y) rib (some c)) kept h)
      | inr x ↦
          let taken : longer (some b) e ≡ e = rw x refl in
          newer addr b e rib c w (ground (arith, x))
            (subst (λ y. IsFound addr (some y) rib (some c)) taken h)
    ]

match_from_nil :
    (build : Build) (addr : ℕ) (best : Option (PrefixKey × Route))
    → match_from build addr best [] ≡ some best
unfolding match_from
match_from_nil build addr best = refl

nothing_left : (addr : ℕ) (best : Option (PrefixKey × Route)) → IsFound addr best [] best
nothing_left addr none = tt
nothing_left addr (some b) = (inl refl, (omega arith, tt))

match_from_step :
    (build : Build) (addr : ℕ) (best : Option (PrefixKey × Route)) (e : PrefixKey × Route)
    (rib : LocRib) {hit : Bool}
    → covers_addr build addr e.0 ≡ some hit
    → match_from build addr best (e ∷ rib)
      ≡ match_from build addr (if hit then some (longer best e) else best) rib
unfolding match_from
match_from_step build addr best e rib h = rw h refl

match_from-IsFound :
    (build : Build) (addr : ℕ) (best : Option (PrefixKey × Route)) (rib : LocRib)
    → IsU32 addr
    → All (λ e. IsUsualKey e.0) rib
    → (c : Option (PrefixKey × Route)) × (match_from build addr best rib ≡ some c)
      × IsFound addr best rib c
match_from-IsFound build addr best [] u h =
    (best, match_from_nil build addr best, nothing_left addr best)
match_from-IsFound build addr best (e ∷ rib) u h =
    let step = match_from_step build addr best e rib (covers_addr_lem build addr e.0 u h.0) in
    elim (Bool-cases (within addr e.0)) [
      | inl x ↦
          let (c, r, f) = match_from-IsFound build addr (some (longer best e)) rib u h.1 in
          (
            c,
            step
                ∙ ap (λ b. match_from build addr (if b then some (longer best e) else best) rib) x
                ∙ r,
            IsFound-take addr best e rib c ((==_iff _ _).0 x) f,
          )
      | inr x ↦
          let (c, r, f) = match_from-IsFound build addr best rib u h.1 in
          (
            c,
            step
                ∙ ap (λ b. match_from build addr (if b then some (longer best e) else best) rib) x
                ∙ r,
            IsFound-pass addr best e rib c (ground (arith, x)) f,
          )
    ]

module _ {Table : Type 0} where
  -- For an address of 32 bits and prefixes of at most 32 bits, longest_match panics in no build, and it
  -- finds no route exactly if no prefix of the Loc-RIB has the address in it; or else an entry of the
  -- Loc-RIB that has, and of those one with the longest prefix.
  pub longest_match-IsFound :
      (build : Build) (rib : Rib Table) (addr : ℕ)
      → IsU32 addr
      → All (λ e. IsUsualKey e.0) rib.loc_rib
      → (c : Option (PrefixKey × Route)) × (longest_match build rib addr ≡ some c)
        × IsFound addr none rib.loc_rib c
  unfolding longest_match
  longest_match-IsFound build rib addr u h = match_from-IsFound build addr none rib.loc_rib u h
