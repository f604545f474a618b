-- ===== src/Rpki/Origin.antt =====
-- RpkiValidator::validate of src/rpki.rs: what makes a route valid, invalid or not found.
use native.Mathlib.Nat.{one-le-pow, div-mul-le_self, mul-div_cancel}
use pathforge.Base.{
  if◌then◌else◌, sym, ap, ◌∙◌, ℕ, ◌-◌, ◌*◌, ◌/◌, ◌%◌, ◌^◌, ◌≤◌, ◌<◌, ◌≡◌, ◌≢◌, ◌↔◌, ◌⊎◌, inl, inr,
  refl, List, [], ◌∷◌, none, some, Bool, true, false, All, arith, IsU32, ltb, ◌==◌, ==_iff, Build,
  checked, wrapping, sub8, shr32, shl32, sub8_lem, shr32_lem, shl32_lem, Bool-cases, ◌||◌,
}
use pathforge.Rpki.{
  is_disabled, loose, strict, Roa, RovState, valid, invalid, not_found, RpkiMode, disabled,
  RpkiValidator, covers, covering, any_origin, judge, validate, network,
}

-- A ROA of the prefix lengths for which the shifts are in range.
pub record IsUsual (roa : Roa) : Type 0 where
  pub len_lo : 1 ≤ roa.prefix_len
  pub len_hi : roa.prefix_len ≤ 32
  pub prefix_u32 : IsU32 roa.prefix

-- The ROA stands for the route's address and length: the leading bits agree, and the length is
-- within the bounds.
abbrev pub Covers : Roa → ℕ → ℕ → Type 0
Covers roa addr len =
    (roa.prefix_len ≤ len)
    × (len ≤ roa.max_length)
    × (roa.prefix / 2 ^ (32 - roa.prefix_len) ≡ addr / 2 ^ (32 - roa.prefix_len))

-- A ROA in the table that covers the route and, with the second, names its origin.
abbrev pub IsCovered : List Roa → ℕ → ℕ → Type 0
IsCovered [] addr len = ⊥
IsCovered (roa ∷ roas) addr len = Covers roa addr len ⊎ IsCovered roas addr len

abbrev pub IsAuthorized : List Roa → ℕ → ℕ → ℕ → Type 0
IsAuthorized [] addr len origin_as = ⊥
IsAuthorized (roa ∷ roas) addr len origin_as =
    (Covers roa addr len × (roa.origin_as ≡ origin_as)) ⊎ IsAuthorized roas addr len origin_as

pow_pos : (s : ℕ) → 0 < 2 ^ s
pow_pos s = one-le-pow s 2 (omega arith)

network_lem :
    (build : Build) (a s : ℕ)
    → a < 4294967296
    → s < 32
    → network build a s ≡ some (a / 2 ^ s * 2 ^ s)
unfolding network
network_lem build a s u h =
    let e : (a / 2 ^ s * 2 ^ s) % 4294967296 ≡ a / 2 ^ s * 2 ^ s =
      omega (arith, div-mul-le_self a (2 ^ s)) in
    rw (shr32_lem build a s h) (rw (shl32_lem build (a / 2 ^ s) s h) (rw e refl))

scale-cancel : (x y d : ℕ) → 0 < d → x * d ≡ y * d → x ≡ y
scale-cancel x y d h e = sym (mul-div_cancel x h) ∙ ap (λ z. z / d) e ∙ mul-div_cancel y h

len_bounds : (len lo hi : ℕ) → (ltb len lo || ltb hi len) ≡ false → (lo ≤ len) × (len ≤ hi)
len_bounds len lo hi h = ground (arith, h)

covers_iff :
    (build : Build) (roa : Roa) (addr len : ℕ)
    → IsUsual roa
    → IsU32 addr
    → (b : Bool) × (covers build roa addr len ≡ some b) × ((b ≡ true) ↔ Covers roa addr len)
unfolding covers sub8
covers_iff build roa addr len w u =
    elim (Bool-cases (ltb len roa.prefix_len || ltb roa.max_length len)) [
      | inl out ↦ (false, rw out refl, ground (arith, out))
      | inr within ↦
          let s : ℕ = 32 - roa.prefix_len in
          let h : s < 32 = omega (arith, w.len_lo, w.len_hi) in
          (
            roa.prefix / 2 ^ s * 2 ^ s == addr / 2 ^ s * 2 ^ s,
            rw within (
                rw (sub8_lem build 32 roa.prefix_len w.len_hi) (
                  rw (network_lem build roa.prefix s w.prefix_u32 h)
                    (rw (network_lem build addr s u h) refl))),
            (
              λ t.
                  let (lo, hi) = len_bounds len roa.prefix_len roa.max_length within in
                  (lo, hi, scale-cancel _ _ (2 ^ s) (pow_pos s) ((==_iff _ _).0 t)),
              λ (_, _, e). (==_iff _ _).1 (ap (λ z. z * 2 ^ s) e),
            ),
          )
    ]

-- What a list of ROAs that are kept says of the ROAs that were looked at.
abbrev Stands : List Roa → List Roa → ℕ → ℕ → Type 0
Stands found roas addr len =
    ((origin_as : ℕ) → (any_origin found origin_as ≡ true) ↔ IsAuthorized roas addr len origin_as)
    × ((found ≢ []) ↔ IsCovered roas addr len)

or_true : (a b : Bool) → ((a || b) ≡ true) ↔ ((a ≡ true) ⊎ (b ≡ true))
or_true true b = ((λ _. inl refl), λ _. refl)
or_true false b = ((λ e. inr e), λ s. elim s [ inl e ↦ absurd (cc) | inr e ↦ e ])

Stands-keep :
    (roa : Roa) (found roas : List Roa) (addr len : ℕ)
    → Covers roa addr len
    → Stands found roas addr len
    → Stands (roa ∷ found) (roa ∷ roas) addr len
unfolding any_origin
Stands-keep roa found roas addr len c (auth, empty) = (
  λ o. (
    λ t. elim ((or_true (roa.origin_as == o) (any_origin found o)).0 t) [
      | inl e ↦ inl (c, (==_iff _ _).0 e)
      | inr e ↦ inr ((auth o).0 e)
    ],
    λ s.
        (or_true (roa.origin_as == o) (any_origin found o)).1
          (elim s [ inl p ↦ inl ((==_iff _ _).1 p.1) | inr a ↦ inr ((auth o).1 a) ]),
  ),
  ((λ _. inl c), λ _ e. absurd (cc)),
)

Stands-skip :
    (roa : Roa) (found roas : List Roa) (addr len : ℕ)
    → (¬ Covers roa addr len)
    → Stands found roas addr len
    → Stands found (roa ∷ roas) addr len
Stands-skip roa found roas addr len c (auth, empty) = (
  λ o. (λ t. inr ((auth o).0 t), λ s. elim s [ inl p ↦ absurd (c p.0) | inr a ↦ (auth o).1 a ]),
  (λ n. inr (empty.0 n), λ s. elim s [ inl p ↦ absurd (c p) | inr p ↦ empty.1 p ]),
)

Stands-if :
    (hit : Bool) (roa : Roa) (found roas : List Roa) (addr len : ℕ)
    → ((hit ≡ true) ↔ Covers roa addr len)
    → Stands found roas addr len
    → Stands (if hit then roa ∷ found else found) (roa ∷ roas) addr len
Stands-if true roa found roas addr len iff st = Stands-keep roa found roas addr len (iff.0 refl) st
Stands-if false roa found roas addr len iff st =
    Stands-skip roa found roas addr len (λ c. absurd (cc (iff.1 c))) st

-- What the filter keeps, by what the table holds.
covering_lem :
    (build : Build) (roas : List Roa) (addr len : ℕ)
    → All IsUsual roas
    → IsU32 addr
    → (found : List Roa) × (covering build roas addr len ≡ some found) × Stands found roas addr len
unfolding covering any_origin
covering_lem build [] addr len w u = (
  [],
  refl,
  ((λ o. ((λ e. absurd (cc)), λ a. absurd a)), ((λ n. absurd (n refl)), λ a. absurd a)),
)
covering_lem build (roa ∷ roas) addr len w u =
    let (found, e, st) = covering_lem build roas addr len w.1 u in
    let (hit, eh, iff) = covers_iff build roa addr len w.0 u in
    (
      if hit then roa ∷ found else found,
      rw eh (rw e refl),
      Stands-if hit roa found roas addr len iff st,
    )

-- What the entries that cover a route make of it, where the mode asks. A route beyond the maximum
-- length of an entry is not covered by it.
abbrev pub IsVerdict : RpkiValidator → ℕ → ℕ → ℕ → RovState → Type 0
IsVerdict v addr len origin_as valid = (v.mode ≢ disabled) × IsAuthorized v.roas addr len origin_as
IsVerdict v addr len origin_as invalid =
    (v.mode ≢ disabled) × IsCovered v.roas addr len × (¬ IsAuthorized v.roas addr len origin_as)
IsVerdict v addr len origin_as not_found = (v.mode ≡ disabled) ⊎ (¬ IsCovered v.roas addr len)

judge-IsVerdict :
    (v : RpkiValidator) (addr len origin_as : ℕ) (found : List Roa)
    → v.mode ≢ disabled
    → Stands found v.roas addr len
    → IsVerdict v addr len origin_as (judge found origin_as)
unfolding judge
judge-IsVerdict v addr len o [] on (auth, empty) = inr (λ k. empty.1 k refl)
judge-IsVerdict v addr len o (roa ∷ roas) on (auth, empty) =
    elim (Bool-cases (any_origin (roa ∷ roas) o)) [
      | inl t ↦ rw t (on, (auth o).0 t)
      | inr f ↦ rw f (on, empty.0 (λ e. absurd (cc)), λ a. absurd (cc ((auth o).1 a)))
    ]

mode_cases : (m : RpkiMode) → (m ≡ disabled) ⊎ ((m ≢ disabled) × (is_disabled m ≡ false))
mode_cases disabled = inl refl
mode_cases loose = inr ((λ e. absurd (cc)), refl)
mode_cases strict = inr ((λ e. absurd (cc)), refl)

-- Where the address and every ROA's prefix have 32 bits, and every ROA a length from 1 to 32,
-- `validate` panics in no build, and it returns valid for a route that an entry covers and names the
-- origin of, invalid for one that entries cover and none of them names, and not found for one that no
-- entry covers, or if the mode is off. An entry covers a route if the leading bits agree and the
-- length is from the entry's to its maximum: a route beyond the maximum is not covered.
pub validate-IsVerdict :
    (build : Build) (v : RpkiValidator) (addr len origin_as : ℕ)
    → All IsUsual v.roas
    → IsU32 addr
    → (state : RovState) × (validate build v addr len origin_as ≡ some state)
      × IsVerdict v addr len origin_as state
unfolding validate
validate-IsVerdict build v addr len o w u = elim (mode_cases v.mode) [
  | inl off ↦ (not_found, rw off refl, inl off)
  | inr (on, shown) ↦
      let (found, e, st) = covering_lem build v.roas addr len w u in
      (judge found o, rw shown (rw e refl), judge-IsVerdict v addr len o found on st)
]

network_wrapped : (a : ℕ) → IsU32 a → network wrapping a 32 ≡ some a
unfolding network shr32 shl32
network_wrapped a h = ground arith

within_all : (len hi : ℕ) → len ≤ hi → (ltb len 0 || ltb hi len) ≡ false
within_all len hi h = ground arith

-- For a ROA of length 0 the shift is by 32: a debug build panics on every route within its bounds,
-- and a release build compares the addresses to the last bit.
pub covers_default :
    (roa : Roa) (addr len : ℕ)
    → roa.prefix_len ≡ 0
    → len ≤ roa.max_length
    → IsU32 roa.prefix
    → IsU32 addr
    → (covers checked roa addr len ≡ none)
      × (covers wrapping roa addr len ≡ some (roa.prefix == addr))
unfolding covers sub8
covers_default roa addr len z h p a =
    rw (z, within_all len roa.max_length h)
      (
        (unfold network shr32 in refl),
        rw (network_wrapped roa.prefix p, network_wrapped addr a) refl,
      )
