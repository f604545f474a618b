-- ===== src/Text/Digits.antt =====
-- A number that is printed is read back.
use pathforge.Base.{
  subst, ℕ, zero, suc, ◌+◌, ◌-◌, ◌*◌, ◌/◌, ◌%◌, ◌^◌, ◌≤◌, ◌<◌, ◌≡◌, refl, List, [], ◌∷◌, ◌++◌,
  Option, none, some, Bool, true, false, ◌&&◌, arith, leb, ◌==◌, All, All-append, and_then,
  if◌then◌else◌, ◌⊎◌, inl, inr, le→ltb, lt→ltb, ◌∙◌, ap, sym,
}
use pathforge.Policy.Text.{parse_digits, parse_uint, parse_octet}
use pathforge.Text.{show_digits, show_number}

-- Whether a character is one of `0` to `9`.
abbrev pub IsDigit : ℕ → Type 0
IsDigit c = (48 ≤ c) × (c ≤ 57)

-- What the next character does.
abbrev takes : ℕ → ℕ → ℕ → Bool
takes max acc c = leb 48 c && leb c 57 && leb (acc * 10 + (c - 48)) max

parse_digits_next :
    (max acc c : ℕ) (s : List ℕ)
    → parse_digits max acc (c ∷ s)
      ≡ (if takes max acc c then parse_digits max (acc * 10 + (c - 48)) s else none)
unfolding parse_digits
parse_digits_next max acc c s = refl

parse_digits_none : (max acc : ℕ) → parse_digits max acc [] ≡ some acc
unfolding parse_digits
parse_digits_none max acc = refl

pass_if :
    (test : Bool) (o : Option ℕ) (f : ℕ → Option ℕ)
    → and_then (if test then o else none) f ≡ (if test then and_then o f else none)
pass_if true o f = refl
pass_if false o f = refl

parse_digits-append :
    (max acc : ℕ) (s t : List ℕ)
    → parse_digits max acc (s ++ t) ≡ and_then (parse_digits max acc s) λ n. parse_digits max n t
parse_digits-append max acc [] t = rw (parse_digits_none max acc) refl
parse_digits-append max acc (c ∷ s) t =
    let n = acc * 10 + (c - 48) in
    parse_digits_next max acc c (s ++ t)
    ∙ ap (λ o. if takes max acc c then o else none) (parse_digits-append max n s t)
    ∙ sym (
        ap (λ o. and_then o λ m. parse_digits max m t) (parse_digits_next max acc c s)
        ∙ pass_if (takes max acc c) (parse_digits max n s) (λ m. parse_digits max m t))

takes_digit : (max acc d : ℕ) → d < 10 → acc * 10 + d ≤ max → takes max acc (48 + d) ≡ true
takes_digit max acc d h b = ground arith

parse_digits_one :
    (max acc d : ℕ)
    → d < 10
    → acc * 10 + d ≤ max
    → parse_digits max acc ((48 + d) ∷ []) ≡ some (acc * 10 + d)
parse_digits_one max acc d h b =
    parse_digits_next max acc (48 + d) []
    ∙ ap (λ test. if test then parse_digits max (acc * 10 + (48 + d - 48)) [] else none)
        (takes_digit max acc d h b)
    ∙ parse_digits_none max (acc * 10 + (48 + d - 48))
    ∙ ap some (omega arith)

show_digits_small : (fuel n : ℕ) → n < 10 → show_digits (suc fuel) n ≡ (48 + n) ∷ []
unfolding show_digits
show_digits_small fuel n h = rw (lt→ltb n 10 h) refl

show_digits_large :
    (fuel n : ℕ)
    → 10 ≤ n
    → show_digits (suc fuel) n ≡ show_digits fuel (n / 10) ++ ((48 + n % 10) ∷ [])
unfolding show_digits
show_digits_large fuel n h = rw (le→ltb n 10 h) refl

show_digits_base : (n : ℕ) → show_digits zero n ≡ []
unfolding show_digits
show_digits_base n = refl

show_digits_none : (n : ℕ) → All IsDigit (show_digits zero n)
unfolding show_digits
show_digits_none n = tt

below_or_not : (n m : ℕ) → (n < m) ⊎ (m ≤ n)
below_or_not n m = ground arith

-- A number of so many digits at most is read back, if the reader has room for it.
show_digits-back :
    (max fuel n : ℕ)
    → n < 10 ^ fuel
    → n ≤ max
    → parse_digits max 0 (show_digits (suc fuel) n) ≡ some n
show_digits-back max zero n h b =
    ap (parse_digits max 0) (show_digits_small zero n (omega arith))
    ∙ parse_digits_one max 0 n (omega arith) (omega arith)
    ∙ ap some (omega arith)
show_digits-back max (suc fuel) n h b = elim (below_or_not n 10) [
  | inl s ↦
      ap (parse_digits max 0) (show_digits_small (suc fuel) n s)
      ∙ parse_digits_one max 0 n s (omega arith)
      ∙ ap some (omega arith)
  | inr l ↦
      let shorter = show_digits-back max fuel (n / 10) (omega arith) (omega arith) in
      ap (parse_digits max 0) (show_digits_large (suc fuel) n l)
      ∙ parse_digits-append max 0 (show_digits (suc fuel) (n / 10)) ((48 + n % 10) ∷ [])
      ∙ ap (λ o. and_then o λ m. parse_digits max m ((48 + n % 10) ∷ [])) shorter
      ∙ parse_digits_one max (n / 10) (n % 10) (omega arith) (omega arith)
      ∙ ap some (omega arith)
]

All-show_digits : (fuel n : ℕ) → All IsDigit (show_digits fuel n)
All-show_digits zero n = show_digits_none n
All-show_digits (suc fuel) n = elim (below_or_not n 10) [
  | inl s ↦ rw (show_digits_small fuel n s) ((omega arith, omega arith), tt)
  | inr l ↦ rw (show_digits_large fuel n l) (
      All-append IsDigit (show_digits fuel (n / 10)) ((48 + n % 10) ∷ [])
        (All-show_digits fuel (n / 10)) ((omega arith, omega arith), tt))
]

-- There is a first digit.
show_digits_first : (fuel n : ℕ) → (c : ℕ) × (s : List ℕ) × (show_digits (suc fuel) n ≡ c ∷ s)
show_digits_first zero n = elim (below_or_not n 10) [
  | inl s ↦ (48 + n, [], show_digits_small zero n s)
  | inr l ↦ (
    48 + n % 10,
    [],
    show_digits_large zero n l ∙ ap (λ t. t ++ ((48 + n % 10) ∷ [])) (show_digits_base (n / 10)),
  )
]
show_digits_first (suc fuel) n = elim (below_or_not n 10) [
  | inl s ↦ (48 + n, [], show_digits_small (suc fuel) n s)
  | inr l ↦
      let (c, s, e) = show_digits_first fuel (n / 10) in
      (
        c,
        s ++ ((48 + n % 10) ∷ []),
        show_digits_large (suc fuel) n l ∙ ap (λ t. t ++ ((48 + n % 10) ∷ [])) e,
      )
]

pub show_number-All : (n : ℕ) → All IsDigit (show_number n)
unfolding show_number
show_number-All n = All-show_digits 20 n

pub show_number-first : (n : ℕ) → (c : ℕ) × (s : List ℕ) × (show_number n ≡ c ∷ s) × IsDigit c
unfolding show_number
show_number-first n =
    let (c, s, e) = show_digits_first 19 n in
    let digits : All IsDigit (c ∷ s) = subst (All IsDigit) e (All-show_digits 20 n) in
    (c, s, e, digits.0)

show_number-back :
    (max n : ℕ) → n < 10000000000000000000 → n ≤ max → parse_digits max 0 (show_number n) ≡ some n
unfolding show_number
show_number-back max n h b = show_digits-back max 19 n h b

-- `parse_uint` on the text of a number.
parse_uint_digits :
    (max c : ℕ) (s : List ℕ) → IsDigit c → parse_uint max (c ∷ s) ≡ parse_digits max 0 (c ∷ s)
parse_uint_digits max c s d = let sign : (c == 43) ≡ false = ground arith in rw sign refl

pub parse_uint-show_number :
    (max n : ℕ) → n < 10000000000000000000 → n ≤ max → parse_uint max (show_number n) ≡ some n
parse_uint-show_number max n h b =
    let (c, s, e, d) = show_number-first n in
    ap (parse_uint max) e
    ∙ parse_uint_digits max c s d
    ∙ ap (parse_digits max 0) (sym e)
    ∙ show_number-back max n h b

-- The numbers of an address: every one is run.
reads_as : Option ℕ → ℕ → Bool
reads_as none n = false
reads_as (some m) n = m == n

reads_as-eq : (o : Option ℕ) (n : ℕ) → reads_as o n ≡ true → o ≡ some n
unfolding reads_as
reads_as-eq none n h = absurd (ground arith)
reads_as-eq (some m) n h = ap some (ground arith)

octet_back : ℕ → Bool
octet_back n = reads_as (parse_octet (show_number n)) n

octets_back : ℕ → Bool
octets_back zero = true
octets_back (suc n) = octet_back n && octets_back n

octets_back-at : (bound n : ℕ) → octets_back bound ≡ true → n < bound → octet_back n ≡ true
unfolding octets_back
octets_back-at zero n h below = absurd (omega arith)
octets_back-at (suc bound) n h below = ground (arith, octets_back-at bound n)

octets_back_all : octets_back 256 ≡ true
unfolding octets_back octet_back reads_as show_number show_digits parse_digits
octets_back_all = refl

pub parse_octet-show_number : (n : ℕ) → n < 256 → parse_octet (show_number n) ≡ some n
unfolding octet_back
parse_octet-show_number n h =
    reads_as-eq (parse_octet (show_number n)) n (octets_back-at 256 n octets_back_all h)
