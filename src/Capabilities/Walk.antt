-- ===== src/Capabilities/Walk.antt =====
-- The walk of Capability::parse_optional_params of src/capabilities.rs over its positions: it ends, and
-- it reads nothing behind the end of the data.
use pathforge.Base.{
  ℕ, zero, suc, ◌+◌, ◌-◌, ◌≤◌, ◌<◌, ◌≡◌, inl, inr, refl, List, [], ◌∷◌, ◌++◌, some, Bool, true,
  false, Outcome, ok, arith, length, min, leb, ltb, ◌==◌, Bool-cases, take, drop, if◌then◌else◌,
}
use pathforge.Capabilities.{
  Capability, byte_at, slice, parse_one, parse_caps, parse_from, parse_optional_params,
}

-- The loops have no error to return.
abbrev pub IsParsed : Outcome (Unit {0}) (List Capability) → Type 0
IsParsed r = (caps : List Capability) × (r ≡ ok caps)

byte_at-some : (s : List ℕ) (pos : ℕ) → pos < length s → (b : ℕ) × (byte_at s pos ≡ some b)
unfolding byte_at
byte_at-some [] pos h = absurd (omega arith)
byte_at-some (b ∷ s) zero h = (b, refl)
byte_at-some (b ∷ s) (suc pos) h = byte_at-some s pos (omega arith)

pub slice-some :
    (s : List ℕ) (from to : ℕ)
    → from ≤ to
    → to ≤ length s
    → slice s from to ≡ some (take (to - from) (drop from s))
unfolding slice
slice-some s from to h k = ground arith

-- No more capability: the loop ends, whatever fuel is left.
pub caps_end :
    (fuel : ℕ) (s : List ℕ) (end pos : ℕ)
    → leb (pos + 2) (min end (length s)) ≡ false
    → parse_caps fuel s end pos ≡ ok []
unfolding parse_caps
caps_end zero s end pos done = rw done refl
caps_end (suc fuel) s end pos done = rw done refl

-- One round that finds a capability whole.
pub caps_round :
    (fuel : ℕ) (s : List ℕ) (end pos c n : ℕ) (v : List ℕ) (rest : List Capability)
    → leb (pos + 2) (min end (length s)) ≡ true
    → byte_at s pos ≡ some c
    → byte_at s (pos + 1) ≡ some n
    → ltb (length s) (pos + 2 + n) ≡ false
    → slice s (pos + 2) (pos + 2 + n) ≡ some v
    → parse_caps fuel s end (pos + 2 + n) ≡ ok rest
    → parse_caps (suc fuel) s end pos ≡ ok (parse_one c v ∷ rest)
unfolding parse_caps
caps_round fuel s end pos c n v rest more ec en fits ev er = rw (more, ec, en, fits, ev, er) refl

parse_caps-IsParsed :
    (fuel : ℕ) (s : List ℕ) (end pos : ℕ)
    → length s ≤ fuel + pos
    → IsParsed (parse_caps fuel s end pos)
unfolding parse_caps
parse_caps-IsParsed zero s end pos h = ([], ground arith)
parse_caps-IsParsed (suc fuel) s end pos h =
    elim (Bool-cases (leb (pos + 2) (min end (length s)))) [
      | inr done ↦ ([], rw done refl)
      | inl more ↦
          let (c, ec) = byte_at-some s pos (ground arith) in
          let (n, en) = byte_at-some s (pos + 1) (ground arith) in
          elim (Bool-cases (ltb (length s) (pos + 2 + n))) [
            | inl past ↦ ([], rw (more, ec, en, past) refl)
            | inr fits ↦
                let (rest, er) = parse_caps-IsParsed fuel s end (pos + 2 + n) (omega arith) in
                (
                  parse_one c (take (pos + 2 + n - (pos + 2)) (drop (pos + 2) s)) ∷ rest,
                  rw
                      (
                        more,
                        ec,
                        en,
                        fits,
                        slice-some s (pos + 2) (pos + 2 + n) (omega arith) (ground arith),
                        er,
                      )
                      refl,
                )
          ]
    ]

pub from_end :
    (fuel : ℕ) (s : List ℕ) (pos : ℕ)
    → leb (pos + 2) (length s) ≡ false
    → parse_from fuel s pos ≡ ok []
unfolding parse_from
from_end zero s pos done = rw done refl
from_end (suc fuel) s pos done = rw done refl

-- One round at a parameter of type 2.
pub from_round :
    (fuel : ℕ) (s : List ℕ) (pos n : ℕ) (caps rest : List Capability)
    → leb (pos + 2) (length s) ≡ true
    → byte_at s pos ≡ some 2
    → byte_at s (pos + 1) ≡ some n
    → parse_caps (length s) s (pos + 2 + n) (pos + 2) ≡ ok caps
    → parse_from fuel s (pos + 2 + n) ≡ ok rest
    → parse_from (suc fuel) s pos ≡ ok (caps ++ rest)
unfolding parse_from
from_round fuel s pos n caps rest more et en ec er = rw (more, et, en, ec, er) refl

params-IsParsed :
    (b : Bool) (r : Outcome (Unit {0}) (List Capability))
    → IsParsed r
    → IsParsed (if b then r else ok [])
params-IsParsed true r h = h
params-IsParsed false r h = ([], refl)

parse_from-IsParsed :
    (fuel : ℕ) (s : List ℕ) (pos : ℕ) → length s ≤ fuel + pos → IsParsed (parse_from fuel s pos)
unfolding parse_from
parse_from-IsParsed zero s pos h = ([], ground arith)
parse_from-IsParsed (suc fuel) s pos h = elim (Bool-cases (leb (pos + 2) (length s))) [
  | inr done ↦ ([], rw done refl)
  | inl more ↦
      let (t, et) = byte_at-some s pos (ground arith) in
      let (n, en) = byte_at-some s (pos + 1) (ground arith) in
      let (caps, ep) =
        params-IsParsed (t == 2) (parse_caps (length s) s (pos + 2 + n) (pos + 2))
          (parse_caps-IsParsed (length s) s (pos + 2 + n) (pos + 2) (omega arith)) in
      let (rest, er) = parse_from-IsParsed fuel s (pos + 2 + n) (omega arith) in
      (caps ++ rest, rw (more, et, en, ep, er) refl)
]

-- On any bytes the parser comes back with a list of capabilities: both loops end, and no read or
-- range lies behind the end of the data.
pub parse_optional_params-IsParsed : (s : List ℕ) → IsParsed (parse_optional_params s)
unfolding parse_optional_params
parse_optional_params-IsParsed s = parse_from-IsParsed (length s) s 0 (omega arith)
