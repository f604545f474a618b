-- ===== src/Mp/Prefix/Wire.antt =====
-- MpPrefix::parse and ::serialize against each other, and the loops over them.
use mathlib.Core.List.{append_assoc, append-nil}
use pathforge.Base.{
  ℕ, zero, suc, ◌-◌, ◌≤◌, ◌<◌, ◌≡◌, refl, ◌∙◌, sym, ap, List, [], ◌∷◌, ◌++◌, some, ok, arith,
  length, length-append, length-take, take, replicate, All, false, ltb, le→ltb, Bool-cases, inl,
  inr, Returns, Returns-bind, Returns-if, ComesBack,
}
use pathforge.Bytes.{listed}
use pathforge.Message.Prefix.{octets_for, fill_array}
use pathforge.Message.Prefix.Wire.{fill_array-Returns}
use native.Mathlib.Numerals.{unary_clauses}
use pathforge.Mp.{MpError, Afi, octets}
use pathforge.Mp.Prefix
use pathforge.Mp.Prefix.{MpPrefix, slots, address_of, encoded_len, parse_all, serialize_all}

-- A prefix of one family: the address is of the family, the length is no longer than it, and what
-- stands behind the octets that are sent is zero.
pub record IsSendable (afi : Afi) (p : MpPrefix) : Type 0 where
  pub afi_eq : p.afi ≡ afi
  pub of_family : p.address ≡ address_of afi (octets p.address)
  pub octets_len : length (octets p.address) ≡ slots afi
  pub len_fits : octets_for p.prefix_len ≤ slots afi
  pub trimmed :
      take (octets_for p.prefix_len) (octets p.address)
        ++ replicate (slots afi - octets_for p.prefix_len) 0
      ≡ octets p.address

abbrev pub encode : MpPrefix → List ℕ
encode p = p.prefix_len ∷ take (octets_for p.prefix_len) (octets p.address)

abbrev pub encode_all : List MpPrefix → List ℕ
encode_all [] = []
encode_all (p ∷ ps) = encode p ++ encode_all ps

fill-take :
    (E : Type 0) (k n : ℕ) (a rest : List ℕ)
    → length a ≡ k
    → n ≤ k
    → fill_array listed {E = E} k n (take n a ++ rest) ≡ ok (take n a ++ replicate (k - n) 0, rest)
unfolding fill_array
fill-take E zero zero a rest l h = refl
fill-take E zero (suc n) a rest l h = absurd (omega arith)
fill-take E (suc k) zero a rest l h = simp unary_clauses refl
fill-take E (suc k) (suc n) [] rest l h = absurd (omega arith)
fill-take E (suc k) (suc n) (x ∷ a) rest l h =
    let e : suc k - suc n ≡ k - n = omega arith in
    rw (e, fill-take E k n a rest (omega arith) (omega arith)) refl

pub parse-encode :
    (afi : Afi) (p : MpPrefix) (rest : List ℕ)
    → IsSendable afi p
    → Prefix.parse listed afi (encode p ++ rest) ≡ ok (p, rest)
unfolding Prefix.parse
parse-encode afi p rest w =
    let n : ℕ = octets_for p.prefix_len in
    let sent : List ℕ = take n (octets p.address) in
    let l : ltb (length (sent ++ rest)) n ≡ false = le→ltb _ _ (
      omega (
        arith,
        length-append sent rest,
        length-take n (octets p.address),
        w.octets_len,
        w.len_fits,
      )) in
    let e = fill-take MpError (slots afi) n (octets p.address) rest w.octets_len w.len_fits in
    rw l (
      rw e (
        rw (w.trimmed, ← w.of_family)
          (rw (le→ltb (length (encode p ++ rest)) 1 (omega arith), ← w.afi_eq) refl)))

serialize_lem :
    (afi : Afi) (p : MpPrefix) (buf : List ℕ)
    → IsSendable afi p
    → Prefix.serialize listed p buf ≡ some (buf ++ encode p)
unfolding Prefix.serialize encoded_len
serialize_lem afi p buf w =
    let l : ltb (length (octets p.address)) (octets_for p.prefix_len) ≡ false =
      le→ltb _ _ (omega (arith, w.octets_len, w.len_fits)) in
    rw l (
      ap some
        (append_assoc buf (p.prefix_len ∷ []) (take (octets_for p.prefix_len) (octets p.address))))

pub serialize_all_lem :
    (afi : Afi) (ps : List MpPrefix) (buf : List ℕ)
    → All (IsSendable afi) ps
    → serialize_all listed ps buf ≡ some (buf ++ encode_all ps)
unfolding serialize_all
serialize_all_lem afi [] buf w = ap some (sym (append-nil buf))
serialize_all_lem afi (p ∷ ps) buf w = rw (serialize_lem afi p buf w.0) (
    serialize_all_lem afi ps (buf ++ encode p) w.1
    ∙ ap some (append_assoc buf (encode p) (encode_all ps)))

parse_all-step :
    (afi : Afi) (fuel b : ℕ) (s rest : List ℕ) (p : MpPrefix) (ps : List MpPrefix)
    → Prefix.parse listed afi (b ∷ s) ≡ ok (p, rest)
    → parse_all listed afi fuel rest ≡ ok ps
    → parse_all listed afi (suc fuel) (b ∷ s) ≡ ok (p ∷ ps)
unfolding parse_all
parse_all-step afi fuel b s rest p ps e h = ground (arith, e, h)

pub parse_all-encode :
    (afi : Afi) (fuel : ℕ) (ps : List MpPrefix)
    → All (IsSendable afi) ps
    → length (encode_all ps) ≤ fuel
    → parse_all listed afi fuel (encode_all ps) ≡ ok ps
unfolding parse_all
parse_all-encode afi zero [] w h = refl
parse_all-encode afi (suc fuel) [] w h = refl
parse_all-encode afi zero (p ∷ ps) w h = absurd (omega arith)
parse_all-encode afi (suc fuel) (p ∷ ps) w h =
    let sent : List ℕ = take (octets_for p.prefix_len) (octets p.address) in
    parse_all-step afi fuel p.prefix_len (sent ++ encode_all ps) (encode_all ps) p ps
      (parse-encode afi p (encode_all ps) w.0)
      (parse_all-encode afi fuel ps w.1 (omega (arith, length-append sent (encode_all ps))))

parse-Returns :
    (afi : Afi) (buf : List ℕ)
    → Returns (λ r. length r.1 < length buf) (Prefix.parse listed afi buf)
unfolding Prefix.parse
parse-Returns afi [] = tt
parse-Returns afi (n ∷ s) =
    rw (le→ltb (length (n ∷ s)) 1 (omega arith))
      (elim (Bool-cases (ltb (length s) (octets_for n))) [
        | inl short ↦ rw short tt
        | inr fits ↦ rw fits (
            Returns-bind (λ r. length r.1 ≤ length s) _ _ _
              (fill_array-Returns MpError (slots afi) (octets_for n) s (ground arith))
              λ r p. omega arith)
      ])

-- The loop comes back on every buffer.
pub parse_all-Returns :
    (afi : Afi) (fuel : ℕ) (buf : List ℕ)
    → length buf ≤ fuel
    → ComesBack (parse_all listed afi fuel buf)
unfolding parse_all
parse_all-Returns afi zero [] h = tt
parse_all-Returns afi zero (b ∷ s) h = absurd (omega arith)
parse_all-Returns afi (suc fuel) buf h =
    Returns-if _ (ltb 0 (length buf)) _ _
      (λ _.
        Returns-bind (λ r. length r.1 < length buf) _ _ _ (parse-Returns afi buf)
          λ (p, rest) l.
            Returns-bind (λ _. Unit {0}) _ _ _ (parse_all-Returns afi fuel rest (omega arith))
              λ _ _. tt)
      λ _. tt
