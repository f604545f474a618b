-- ===== src/Message/Prefix/Wire.antt =====
-- Prefix::parse and ::serialize against each other, and the loops over them.
use mathlib.Core.List.{append_assoc, append-nil}
use pathforge.Base.{
  false, ℕ, zero, suc, ◌%◌, ◌≤◌, ◌<◌, ◌≡◌, refl, ◌∙◌, sym, ap, List, [], ◌∷◌, ◌++◌, none, some, ok,
  arith, length, length-append, take, drop, All, IsU32, ltb, le→ltb, Bool-cases, inl, inr, Returns,
  Returns-bind, Returns-if, ComesBack, bytes32,
}
use pathforge.Bytes.{BytesCrate, IsDocumented, listed, for_documented}
use pathforge.Message.{MessageError}
use pathforge.Message.Prefix
use pathforge.Message.Prefix.{
  Prefix, octets_for, encoded_len, address_from, fill_array, parse_all, serialize_all,
}

-- The octets behind the first `n` of four, as a number of values.
abbrev pub behind : ℕ → ℕ
behind zero = 4294967296
behind (suc zero) = 16777216
behind (suc (suc zero)) = 65536
behind (suc (suc (suc zero))) = 256
behind _ = 1

-- A prefix of IPv4 whose address has nothing behind the octets that are sent.
pub record IsSendable (p : Prefix) : Type 0 where
  pub len_fits : p.prefix_len ≤ 32
  pub address_fits : IsU32 p.address
  pub trimmed : p.address % behind (octets_for p.prefix_len) ≡ 0

-- The bytes of one prefix and of several.
abbrev pub encode : Prefix → List ℕ
encode p = p.prefix_len ∷ take (octets_for p.prefix_len) (bytes32 p.address)

abbrev pub encode_all : List Prefix → List ℕ
encode_all [] = []
encode_all (p ∷ ps) = encode p ++ encode_all ps

fill_array-take :
    (E : Type 0) (n a : ℕ) (rest : List ℕ)
    → n ≤ 4
    → a < 4294967296
    → a % behind n ≡ 0
    → (bs : List ℕ) × (fill_array listed {E = E} 4 n (take n (bytes32 a) ++ rest) ≡ ok (bs, rest))
      × (address_from bs ≡ a)
unfolding fill_array
fill_array-take E zero a rest h u t = (_, refl, omega arith)
fill_array-take E (suc zero) a rest h u t = (_, refl, omega arith)
fill_array-take E (suc (suc zero)) a rest h u t = (_, refl, omega arith)
fill_array-take E (suc (suc (suc zero))) a rest h u t = (_, refl, omega arith)
fill_array-take E (suc (suc (suc (suc zero)))) a rest h u t = (_, refl, omega arith)
fill_array-take E (suc (suc (suc (suc (suc n))))) a rest h u t = absurd (omega arith)

length-take_bytes : (n a : ℕ) → n ≤ 4 → length (take n (bytes32 a)) ≡ n
length-take_bytes zero a h = refl
length-take_bytes (suc zero) a h = refl
length-take_bytes (suc (suc zero)) a h = refl
length-take_bytes (suc (suc (suc zero))) a h = refl
length-take_bytes (suc (suc (suc (suc zero)))) a h = refl
length-take_bytes (suc (suc (suc (suc (suc n))))) a h = absurd (omega arith)

pub listed-parse :
    (p : Prefix) (rest : List ℕ)
    → IsSendable p
    → Prefix.parse listed (encode p ++ rest) ≡ ok (p, rest)
unfolding Prefix.parse
listed-parse p rest w =
    let n : ℕ = octets_for p.prefix_len in
    let h : n ≤ 4 = omega (arith, w.len_fits) in
    let (bs, e, a) = fill_array-take MessageError n p.address rest h w.address_fits w.trimmed in
    let l : ltb (length (take n (bytes32 p.address) ++ rest)) n ≡ false = le→ltb _ _ (
      omega (
        arith,
        length-append (take n (bytes32 p.address)) rest,
        length-take_bytes n p.address h,
      )) in
    rw l (rw e (rw a (ground arith)))

serialize_lem :
    (p : Prefix) (buf : List ℕ)
    → p.prefix_len ≤ 32
    → Prefix.serialize listed p buf ≡ some (buf ++ encode p)
unfolding Prefix.serialize encoded_len
serialize_lem p buf h =
    let l : ltb 4 (octets_for p.prefix_len) ≡ false = le→ltb _ _ (omega arith) in
    rw l (
      ap some
        (append_assoc buf (p.prefix_len ∷ []) (take (octets_for p.prefix_len) (bytes32 p.address))))

serialize_all-step :
    (p : Prefix) (ps : List Prefix) (buf b : List ℕ)
    → Prefix.serialize listed p buf ≡ some b
    → serialize_all listed (p ∷ ps) buf ≡ serialize_all listed ps b
unfolding serialize_all
serialize_all-step p ps buf b e =
    ap (λ r. elim r [ none ↦ none | some c ↦ serialize_all listed ps c ]) e

pub serialize_all_lem :
    (ps : List Prefix) (buf : List ℕ)
    → All IsSendable ps
    → serialize_all listed ps buf ≡ some (buf ++ encode_all ps)
unfolding serialize_all
serialize_all_lem [] buf w = ap some (sym (append-nil buf))
serialize_all_lem (p ∷ ps) buf w =
    serialize_all-step p ps buf _ (serialize_lem p buf w.0.len_fits)
    ∙ serialize_all_lem ps (buf ++ encode p) w.1
    ∙ ap some (append_assoc buf (encode p) (encode_all ps))

parse_all-step :
    (fuel b : ℕ) (s rest : List ℕ) (p : Prefix) (ps : List Prefix)
    → Prefix.parse listed (b ∷ s) ≡ ok (p, rest)
    → parse_all listed fuel rest ≡ ok ps
    → parse_all listed (suc fuel) (b ∷ s) ≡ ok (p ∷ ps)
unfolding parse_all
parse_all-step fuel b s rest p ps e h = ground (arith, e, h)

pub parse_all-encode :
    (fuel : ℕ) (ps : List Prefix)
    → All IsSendable ps
    → length (encode_all ps) ≤ fuel
    → parse_all listed fuel (encode_all ps) ≡ ok ps
unfolding parse_all
parse_all-encode zero [] w h = refl
parse_all-encode (suc fuel) [] w h = refl
parse_all-encode zero (p ∷ ps) w h = absurd (omega arith)
parse_all-encode (suc fuel) (p ∷ ps) w h =
    parse_all-step fuel p.prefix_len
      (take (octets_for p.prefix_len) (bytes32 p.address) ++ encode_all ps) (encode_all ps) p ps
      (listed-parse p (encode_all ps) w.0)
      (parse_all-encode fuel ps w.1 (
        omega (
          arith,
          length-append (take (octets_for p.prefix_len) (bytes32 p.address)) (encode_all ps),
        )))

-- However many octets the length asks for, four are read at most.
pub fill_array-Returns :
    (E : Type 0) (slots n : ℕ) (buf : List ℕ)
    → n ≤ length buf
    → Returns (λ r. length r.1 ≤ length buf) (fill_array listed {E = E} slots n buf)
unfolding fill_array
fill_array-Returns E zero n buf h = omega arith
fill_array-Returns E (suc slots) zero buf h = omega arith
fill_array-Returns E (suc slots) (suc n) [] h = absurd (omega arith)
fill_array-Returns E (suc slots) (suc n) (b ∷ s) h =
    Returns-bind (λ r. length r.1 ≤ length s) _ _ _ (fill_array-Returns E slots n s (omega arith))
      λ r p. omega arith

parse-Returns : (buf : List ℕ) → Returns (λ r. length r.1 < length buf) (Prefix.parse listed buf)
unfolding Prefix.parse
parse-Returns [] = tt
parse-Returns (n ∷ s) =
    rw (le→ltb (length (n ∷ s)) 1 (omega arith))
      (elim (Bool-cases (ltb (length s) (octets_for n))) [
        | inl short ↦ rw short tt
        | inr fits ↦ rw fits (
            Returns-bind (λ r. length r.1 ≤ length s) _ _ _
              (fill_array-Returns MessageError 4 (octets_for n) s (ground arith))
              λ r p. omega arith)
      ])

pub parse_all-Returns :
    (fuel : ℕ) (buf : List ℕ) → length buf ≤ fuel → ComesBack (parse_all listed fuel buf)
unfolding parse_all
parse_all-Returns zero [] h = tt
parse_all-Returns zero (b ∷ s) h = absurd (omega arith)
parse_all-Returns (suc fuel) buf h =
    Returns-if _ (ltb 0 (length buf)) _ _
      (λ _.
        Returns-bind (λ r. length r.1 < length buf) _ _ _ (parse-Returns buf)
          λ (p, rest) l.
            Returns-bind (λ _. Unit {0}) _ _ _ (parse_all-Returns fuel rest (omega arith))
              λ _ _. tt)
      λ _. tt

fill_array_over :
    (E : Type 0) (n : ℕ) (s : List ℕ)
    → 4 < n
    → n ≤ length s
    → (bs : List ℕ) × (fill_array listed {E = E} 4 n s ≡ ok (bs, drop 4 s))
unfolding fill_array
fill_array_over E (suc (suc (suc (suc n)))) (a ∷ b ∷ c ∷ d ∷ s) h k = (a ∷ b ∷ c ∷ d ∷ [], refl)
fill_array_over E _ _ h k = absurd (omega arith)

listed_over_long :
    (n : ℕ) (s : List ℕ)
    → 32 < n
    → octets_for n ≤ length s
    → (p : Prefix) × (Prefix.parse listed (n ∷ s) ≡ ok (p, drop 4 s))
      × (Prefix.serialize listed p [] ≡ none)
unfolding Prefix.parse Prefix.serialize encoded_len
listed_over_long n s h k =
    let (bs, e) = fill_array_over MessageError (octets_for n) s (omega arith) k in
    let l : ltb (length s) (octets_for n) ≡ false = le→ltb _ _ k in
    (record { prefix_len = n; address = address_from bs }, ground (arith, l, e), ground arith)

-- A length above 32 is taken if the octets that it asks for are there, four of them are read and
-- the others stand for the next prefix, and to serialize what was parsed panics.
pub over_long_taken :
    (o : BytesCrate)
    → IsDocumented o
    → (n : ℕ) (s : List ℕ) → 32 < n
    → octets_for n ≤ length s
    → (p : Prefix) × (Prefix.parse o (n ∷ s) ≡ ok (p, drop 4 s)) × (Prefix.serialize o p [] ≡ none)
over_long_taken o d n s h k =
    for_documented
      (λ c.
        (p : Prefix) × (Prefix.parse c (n ∷ s) ≡ ok (p, drop 4 s))
        × (Prefix.serialize c p [] ≡ none))
      o d (listed_over_long n s h k)
