-- ===== src/Attr/Serialize/Chunk.antt =====
-- One attribute as write_attr puts it and as the loop of PathAttributes::parse takes it off again.
use mathlib.Core.List.{append_assoc}
use pathforge.Base.{
  ◌+◌, zero, suc, le→ltb, ℕ, ◌≤◌, ◌<◌, ◌≡◌, refl, List, [], ◌∷◌, ◌++◌, ok, arith, length,
  length-append, ltb, Bool-cases, inl, inr, bit_and, bit_or, bit_or_sets, u8, u16, bytes16,
  if◌then◌else◌,
}
use pathforge.Bytes.{listed}
use pathforge.Bytes.Listed
use pathforge.Attr.{AttrError, Outcome, RawAttribute, PathAttributes, flag_extended_len}
use pathforge.Attr.Parse.{set_attribute, parse_attributes, read_length, read_attribute}
use pathforge.Attr.Serialize.{write_attr}
use pathforge.Attr.Serialize.Encode.{Writes}

-- The flags as they are written: a value of more than 255 bytes sets the extended-length flag.
abbrev pub wire_flags : ℕ → List ℕ → ℕ
wire_flags flags value = if ltb 255 (length value) then bit_or flags flag_extended_len else flags

abbrev pub wire_length : List ℕ → List ℕ
wire_length value = if ltb 255 (length value) then bytes16 (length value) else length value ∷ []

abbrev pub chunk : ℕ → ℕ → List ℕ → List ℕ
chunk flags type_code value = wire_flags flags value ∷ type_code ∷ (wire_length value ++ value)

pub write_attr-Writes :
    (flags type_code : ℕ) (value : List ℕ)
    → length value < 65536
    → Writes (λ buf. write_attr listed buf flags type_code value) (chunk flags type_code value)
unfolding write_attr
write_attr-Writes flags type_code value h buf = elim (Bool-cases (ltb 255 (length value))) [
  | inl long ↦
      let e : u16 (length value) ≡ length value = omega arith in rw long (rw e (simp append_assoc))
  | inr short ↦
      let e : u8 (length value) ≡ length value = ground arith in rw short (rw e (simp append_assoc))
]

-- A flags byte that a short value may stand under.
abbrev pub IsPlain : ℕ → Type 0
IsPlain flags = (flags < 256) × (bit_and flags flag_extended_len ≡ 0)

read_attribute-chunk :
    (flags type_code : ℕ) (value rest : List ℕ)
    → flags < 256
    → (length value ≤ 255 → bit_and flags flag_extended_len ≡ 0)
    → length value < 65536
    → read_attribute listed (chunk flags type_code value ++ rest)
      ≡ ok (record { flags = wire_flags flags value; type_code = type_code; value = value }, rest)
unfolding read_attribute read_length
read_attribute-chunk flags type_code value rest hf plain h =
    elim (Bool-cases (ltb 255 (length value))) [
      | inl long ↦ rw long (
          ground (
            arith,
            bit_or_sets flags hf,
            Listed.copy_to_bytes_front value rest (length value) refl,
            length-append value rest,
          ))
      | inr short ↦ rw short (
          ground (
            arith,
            plain (ground arith),
            Listed.copy_to_bytes_front value rest (length value) refl,
            length-append value rest,
          ))
    ]

-- With any fuel that covers the buffer, the loop ends in `r`.
abbrev pub Parses : PathAttributes → List ℕ → Outcome AttrError PathAttributes → Type 0
Parses a buf r = (fuel : ℕ) → length buf ≤ fuel → parse_attributes listed fuel a buf ≡ r

pub Parses-nil : (a : PathAttributes) → Parses a [] (ok a)
unfolding parse_attributes
Parses-nil a zero h = refl
Parses-nil a (suc fuel) h = refl

parse_attributes-step :
    (fuel : ℕ) (a b : PathAttributes) (buf rest : List ℕ) (raw : RawAttribute)
    (r : Outcome AttrError PathAttributes)
    → 3 ≤ length buf
    → read_attribute listed buf ≡ ok (raw, rest)
    → set_attribute listed a raw ≡ ok b
    → parse_attributes listed fuel b rest ≡ r
    → parse_attributes listed (suc fuel) a buf ≡ r
unfolding parse_attributes
parse_attributes-step fuel a b buf rest raw r h er es ep =
    rw (le→ltb (length buf) 3 h) (rw er (rw es ep))

length-chunk :
    (flags type_code : ℕ) (value rest : List ℕ)
    → length rest + 3 ≤ length (chunk flags type_code value ++ rest)
length-chunk flags type_code value rest = elim (Bool-cases (ltb 255 (length value))) [
  | inl long ↦ rw long (omega (arith, length-append value rest))
  | inr short ↦ rw short (omega (arith, length-append value rest))
]

-- A round of the loop on one attribute.
pub Parses-chunk :
    (a b : PathAttributes) (flags type_code : ℕ) (value rest : List ℕ)
    (r : Outcome AttrError PathAttributes)
    → flags < 256
    → (length value ≤ 255 → bit_and flags flag_extended_len ≡ 0)
    → length value < 65536
    → set_attribute listed a
        (record { flags = wire_flags flags value; type_code = type_code; value = value })
      ≡ ok b
    → Parses b rest r
    → Parses a (chunk flags type_code value ++ rest) r
Parses-chunk a b flags type_code value rest r hf plain h es ep zero k =
    absurd (omega (arith, length-chunk flags type_code value rest))
Parses-chunk a b flags type_code value rest r hf plain h es ep (suc fuel) k =
    parse_attributes-step fuel a b _ rest _ r
      (omega (arith, length-chunk flags type_code value rest))
      (read_attribute-chunk flags type_code value rest hf plain h) es
      (ep fuel (omega (arith, length-chunk flags type_code value rest)))
