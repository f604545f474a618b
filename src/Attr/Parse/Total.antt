-- ===== src/Attr/Parse/Total.antt =====
-- PathAttributes::parse comes back on every buffer: no read runs past its end, and no loop runs out
-- of fuel.
use pathforge.Base.{
  Returns-if, ComesBack, ◌⊎◌, All, All-append, ℕ, zero, suc, ◌+◌, ◌*◌, ◌≤◌, ◌<◌, ◌≡◌, List, [], ◌∷◌,
  arith, length, ltb, le→ltb, Returns, Returns-bind, Bool-cases, inl, inr, length-drop, ◌==◌,
}
use pathforge.Bytes.{BytesCrate, IsDocumented, listed, for_documented}
use pathforge.Attr.{no_attributes, try_from, PathAttributes, RawAttribute}
use pathforge.Attr.Parse
use pathforge.Attr.Parse.{
  segment, first_byte, read_asns, read_segment, read_segments, read_u32s, read_u32, read_aggregator,
  set_attribute, read_length, read_attribute, parse_attributes,
}

read_asns-Returns :
    (n : ℕ) (buf : List ℕ)
    → n * 4 ≤ length buf
    → Returns (λ r. (length r.0 ≡ n) × (length r.1 + n * 4 ≡ length buf)) (read_asns listed n buf)
unfolding read_asns
read_asns-Returns zero buf h = omega arith
read_asns-Returns (suc n) [] h = absurd (omega arith)
read_asns-Returns (suc n) (a ∷ []) h = absurd (omega arith)
read_asns-Returns (suc n) (a ∷ b ∷ []) h = absurd (omega arith)
read_asns-Returns (suc n) (a ∷ b ∷ c ∷ []) h = absurd (omega arith)
read_asns-Returns (suc n) (a ∷ b ∷ c ∷ d ∷ s) h =
    Returns-bind (λ r. (length r.0 ≡ n) × (length r.1 + n * 4 ≡ length s)) _ _ _
      (read_asns-Returns n s (omega arith)) λ r p. omega arith

read_segment-Returns :
    (buf : List ℕ)
    → 2 ≤ length buf
    → Returns (λ r. length r.1 + 2 ≤ length buf) (read_segment listed buf)
unfolding read_segment
read_segment-Returns [] h = absurd (omega arith)
read_segment-Returns (a ∷ []) h = absurd (omega arith)
read_segment-Returns (a ∷ n ∷ s) h = elim (Bool-cases (ltb (length s) (n * 4))) [
  | inl short ↦ rw short tt
  | inr fits ↦ rw fits (
      Returns-bind (λ r. (length r.0 ≡ n) × (length r.1 + n * 4 ≡ length s)) _ _ _
        (read_asns-Returns n s (ground arith)) λ (asns, rest) p. unfold segment in ground arith)
]

read_segments-Returns :
    (fuel : ℕ) (buf : List ℕ) → length buf ≤ fuel → ComesBack (read_segments listed fuel buf)
unfolding read_segments
read_segments-Returns zero [] h = tt
read_segments-Returns zero (a ∷ s) h = absurd (omega arith)
read_segments-Returns (suc fuel) buf h =
    Returns-if _ (ltb (length buf) 2) _ _ (λ _. tt)
      λ more.
        Returns-bind (λ r. length r.1 + 2 ≤ length buf) _ _ _
          (read_segment-Returns buf (ground arith))
          λ (seg, rest) p.
            Returns-bind (λ _. Unit {0}) _ _ _ (read_segments-Returns fuel rest (omega arith))
              λ _ _. tt

read_u32s-Returns :
    (fuel : ℕ) (buf : List ℕ) → length buf ≤ fuel → ComesBack (read_u32s listed fuel buf)
unfolding read_u32s
read_u32s-Returns zero [] h = tt
read_u32s-Returns zero (a ∷ s) h = absurd (omega arith)
read_u32s-Returns (suc fuel) (a ∷ b ∷ c ∷ d ∷ s) h =
    rw (le→ltb (length (a ∷ b ∷ c ∷ d ∷ s)) 4 (omega arith))
      (Returns-bind (λ _. Unit {0}) _ _ _ (read_u32s-Returns fuel s (omega arith)) λ _ _. tt)
read_u32s-Returns (suc fuel) _ h = tt

read_u32-Returns : (value : List ℕ) → ComesBack (read_u32 listed value)
unfolding read_u32
read_u32-Returns (a ∷ b ∷ c ∷ d ∷ s) = rw (le→ltb (length (a ∷ b ∷ c ∷ d ∷ s)) 4 (omega arith)) tt
read_u32-Returns _ = tt

read_aggregator-Returns : (value : List ℕ) → ComesBack (read_aggregator listed value)
unfolding read_aggregator
read_aggregator-Returns (a ∷ b ∷ c ∷ d ∷ e ∷ f ∷ s) =
    rw (le→ltb (length (a ∷ b ∷ c ∷ d ∷ e ∷ f ∷ s)) 6 (omega arith)) tt
read_aggregator-Returns _ = tt

first_byte-Returns : (value : List ℕ) → ComesBack (first_byte value)
unfolding first_byte
first_byte-Returns [] = tt
first_byte-Returns (a ∷ s) = tt

try_from-Returns : (v : ℕ) → ComesBack (try_from v)
unfolding try_from
try_from-Returns v = ground arith

-- A code that PathAttributes has no field for.
abbrev pub IsUnknown : RawAttribute → Type 0
IsUnknown raw = (raw.type_code ≡ 0) ⊎ (10 < raw.type_code)

-- The attributes passed through raw are those that have no field.
abbrev pub KeepsUnknown : PathAttributes → Type 0
KeepsUnknown a = All IsUnknown a.unknown

set_attribute-Returns :
    (a : PathAttributes) (raw : RawAttribute)
    → KeepsUnknown a
    → Returns KeepsUnknown (set_attribute listed a raw)
unfolding set_attribute
set_attribute-Returns a raw k =
    Returns-if _ (raw.type_code == 1) _ _
      (λ _.
        Returns-bind (λ _. Unit {0}) _ _ _ (first_byte-Returns raw.value)
          λ b _. Returns-bind (λ _. Unit {0}) _ _ _ (try_from-Returns b) λ _ _. k)
      λ n1.
        Returns-if _ (raw.type_code == 2) _ _
          (λ _.
            Returns-bind (λ _. Unit {0}) _ _ _
              (read_segments-Returns (length raw.value) raw.value (omega arith)) λ _ _. k)
          λ n2.
            Returns-if _ (raw.type_code == 3) _ _
              (λ _. Returns-bind (λ _. Unit {0}) _ _ _ (read_u32-Returns raw.value) λ _ _. k)
              λ n3.
                Returns-if _ (raw.type_code == 4) _ _
                  (λ _. Returns-bind (λ _. Unit {0}) _ _ _ (read_u32-Returns raw.value) λ _ _. k)
                  λ n4.
                    Returns-if _ (raw.type_code == 5) _ _
                      (λ _.
                        Returns-bind (λ _. Unit {0}) _ _ _ (read_u32-Returns raw.value) λ _ _. k)
                      λ n5.
                        Returns-if _ (raw.type_code == 6) _ _ (λ _. k)
                          λ n6.
                            Returns-if _ (raw.type_code == 7) _ _
                              (λ _.
                                Returns-bind (λ _. Unit {0}) _ _ _
                                  (read_aggregator-Returns raw.value) λ _ _. k)
                              λ n7.
                                Returns-if _ (raw.type_code == 8) _ _
                                  (λ _.
                                    Returns-bind (λ _. Unit {0}) _ _ _
                                      (read_u32s-Returns (length raw.value) raw.value (omega arith))
                                      λ _ _. k)
                                  λ n8.
                                    Returns-if _ (raw.type_code == 9) _ _
                                      (λ _.
                                        Returns-bind (λ _. Unit {0}) _ _ _
                                          (read_u32-Returns raw.value) λ _ _. k)
                                      λ n9.
                                        Returns-if _ (raw.type_code == 10) _ _
                                          (λ _.
                                            Returns-bind (λ _. Unit {0}) _ _ _
                                              (read_u32s-Returns (length raw.value) raw.value
                                                (omega arith))
                                              λ _ _. k)
                                          λ n10.
                                            All-append IsUnknown a.unknown (raw ∷ []) k
                                              (ground arith, tt)

-- One attribute off the front: at least three bytes are gone.
read_length-Returns :
    (flags : ℕ) (buf : List ℕ)
    → Returns (λ r. length r.1 < length buf) (read_length listed flags buf)
unfolding read_length
read_length-Returns flags [] = ground arith
read_length-Returns flags (a ∷ []) = ground arith
read_length-Returns flags (a ∷ b ∷ s) = ground arith

read_attribute-Returns :
    (buf : List ℕ)
    → 3 ≤ length buf
    → Returns (λ r. length r.1 < length buf) (read_attribute listed buf)
unfolding read_attribute
read_attribute-Returns [] h = absurd (omega arith)
read_attribute-Returns (a ∷ []) h = absurd (omega arith)
read_attribute-Returns (a ∷ b ∷ s) h =
    Returns-bind (λ r. length r.1 < length s) _ _ _ (read_length-Returns a s)
      λ (n, t) p. elim (Bool-cases (ltb (length t) n)) [
        | inl short ↦ rw short tt
        | inr fits ↦ rw fits (omega (arith, length-drop n t))
      ]

parse_attributes-Returns :
    (fuel : ℕ) (a : PathAttributes) (buf : List ℕ)
    → length buf ≤ fuel
    → KeepsUnknown a
    → Returns KeepsUnknown (parse_attributes listed fuel a buf)
unfolding parse_attributes
parse_attributes-Returns zero a [] h k = k
parse_attributes-Returns zero a (b ∷ s) h k = absurd (omega arith)
parse_attributes-Returns (suc fuel) a buf h k =
    Returns-if _ (ltb (length buf) 3) _ _ (λ _. k)
      λ more.
        Returns-bind (λ r. length r.1 < length buf) _ _ _
          (read_attribute-Returns buf (ground arith))
          λ (raw, rest) p.
            Returns-bind KeepsUnknown _ _ _ (set_attribute-Returns a raw k)
              λ b kb. parse_attributes-Returns fuel b rest (omega arith) kb

pub listed-KeepsUnknown : (buf : List ℕ) → Returns KeepsUnknown (Parse.parse listed buf)
unfolding Parse.parse
listed-KeepsUnknown buf = parse_attributes-Returns (length buf) no_attributes buf (omega arith) tt

-- On every buffer the call comes back with an error or with attributes: it never panics, and its
-- loops end. What it passes through raw has code 0 or a code above 10.
pub parse-KeepsUnknown :
    (o : BytesCrate) → IsDocumented o → (buf : List ℕ) → Returns KeepsUnknown (Parse.parse o buf)
parse-KeepsUnknown o d buf =
    for_documented (λ c. Returns KeepsUnknown (Parse.parse c buf)) o d (listed-KeepsUnknown buf)
