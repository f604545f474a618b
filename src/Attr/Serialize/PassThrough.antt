-- ===== src/Attr/Serialize/PassThrough.antt =====
-- Raw attributes that the parser takes and the writer gives back wrongly: write_attr leaves the
-- flags as they came, and with them an extended-length flag that no longer fits the length field.
use pathforge.Base.{ℕ, suc, ◌≤◌, ◌≡◌, ◌≢◌, List, [], ◌∷◌, err, arith, length, bit_and}
use pathforge.Bytes.{BytesCrate, IsDocumented, listed, for_documented}
use pathforge.Attr.{PathAttributes, too_short, RawAttribute, no_attributes, flag_extended_len}
use pathforge.Attr.Parse
use pathforge.Attr.Parse.{parse_attributes, read_attribute, read_length}
use pathforge.Attr.Serialize
use pathforge.Attr.Serialize.{write_attr, put_unknown}

-- Nothing but one raw attribute.
abbrev pub only : RawAttribute → PathAttributes
only raw = record no_attributes { unknown = raw ∷ [] }

abbrev short_chunk : RawAttribute → List ℕ
short_chunk raw = raw.flags ∷ raw.type_code ∷ length raw.value ∷ raw.value

serialize-only :
    (raw : RawAttribute)
    → length raw.value ≤ 255
    → Serialize.serialize listed (only raw) ≡ short_chunk raw
unfolding Serialize.serialize put_unknown write_attr Serialize.put_origin Serialize.put_as_path
    Serialize.put_optional_u32 Serialize.put_atomic_aggregate Serialize.put_aggregator
    Serialize.put_list
serialize-only raw h = ground arith

read_attribute-short :
    (f c : ℕ) (value : List ℕ)
    → bit_and f flag_extended_len ≢ 0
    → read_attribute listed (f ∷ c ∷ length value ∷ value) ≡ err too_short
unfolding read_attribute read_length
read_attribute-short f c [] h = ground arith
read_attribute-short f c (v ∷ vs) h = ground arith

parse_attributes-short :
    (a : PathAttributes) (fuel : ℕ) (x y z : ℕ) (s : List ℕ)
    → read_attribute listed (x ∷ y ∷ z ∷ s) ≡ err too_short
    → parse_attributes listed (suc fuel) a (x ∷ y ∷ z ∷ s) ≡ err too_short
unfolding parse_attributes
parse_attributes-short a fuel x y z s h = ground (arith, h)

listed_refused :
    (raw : RawAttribute)
    → bit_and raw.flags flag_extended_len ≢ 0
    → length raw.value ≤ 255
    → Parse.parse listed (Serialize.serialize listed (only raw)) ≡ err too_short
unfolding Parse.parse
listed_refused raw h short = rw (serialize-only raw short) (
    parse_attributes-short no_attributes _ _ _ _ raw.value
      (read_attribute-short raw.flags raw.type_code raw.value h))

-- A raw attribute with the extended-length flag set and a value of at most 255 bytes is written so
-- that the parser refuses the whole as too short.
pub pass_through_refused :
    (o : BytesCrate)
    → IsDocumented o
    → (raw : RawAttribute) → bit_and raw.flags flag_extended_len ≢ 0
    → length raw.value ≤ 255
    → Parse.parse o (Serialize.serialize o (only raw)) ≡ err too_short
pass_through_refused o d raw h short =
    for_documented (λ c. Parse.parse c (Serialize.serialize c (only raw)) ≡ err too_short) o d
      (listed_refused raw h short)
