-- ===== src/Attr/Serialize.antt =====
-- PathAttributes::serialize and ::write_attr of src/attr.rs. Each function writes one attribute
-- behind what the buffer holds.
pub mod Encode
pub mod Chunk
pub mod Fields
pub mod RoundTrip
pub mod PassThrough
use pathforge.Base.{
  ℕ, List, [], ◌∷◌, Option, none, some, Bool, true, false, length, ltb, if◌then◌else◌, bit_or, u8,
  u16, bytes32,
}
use pathforge.Bytes.{BytesCrate}
use pathforge.Attr.{
  Origin, origin_code, AsPathSegment, as_set, as_sequence, RawAttribute, PathAttributes,
  flag_optional, flag_transitive, flag_extended_len,
}

-- `FLAG_OPTIONAL | FLAG_TRANSITIVE`
abbrev pub optional_transitive : ℕ
optional_transitive = bit_or flag_optional flag_transitive

module _ (o : BytesCrate) where
  open o use {put_u8, put_u16, put_u32, put_slice}

  -- The length is cut to the width of its field.
  unfoldable pub write_attr : List ℕ → ℕ → ℕ → List ℕ → List ℕ
  write_attr buf flags type_code value =
      let len = length value in
      let head =
        if ltb 255 len
        then put_u16 (put_u8 (put_u8 buf (bit_or flags flag_extended_len)) type_code) (u16 len)
        else put_u8 (put_u8 (put_u8 buf flags) type_code) (u8 len) in
      put_slice head value

  unfoldable pub put_u32s : List ℕ → List ℕ → List ℕ
  put_u32s buf [] = buf
  put_u32s buf (n ∷ ns) = put_u32s (put_u32 buf n) ns

  -- `let (seg_type, asns) = match seg` and what is done with the two.
  unfoldable pub put_segment : List ℕ → AsPathSegment → List ℕ
  put_segment buf (as_set v) = put_u32s (put_u8 (put_u8 buf 1) (u8 (length v))) v
  put_segment buf (as_sequence v) = put_u32s (put_u8 (put_u8 buf 2) (u8 (length v))) v

  unfoldable pub put_segments : List ℕ → List AsPathSegment → List ℕ
  put_segments buf [] = buf
  put_segments buf (s ∷ ss) = put_segments (put_segment buf s) ss

  unfoldable pub put_origin : List ℕ → Option Origin → List ℕ
  put_origin buf none = buf
  put_origin buf (some x) = write_attr buf flag_transitive 1 (origin_code x ∷ [])

  unfoldable pub put_as_path : List ℕ → List AsPathSegment → List ℕ
  put_as_path buf [] = buf
  put_as_path buf (s ∷ ss) = write_attr buf flag_transitive 2 (put_segments [] (s ∷ ss))

  -- An attribute that holds one u32, with `to_be_bytes`.
  unfoldable pub put_optional_u32 : ℕ → ℕ → List ℕ → Option ℕ → List ℕ
  put_optional_u32 flags type_code buf none = buf
  put_optional_u32 flags type_code buf (some n) = write_attr buf flags type_code (bytes32 n)

  unfoldable pub put_atomic_aggregate : List ℕ → Bool → List ℕ
  put_atomic_aggregate buf false = buf
  put_atomic_aggregate buf true = write_attr buf flag_transitive 6 []

  unfoldable pub put_aggregator : List ℕ → Option (ℕ × ℕ) → List ℕ
  put_aggregator buf none = buf
  put_aggregator buf (some (asn, ip)) =
      write_attr buf optional_transitive 7 (put_u32 (put_u16 [] asn) ip)

  -- COMMUNITIES and CLUSTER_LIST
  unfoldable pub put_list : ℕ → ℕ → List ℕ → List ℕ → List ℕ
  put_list flags type_code buf [] = buf
  put_list flags type_code buf (n ∷ ns) = write_attr buf flags type_code (put_u32s [] (n ∷ ns))

  unfoldable pub put_unknown : List ℕ → List RawAttribute → List ℕ
  put_unknown buf [] = buf
  put_unknown buf (raw ∷ raws) = put_unknown (write_attr buf raw.flags raw.type_code raw.value) raws

  unfoldable pub serialize : PathAttributes → List ℕ
  serialize a =
      let b1 = put_origin [] a.origin in
      let b2 = put_as_path b1 a.as_path in
      let b3 = put_optional_u32 flag_transitive 3 b2 a.next_hop in
      let b4 = put_optional_u32 flag_optional 4 b3 a.multi_exit_disc in
      let b5 = put_optional_u32 flag_transitive 5 b4 a.local_pref in
      let b6 = put_atomic_aggregate b5 a.atomic_aggregate in
      let b7 = put_aggregator b6 a.aggregator in
      let b8 = put_list optional_transitive 8 b7 a.communities in
      let b9 = put_optional_u32 flag_optional 9 b8 a.originator_id in
      let b10 = put_list flag_optional 10 b9 a.cluster_list in put_unknown b10 a.unknown
