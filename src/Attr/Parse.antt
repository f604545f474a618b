-- ===== src/Attr/Parse.antt =====
-- PathAttributes::parse of src/attr.rs. Each loop has as many rounds of fuel as its buffer has
-- bytes; a round takes two bytes at least.
pub mod Total
use pathforge.Base.{
  ℕ, zero, suc, ◌*◌, List, [], ◌∷◌, ◌++◌, some, true, Outcome, ok, err, stuck, ◌>>=◌, ◌>>◌, call,
  bail_if, length, ltb, ◌==◌, if◌then◌else◌, bit_and, not,
}
use pathforge.Bytes.{BytesCrate}
use pathforge.Attr.{
  AttrError, too_short, invalid_as_path_segment, try_from, AsPathSegment, as_set, as_sequence,
  RawAttribute, PathAttributes, no_attributes, flag_extended_len,
}

-- `match seg_type`
unfoldable pub segment : ℕ → List ℕ → Outcome AttrError AsPathSegment
segment seg_type asns =
    if seg_type == 1
    then ok (as_set asns)
    else if seg_type == 2
    then ok (as_sequence asns)
    else err (invalid_as_path_segment seg_type)

-- The guard of ORIGIN and the read of `value[0]`.
unfoldable pub first_byte : List ℕ → Outcome AttrError ℕ
first_byte [] = err too_short
first_byte (b ∷ _) = ok b

module _ (o : BytesCrate) where
  open o use {remaining, get_u8, get_u16, get_u32, copy_to_bytes}

  -- `for _ in 0..seg_len { asns.push(seg_buf.get_u32()) }`
  unfoldable pub read_asns : ℕ → List ℕ → Outcome AttrError (List ℕ × List ℕ)
  read_asns zero buf = ok ([], buf)
  read_asns (suc n) buf = do
    (asn, buf1) ← call (get_u32 buf)
    (asns, buf2) ← read_asns n buf1
    ok (asn ∷ asns, buf2)

  -- One round of the AS_PATH loop.
  unfoldable pub read_segment : List ℕ → Outcome AttrError (AsPathSegment × List ℕ)
  read_segment buf = do
    (seg_type, buf1) ← call (get_u8 buf)
    (seg_len, buf2) ← call (get_u8 buf1)
    bail_if (ltb (remaining buf2) (seg_len * 4)) too_short
    (asns, buf3) ← read_asns seg_len buf2
    seg ← segment seg_type asns
    ok (seg, buf3)

  -- `while seg_buf.remaining() >= 2`
  unfoldable pub read_segments : ℕ → List ℕ → Outcome AttrError (List AsPathSegment)
  read_segments zero buf = if ltb (remaining buf) 2 then ok [] else stuck
  read_segments (suc fuel) buf =
      let round = do (seg, buf1) ← read_segment buf; more ← read_segments fuel buf1; ok (seg ∷ more)
      in if ltb (remaining buf) 2 then ok [] else round

  -- `while b.remaining() >= 4`, for COMMUNITIES and CLUSTER_LIST
  unfoldable pub read_u32s : ℕ → List ℕ → Outcome AttrError (List ℕ)
  read_u32s zero buf = if ltb (remaining buf) 4 then ok [] else stuck
  read_u32s (suc fuel) buf =
      let round = do (n, buf1) ← call (get_u32 buf); more ← read_u32s fuel buf1; ok (n ∷ more)
      in if ltb (remaining buf) 4 then ok [] else round

  -- The guard and the read of an attribute that holds one u32.
  unfoldable pub read_u32 : List ℕ → Outcome AttrError ℕ
  read_u32 value = do
    bail_if (ltb (remaining value) 4) too_short
    (n, _) ← call (get_u32 value)
    ok n

  unfoldable pub read_aggregator : List ℕ → Outcome AttrError (ℕ × ℕ)
  read_aggregator value = do
    bail_if (ltb (remaining value) 6) too_short
    (asn, b) ← call (get_u16 value)
    (ip, _) ← call (get_u32 b)
    ok (asn, ip)

  -- `match type_code`: the attributes with this one entered.
  unfoldable pub set_attribute : PathAttributes → RawAttribute → Outcome AttrError PathAttributes
  set_attribute a raw =
      if raw.type_code == 1
      then (do
        b ← first_byte raw.value
        origin ← try_from b
        ok (record a { origin = some origin }))
      else if raw.type_code == 2
      then (do
        segs ← read_segments (length raw.value) raw.value
        ok (record a { as_path = a.as_path ++ segs }))
      else if raw.type_code == 3
      then (do n ← read_u32 raw.value; ok (record a { next_hop = some n }))
      else if raw.type_code == 4
      then (do n ← read_u32 raw.value; ok (record a { multi_exit_disc = some n }))
      else if raw.type_code == 5
      then (do n ← read_u32 raw.value; ok (record a { local_pref = some n }))
      else if raw.type_code == 6
      then ok (record a { atomic_aggregate = true })
      else if raw.type_code == 7
      then (do pair ← read_aggregator raw.value; ok (record a { aggregator = some pair }))
      else if raw.type_code == 8
      then (do
        cs ← read_u32s (length raw.value) raw.value
        ok (record a { communities = a.communities ++ cs }))
      else if raw.type_code == 9
      then (do n ← read_u32 raw.value; ok (record a { originator_id = some n }))
      else if raw.type_code == 10
      then (do
        ids ← read_u32s (length raw.value) raw.value
        ok (record a { cluster_list = a.cluster_list ++ ids }))
      else ok (record a { unknown = a.unknown ++ (raw ∷ []) })

  -- The length field, of two bytes if the flag says so.
  unfoldable pub read_length : ℕ → List ℕ → Outcome AttrError (ℕ × List ℕ)
  read_length flags buf =
      if not (bit_and flags flag_extended_len == 0)
      then (do bail_if (ltb (remaining buf) 2) too_short; call (get_u16 buf))
      else do bail_if (ltb (remaining buf) 1) too_short; call (get_u8 buf)

  -- Flags, code, length and value of one attribute, and the buffer behind it.
  unfoldable pub read_attribute : List ℕ → Outcome AttrError (RawAttribute × List ℕ)
  read_attribute buf = do
    (flags, buf1) ← call (get_u8 buf)
    (type_code, buf2) ← call (get_u8 buf1)
    (len, buf3) ← read_length flags buf2
    bail_if (ltb (remaining buf3) len) too_short
    (value, buf4) ← call (copy_to_bytes buf3 len)
    ok (record { flags = flags; type_code = type_code; value = value }, buf4)

  -- `while buf.remaining() >= 3`
  unfoldable pub parse_attributes : ℕ → PathAttributes → List ℕ → Outcome AttrError PathAttributes
  parse_attributes zero a buf = if ltb (remaining buf) 3 then ok a else stuck
  parse_attributes (suc fuel) a buf =
      let round = do
        (raw, buf1) ← read_attribute buf
        a1 ← set_attribute a raw
        parse_attributes fuel a1 buf1
      in if ltb (remaining buf) 3 then ok a else round

  unfoldable pub parse : List ℕ → Outcome AttrError PathAttributes
  parse buf = parse_attributes (length buf) no_attributes buf
