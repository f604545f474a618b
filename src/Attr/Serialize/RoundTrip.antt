-- ===== src/Attr/Serialize/RoundTrip.antt =====
-- PathAttributes::parse reads back what PathAttributes::serialize wrote.
use mathlib.Core.List.{append-nil, append_assoc}
use pathforge.Base.{
  ℕ, ◌*◌, ◌≤◌, ◌<◌, ◌≡◌, ◌≢◌, sym, ap, ◌∙◌, List, [], ◌∷◌, ◌++◌, ok, arith, length, All, bit_and,
  bit_or_same, ltb, Bool-cases, inl, inr,
}
use pathforge.Bytes.{BytesCrate, IsDocumented, listed, for_documented}
use pathforge.Attr.{
  RawAttribute, PathAttributes, no_attributes, flag_optional, flag_transitive, flag_extended_len,
}
use pathforge.Attr.Parse
use pathforge.Attr.Parse.{set_attribute}
use pathforge.Attr.Parse.Total.{IsUnknown}
use pathforge.Attr.Serialize
use pathforge.Attr.Serialize.{
  put_aggregator, put_as_path, put_atomic_aggregate, put_list, put_optional_u32, put_origin,
  put_unknown, optional_transitive,
}
use pathforge.Attr.Serialize.Encode.{Writes, Writes-then, segments_bytes, FitsSegment}
use pathforge.Attr.Serialize.Chunk.{
  chunk, wire_flags, write_attr-Writes, Parses, Parses-nil, Parses-chunk,
}
use pathforge.Attr.Serialize.Fields.{
  origin_bytes, as_path_bytes, u32_attribute, atomic_bytes, aggregator_bytes, list_attribute,
  origin-Writes, as_path-Writes, u32-Writes, atomic-Writes, aggregator-Writes, list-Writes,
  origin-Parses, as_path-Parses, next_hop-Parses, multi_exit_disc-Parses, local_pref-Parses,
  atomic-Parses, aggregator-Parses, communities-Parses, originator_id-Parses, cluster_list-Parses,
}

-- A raw attribute of a code without a field, whose extended-length flag tells whether its value is
-- longer than 255 bytes.
pub record IsRawSendable (raw : RawAttribute) : Type 0 where
  pub unknown_code : IsUnknown raw
  pub flags_byte : raw.flags < 256
  pub fits : length raw.value < 65536
  pub short_plain : length raw.value ≤ 255 → bit_and raw.flags flag_extended_len ≡ 0
  pub long_extended : 255 < length raw.value → bit_and raw.flags flag_extended_len ≢ 0

-- Attributes whose lengths fit their fields, with raw attributes that can be sent.
pub record IsSendable (a : PathAttributes) : Type 0 where
  pub segments_fit : All FitsSegment a.as_path
  pub as_path_fits : length (segments_bytes a.as_path) < 65536
  pub communities_fit : length a.communities * 4 < 65536
  pub cluster_list_fits : length a.cluster_list * 4 < 65536
  pub unknown_fit : All IsRawSendable a.unknown

unknown_bytes : List RawAttribute → List ℕ
unknown_bytes [] = []
unknown_bytes (raw ∷ raws) = chunk raw.flags raw.type_code raw.value ++ unknown_bytes raws

unknown-Writes :
    (raws : List RawAttribute)
    → All IsRawSendable raws
    → Writes (λ buf. put_unknown listed buf raws) (unknown_bytes raws)
unfolding put_unknown unknown_bytes
unknown-Writes [] h buf = sym (append-nil buf)
unknown-Writes (raw ∷ raws) h buf =
    unknown-Writes raws h.1 (Serialize.write_attr listed buf raw.flags raw.type_code raw.value)
    ∙ ap (λ b. b ++ unknown_bytes raws)
        (write_attr-Writes raw.flags raw.type_code raw.value h.0.fits buf)
    ∙ append_assoc buf (chunk raw.flags raw.type_code raw.value) (unknown_bytes raws)

wire_flags-eq :
    (raw : RawAttribute) → IsRawSendable raw → wire_flags raw.flags raw.value ≡ raw.flags
wire_flags-eq raw h = elim (Bool-cases (ltb 255 (length raw.value))) [
  | inl long ↦ rw long (bit_or_same raw.flags h.flags_byte (h.long_extended (ground arith)))
  | inr short ↦ rw short
]

set_attribute-unknown :
    (a : PathAttributes) (raw : RawAttribute)
    → IsUnknown raw
    → set_attribute listed a raw ≡ ok (record a { unknown = a.unknown ++ (raw ∷ []) })
unfolding set_attribute
set_attribute-unknown a raw h = ground arith

unknown-Parses :
    (a : PathAttributes) (raws : List RawAttribute)
    → All IsRawSendable raws
    → Parses a (unknown_bytes raws) (ok (record a { unknown = a.unknown ++ raws }))
unfolding unknown_bytes
unknown-Parses a [] h = λ fuel k. rw (append-nil a.unknown) (Parses-nil a fuel k)
unknown-Parses a (raw ∷ raws) h =
    Parses-chunk a (record a { unknown = a.unknown ++ (raw ∷ []) }) raw.flags raw.type_code
      raw.value (unknown_bytes raws) _ h.0.flags_byte h.0.short_plain h.0.fits
      (rw (wire_flags-eq raw h.0) (set_attribute-unknown a raw h.0.unknown_code))
      (λ fuel k.
        unknown-Parses (record a { unknown = a.unknown ++ (raw ∷ []) }) raws h.1 fuel k
        ∙ ap (λ u. ok (record a { unknown = u })) (append_assoc a.unknown (raw ∷ []) raws))

-- The attributes as bytes, in the order of their codes.
wire : PathAttributes → List ℕ
wire a =
    origin_bytes a.origin
    ++ (as_path_bytes a.as_path
        ++ (u32_attribute flag_transitive 3 a.next_hop
            ++ (u32_attribute flag_optional 4 a.multi_exit_disc
                ++ (u32_attribute flag_transitive 5 a.local_pref
                    ++ (atomic_bytes a.atomic_aggregate
                        ++ (aggregator_bytes a.aggregator
                            ++ (list_attribute optional_transitive 8 a.communities
                                ++ (u32_attribute flag_optional 9 a.originator_id
                                    ++ (list_attribute flag_optional 10 a.cluster_list
                                        ++ unknown_bytes a.unknown)))))))))

serialize-wire : (a : PathAttributes) → IsSendable a → Serialize.serialize listed a ≡ wire a
unfolding Serialize.serialize wire
serialize-wire a w =
    Writes-then (λ buf. put_origin listed buf a.origin) _ (origin_bytes a.origin) _
      (origin-Writes a.origin)
      (Writes-then (λ buf. put_as_path listed buf a.as_path) _ (as_path_bytes a.as_path) _
        (as_path-Writes a.as_path w.as_path_fits)
        (Writes-then (λ buf. put_optional_u32 listed flag_transitive 3 buf a.next_hop) _
          (u32_attribute flag_transitive 3 a.next_hop) _ (u32-Writes flag_transitive 3 a.next_hop)
          (Writes-then (λ buf. put_optional_u32 listed flag_optional 4 buf a.multi_exit_disc) _
            (u32_attribute flag_optional 4 a.multi_exit_disc) _
            (u32-Writes flag_optional 4 a.multi_exit_disc)
            (Writes-then (λ buf. put_optional_u32 listed flag_transitive 5 buf a.local_pref) _
              (u32_attribute flag_transitive 5 a.local_pref) _
              (u32-Writes flag_transitive 5 a.local_pref)
              (Writes-then (λ buf. put_atomic_aggregate listed buf a.atomic_aggregate) _
                (atomic_bytes a.atomic_aggregate) _ (atomic-Writes a.atomic_aggregate)
                (Writes-then (λ buf. put_aggregator listed buf a.aggregator) _
                  (aggregator_bytes a.aggregator) _ (aggregator-Writes a.aggregator)
                  (Writes-then (λ buf. put_list listed optional_transitive 8 buf a.communities) _
                    (list_attribute optional_transitive 8 a.communities) _
                    (list-Writes optional_transitive 8 a.communities w.communities_fit)
                    (Writes-then
                      (λ buf. put_optional_u32 listed flag_optional 9 buf a.originator_id) _
                      (u32_attribute flag_optional 9 a.originator_id) _
                      (u32-Writes flag_optional 9 a.originator_id)
                      (Writes-then (λ buf. put_list listed flag_optional 10 buf a.cluster_list) _
                        (list_attribute flag_optional 10 a.cluster_list) _
                        (list-Writes flag_optional 10 a.cluster_list w.cluster_list_fits)
                        (unknown-Writes a.unknown w.unknown_fit))))))))))
      []

-- The fields that are entered after each round.
abbrev entered_1 : PathAttributes → PathAttributes
entered_1 a = record no_attributes { origin = a.origin }

abbrev entered_2 : PathAttributes → PathAttributes
entered_2 a = record (entered_1 a) { as_path = a.as_path }

abbrev entered_3 : PathAttributes → PathAttributes
entered_3 a = record (entered_2 a) { next_hop = a.next_hop }

abbrev entered_4 : PathAttributes → PathAttributes
entered_4 a = record (entered_3 a) { multi_exit_disc = a.multi_exit_disc }

abbrev entered_5 : PathAttributes → PathAttributes
entered_5 a = record (entered_4 a) { local_pref = a.local_pref }

abbrev entered_6 : PathAttributes → PathAttributes
entered_6 a = record (entered_5 a) { atomic_aggregate = a.atomic_aggregate }

abbrev entered_7 : PathAttributes → PathAttributes
entered_7 a = record (entered_6 a) { aggregator = a.aggregator }

abbrev entered_8 : PathAttributes → PathAttributes
entered_8 a = record (entered_7 a) { communities = a.communities }

abbrev entered_9 : PathAttributes → PathAttributes
entered_9 a = record (entered_8 a) { originator_id = a.originator_id }

abbrev entered_10 : PathAttributes → PathAttributes
entered_10 a = record (entered_9 a) { cluster_list = a.cluster_list }

wire-Parses : (a : PathAttributes) → IsSendable a → Parses no_attributes (wire a) (ok a)
unfolding wire
wire-Parses a w = origin-Parses no_attributes _ _ a.origin (
    as_path-Parses (entered_1 a) _ _ a.as_path w.segments_fit w.as_path_fits (
      next_hop-Parses (entered_2 a) _ _ a.next_hop (
        multi_exit_disc-Parses (entered_3 a) _ _ a.multi_exit_disc (
          local_pref-Parses (entered_4 a) _ _ a.local_pref (
            atomic-Parses (entered_5 a) _ _ a.atomic_aggregate (
              aggregator-Parses (entered_6 a) _ _ a.aggregator (
                communities-Parses (entered_7 a) _ _ a.communities w.communities_fit (
                  originator_id-Parses (entered_8 a) _ _ a.originator_id (
                    cluster_list-Parses (entered_9 a) _ _ a.cluster_list w.cluster_list_fits
                      (unknown-Parses (entered_10 a) a.unknown w.unknown_fit))))))))))

pub listed-parse-serialize :
    (a : PathAttributes) → IsSendable a → Parse.parse listed (Serialize.serialize listed a) ≡ ok a
unfolding Parse.parse
listed-parse-serialize a w =
    rw (serialize-wire a w) (wire-Parses a w (length (wire a)) (omega arith))

-- Attributes are read back as they were, every field, every segment of the AS_PATH and the raw
-- attributes in order, if each segment has at most 255 AS numbers, each value is shorter than 65536
-- bytes, and each raw attribute has a flags byte, a type code that no field has, and the
-- extended-length flag exactly if its value is longer than 255 bytes.
pub parse-serialize :
    (o : BytesCrate)
    → IsDocumented o
    → (a : PathAttributes) → IsSendable a
    → Parse.parse o (Serialize.serialize o a) ≡ ok a
parse-serialize o d a w =
    for_documented (λ c. Parse.parse c (Serialize.serialize c a) ≡ ok a) o d
      (listed-parse-serialize a w)
