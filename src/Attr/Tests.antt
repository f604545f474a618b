-- ===== src/Attr/Tests.antt =====
-- Runs of the attribute parser over `listed`, and the theorems at concrete inputs.
use pathforge.Base.{◌≡◌, refl, [], ◌∷◌, some, ok, err, arith, Returns, inr}
use pathforge.Bytes.{listed, listed-IsDocumented}
use pathforge.Attr.{
  PathAttributes, RawAttribute, no_attributes, igp, as_sequence, as_set, too_short,
}
use pathforge.Attr.Parse
use pathforge.Attr.Parse.Total.{KeepsUnknown, parse-KeepsUnknown}
use pathforge.Attr.Serialize
use pathforge.Attr.Serialize.RoundTrip.{IsSendable, parse-serialize}
use pathforge.Attr.Serialize.PassThrough.{only, pass_through_refused}

-- A large community: optional and transitive, without a field of its own.
abbrev large_community : RawAttribute
large_community = record { flags = 0xC0; type_code = 32; value = 0 ∷ 0 ∷ 253 ∷ [] }

-- The same attribute as a peer may send it, with the length in two bytes.
abbrev extended : RawAttribute
extended = record { flags = 0xD0; type_code = 32; value = 0 ∷ 0 ∷ 253 ∷ [] }

abbrev route : PathAttributes
route = record no_attributes {
  origin = some igp;
  as_path = as_sequence (65000 ∷ 65001 ∷ []) ∷ as_set (64512 ∷ []) ∷ [];
  next_hop = some 167772161;
  local_pref = some 100;
  aggregator = some (65000, 167772161);
  communities = 0xFFFF_FF01 ∷ [];
  unknown = large_community ∷ [];
}

route-IsSendable : IsSendable route
route-IsSendable = record {
  segments_fit = ground arith;
  as_path_fits = omega arith;
  communities_fit = omega arith;
  cluster_list_fits = omega arith;
  unknown_fit = (
    record {
      unknown_code = inr (omega arith);
      flags_byte = omega arith;
      fits = omega arith;
      short_plain = λ _. refl;
      long_extended = λ h. absurd (omega (arith, h));
    },
    tt,
  );
}

parse-serialize_example : Parse.parse listed (Serialize.serialize listed route) ≡ ok route
parse-serialize_example = parse-serialize listed listed-IsDocumented route route-IsSendable

parse-KeepsUnknown_example : Returns KeepsUnknown (Parse.parse listed (0xC0 ∷ 32 ∷ 1 ∷ 7 ∷ []))
parse-KeepsUnknown_example = parse-KeepsUnknown listed listed-IsDocumented (0xC0 ∷ 32 ∷ 1 ∷ 7 ∷ [])

-- The parser takes the attribute with its flags as they are.
extended_run : Parse.parse listed (0xD0 ∷ 32 ∷ 0 ∷ 3 ∷ 0 ∷ 0 ∷ 253 ∷ []) ≡ ok (only extended)
unfolding Parse.parse Parse.parse_attributes Parse.read_attribute Parse.read_length
    Parse.set_attribute
extended_run = refl

pass_through_refused_example :
    Parse.parse listed (Serialize.serialize listed (only extended)) ≡ err too_short
pass_through_refused_example =
    pass_through_refused listed listed-IsDocumented extended (ground arith) (omega arith)
