-- ===== src/Message/Update/Tests.antt =====
-- Runs of the parser of UPDATE over `listed`, and the theorems at concrete inputs.
use Prim.Native.String.{String}
use pathforge.Base.{
  ℕ, ◌≡◌, ◌⊎◌, refl, List, [], ◌∷◌, none, some, ok, panic, arith, ◌≤◌, ◌<◌, ◌%◌, ComesBack, drop,
}
use pathforge.Bytes.{listed, listed-IsDocumented}
use pathforge.Attr.{AttrError, no_attributes, igp, as_sequence}
use pathforge.Attr.Serialize as AttrSerialize
use pathforge.Message.{update}
use pathforge.Message.Delivery.{Delivers}
use pathforge.Message.Prefix
use pathforge.Message.Prefix.{Prefix, parse_all, octets_for}
use pathforge.Message.Prefix.Wire
use pathforge.Message.Prefix.Wire.{behind, over_long_taken}
use pathforge.Message.Update
use pathforge.Message.Update.{UpdateMessage}
use pathforge.Message.Update.Panic.{IsCutShort, cut_short_panics, parse-ComesBack}
use pathforge.Message.Update.RoundTrip.{IsSendable, update_delivered}

abbrev text : AttrError → String
text _ = "attribute"

-- Two bytes of withdrawn length, and two bytes that it counts: no attribute length is left.
abbrev short_body : List ℕ
short_body = 0 ∷ 2 ∷ 0 ∷ 0 ∷ []

short_body-IsCutShort : IsCutShort listed short_body
short_body-IsCutShort = record {
  hi = 0;
  lo = 2;
  section = 0 ∷ 0 ∷ [];
  tail = [];
  routes = record { prefix_len = 0; address = 0 } ∷ record { prefix_len = 0; address = 0 } ∷ [];
  body_eq = refl;
  long_enough = omega arith;
  section_len = refl;
  section_parses = unfold parse_all Prefix.parse Prefix.fill_array in refl;
  tail_short = omega arith;
}

cut_short_panics_example : Update.parse listed text short_body ≡ panic
cut_short_panics_example =
    cut_short_panics listed listed-IsDocumented text short_body short_body-IsCutShort

parse-ComesBack_example : IsCutShort listed (0 ∷ []) ⊎ ComesBack (Update.parse listed text (0 ∷ []))
parse-ComesBack_example = parse-ComesBack listed listed-IsDocumented text (0 ∷ [])

-- 192.168.1.0/40: five octets asked for, four read.
abbrev over_long : List ℕ
over_long = 192 ∷ 168 ∷ 1 ∷ 0 ∷ 16 ∷ 10 ∷ 0 ∷ []

over_long_taken_example :
    (p : Prefix) × (Prefix.parse listed (40 ∷ over_long) ≡ ok (p, drop 4 over_long))
    × (Prefix.serialize listed p [] ≡ none)
over_long_taken_example =
    over_long_taken listed listed-IsDocumented 40 over_long (omega arith) (omega arith)

-- The UPDATE of the test suite, with one withdrawn route.
abbrev small_update : UpdateMessage
small_update = record {
  withdrawn_routes = record { prefix_len = 16; address = 0xC0A8_0000 } ∷ [];
  path_attributes = record no_attributes {
    origin = some igp;
    as_path = as_sequence (65000 ∷ 65001 ∷ []) ∷ [];
    next_hop = some 0x0A00_0001;
    local_pref = some 100;
  };
  nlri =
      record { prefix_len = 8; address = 0x0A00_0000 }
      ∷ record { prefix_len = 12; address = 0xAC10_0000 }
      ∷ [];
}

sendable :
    (p : Prefix)
    → (p.prefix_len ≤ 32)
      × (p.address < 4294967296)
      × (p.address % behind (octets_for p.prefix_len) ≡ 0)
    → Wire.IsSendable p
sendable p (l, a, t) = record { len_fits = l; address_fits = a; trimmed = t }

small_update-IsSendable : IsSendable listed small_update
unfolding AttrSerialize.serialize AttrSerialize.write_attr AttrSerialize.put_origin
    AttrSerialize.put_as_path AttrSerialize.put_segments AttrSerialize.put_segment
    AttrSerialize.put_u32s AttrSerialize.put_optional_u32 AttrSerialize.put_atomic_aggregate
    AttrSerialize.put_aggregator AttrSerialize.put_list AttrSerialize.put_unknown
small_update-IsSendable = record {
  withdrawn = (sendable _ (omega arith, omega arith, refl), tt);
  attributes = record {
    segments_fit = ground arith;
    as_path_fits = omega arith;
    communities_fit = omega arith;
    cluster_list_fits = omega arith;
    unknown_fit = tt;
  };
  announced = (
    sendable _ (omega arith, omega arith, refl),
    (sendable _ (omega arith, omega arith, refl), tt),
  );
  fits = omega arith;
}

update_delivered_example :
    (wire : List ℕ) × (Update.serialize listed small_update ≡ some wire)
    × Delivers listed update wire (λ body. Update.parse listed text body ≡ ok small_update)
update_delivered_example =
    update_delivered listed listed-IsDocumented text small_update small_update-IsSendable
