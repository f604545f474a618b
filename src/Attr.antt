-- ===== src/Attr.antt =====
-- src/attr.rs: the path attributes of an UPDATE. Parse and Serialize model PathAttributes::parse
-- and ::serialize. An Ipv4Addr is the u32 that it converts to and from.
pub mod Parse
pub mod Serialize
mod Tests
use Prim.Native.String.{String}
use pathforge.Base.{
  ℕ, ◌+◌, ◌/◌, ◌^◌, List, [], ◌∷◌, Option, none, some, Bool, true, false, not, ◌&&◌, Outcome, ok,
  err, length, u16, ◌==◌, if◌then◌else◌,
}

pub data Origin : Type 0 where
  igp egp incomplete : Origin

-- `origin as u8`
abbrev pub origin_code : Origin → ℕ
origin_code igp = 0
origin_code egp = 1
origin_code incomplete = 2

pub data AttrError : Type 0 where
  too_short : AttrError
  invalid_origin : ℕ → AttrError
  invalid_as_path_segment : ℕ → AttrError
  parse_error : String → AttrError

-- `Origin::try_from`
unfoldable pub try_from : ℕ → Outcome AttrError Origin
try_from v =
    if v == 0
    then ok igp
    else if v == 1
    then ok egp
    else if v == 2
    then ok incomplete
    else err (invalid_origin v)

pub data AsPathSegment : Type 0 where
  as_set : List ℕ → AsPathSegment
  as_sequence : List ℕ → AsPathSegment

unfoldable pub as_numbers : AsPathSegment → List ℕ
as_numbers (as_set v) = v
as_numbers (as_sequence v) = v

-- `struct Community(pub u32)`
abbrev pub Community : Type 0
Community = ℕ

abbrev pub no_export : Community
no_export = 0xFFFF_FF01

abbrev pub no_advertise : Community
no_advertise = 0xFFFF_FF02

abbrev pub no_export_subconfed : Community
no_export_subconfed = 0xFFFF_FF03

unfoldable pub community_asn : Community → ℕ
community_asn c = u16 (c / 2 ^ 16)

unfoldable pub community_value : Community → ℕ
community_value c = u16 c

pub record RawAttribute : Type 0 where
  pub flags : ℕ
  pub type_code : ℕ
  pub value : List ℕ

pub record PathAttributes : Type 0 where
  pub origin : Option Origin
  pub as_path : List AsPathSegment
  pub next_hop : Option ℕ
  pub multi_exit_disc : Option ℕ
  pub local_pref : Option ℕ
  pub atomic_aggregate : Bool
  pub aggregator : Option (ℕ × ℕ)
  pub communities : List Community
  pub originator_id : Option ℕ
  pub cluster_list : List ℕ
  pub unknown : List RawAttribute

-- `PathAttributes::default()`
abbrev pub no_attributes : PathAttributes
no_attributes = record {
  origin = none;
  as_path = [];
  next_hop = none;
  multi_exit_disc = none;
  local_pref = none;
  atomic_aggregate = false;
  aggregator = none;
  communities = [];
  originator_id = none;
  cluster_list = [];
  unknown = [];
}

abbrev pub is_none {ℓ} : {A : Type ℓ} → Option A → Bool
is_none none = true
is_none (some _) = false

abbrev pub is_nil {ℓ} : {A : Type ℓ} → List A → Bool
is_nil [] = true
is_nil (_ ∷ _) = false

unfoldable pub is_empty : PathAttributes → Bool
is_empty a =
    is_none a.origin
    && is_nil a.as_path
    && is_none a.next_hop
    && is_none a.multi_exit_disc
    && is_none a.local_pref
    && not a.atomic_aggregate
    && is_none a.aggregator
    && is_nil a.communities
    && is_none a.originator_id
    && is_nil a.cluster_list
    && is_nil a.unknown

segment_len : AsPathSegment → ℕ
segment_len (as_set _) = 1
segment_len (as_sequence v) = length v

sum_len : List AsPathSegment → ℕ
unfolding segment_len
sum_len [] = 0
sum_len (s ∷ ss) = segment_len s + sum_len ss

-- The length that the decision process compares: an AS_SET counts as one.
unfoldable pub as_path_len : PathAttributes → ℕ
unfolding sum_len
as_path_len a = sum_len a.as_path

abbrev pub flag_optional : ℕ
flag_optional = 0x80

abbrev pub flag_transitive : ℕ
flag_transitive = 0x40

abbrev pub flag_extended_len : ℕ
flag_extended_len = 0x10
