-- ===== src/Capabilities.antt =====
-- src/capabilities.rs: the capabilities of an OPEN, to bytes and from bytes. The parser walks over
-- positions; a read behind the end of the data panics.
pub mod Walk
pub mod RoundTrip
mod Tests
use pathforge.Base.{
  ℕ, zero, suc, ◌+◌, ◌-◌, ◌*◌, ◌/◌, List, [], ◌∷◌, ◌++◌, Option, none, some, Outcome, ok, stuck,
  ◌>>=◌, call, length, take, drop, min, ltb, leb, ◌==◌, if◌then◌else◌, bit_and, bit_or, u8, be16,
  be32, bytes32,
}
use pathforge.Message.Open
use pathforge.Message.Open.{OpenMessage, OptionalParam}

pub data Capability : Type 0 where
  multi_protocol : ℕ → ℕ → Capability
  route_refresh : Capability
  four_octet_asn : ℕ → Capability
  -- restart_time, flags
  graceful_restart : ℕ → ℕ → Capability
  unknown : ℕ → List ℕ → Capability

unfoldable pub code : Capability → ℕ
code (multi_protocol _ _) = 1
code route_refresh = 2
code (graceful_restart _ _) = 64
code (four_octet_asn _) = 65
code (unknown c _) = c

-- The value of a capability; `flags as u16 & 0xF << 12 | restart_time & 0xFFF` for a restart.
unfoldable pub value_bytes : Capability → List ℕ
value_bytes (multi_protocol afi safi) = u8 (afi / 256) ∷ u8 afi ∷ 0 ∷ safi ∷ []
value_bytes route_refresh = []
value_bytes (graceful_restart restart_time flags) =
    let word = bit_or (bit_and flags 15 * 4096) (bit_and restart_time 4095) in
    u8 (word / 256) ∷ u8 word ∷ []
value_bytes (four_octet_asn asn) = bytes32 asn
value_bytes (unknown _ data_bytes) = data_bytes

unfoldable pub to_bytes : Capability → List ℕ
unfolding code value_bytes
to_bytes c = code c ∷ u8 (length (value_bytes c)) ∷ value_bytes c

unfoldable pub parse_one : ℕ → List ℕ → Capability
parse_one c (x0 ∷ x1 ∷ x2 ∷ x3 ∷ rest) =
    if c == 1
    then multi_protocol (be16 x0 x1) x3
    else if c == 2
    then route_refresh
    else if c == 64
    then graceful_restart (bit_and (be16 x0 x1) 4095) (bit_and (be16 x0 x1 / 4096) 15)
    else if c == 65
    then four_octet_asn (be32 x0 x1 x2 x3)
    else unknown c (x0 ∷ x1 ∷ x2 ∷ x3 ∷ rest)
parse_one c (x0 ∷ x1 ∷ rest) =
    if c == 2
    then route_refresh
    else if c == 64
    then graceful_restart (bit_and (be16 x0 x1) 4095) (bit_and (be16 x0 x1 / 4096) 15)
    else unknown c (x0 ∷ x1 ∷ rest)
parse_one c rest = if c == 2 then route_refresh else unknown c rest

-- `data[pos]` and `data[from..to]`
unfoldable pub byte_at : List ℕ → ℕ → Option ℕ
byte_at [] pos = none
byte_at (b ∷ s) zero = some b
byte_at (b ∷ s) (suc pos) = byte_at s pos

unfoldable pub slice : List ℕ → ℕ → ℕ → Option (List ℕ)
slice s from to =
    if ltb to from
    then none
    else if ltb (length s) to
    then none
    else some (take (to - from) (drop from s))

-- The inner loop, over the capabilities of one parameter that ends at `end`.
unfoldable pub parse_caps : ℕ → List ℕ → ℕ → ℕ → Outcome (Unit {0}) (List Capability)
parse_caps zero s end cap_pos = if leb (cap_pos + 2) (min end (length s)) then stuck else ok []
parse_caps (suc fuel) s end cap_pos =
    let round = do
      cap_code ← call (byte_at s cap_pos)
      cap_len ← call (byte_at s (cap_pos + 1))
      let cap_end = cap_pos + 2 + cap_len
      let more = parse_caps fuel s end cap_end
      if ltb (length s) cap_end then ok [] else do
        cap_data ← call (slice s (cap_pos + 2) cap_end)
        rest ← more
        ok (parse_one cap_code cap_data ∷ rest)
    in if leb (cap_pos + 2) (min end (length s)) then round else ok []

-- The outer loop, over the parameters; those of another type than 2 are passed over.
unfoldable pub parse_from : ℕ → List ℕ → ℕ → Outcome (Unit {0}) (List Capability)
parse_from zero s pos = if leb (pos + 2) (length s) then stuck else ok []
parse_from (suc fuel) s pos =
    let round = do
      param_type ← call (byte_at s pos)
      param_len ← call (byte_at s (pos + 1))
      caps ←
          if param_type == 2 then parse_caps (length s) s (pos + 2 + param_len) (pos + 2) else ok []
      rest ← parse_from fuel s (pos + 2 + param_len)
      ok (caps ++ rest)
    in if leb (pos + 2) (length s) then round else ok []

unfoldable pub parse_optional_params : List ℕ → Outcome (Unit {0}) (List Capability)
parse_optional_params s = parse_from (length s) s 0

-- The parameters as bytes again, each with its length cut to a byte.
unfoldable pub raw_params : List OptionalParam → List ℕ
raw_params [] = []
raw_params (p ∷ ps) = p.param_type ∷ u8 (length p.value) ∷ (p.value ++ raw_params ps)

unfoldable pub parse_from_open_params : List OptionalParam → Outcome (Unit {0}) (List Capability)
parse_from_open_params ps = parse_optional_params (raw_params ps)

unfoldable pub all_bytes : List Capability → List ℕ
all_bytes [] = []
all_bytes (c ∷ cs) = to_bytes c ++ all_bytes cs

-- The block with one parameter of type 2 and the length of it all in front.
unfoldable pub build_capabilities : List Capability → List ℕ
build_capabilities caps = elim (all_bytes caps) [
  | [] ↦ 0 ∷ []
  | b ∷ bs ↦ u8 (suc (suc (suc (length bs)))) ∷ 2 ∷ u8 (suc (length bs)) ∷ b ∷ bs
]

-- `OpenMessage::new_with_capabilities` of src/message/open.rs
unfoldable pub new_with_capabilities : ℕ → ℕ → ℕ → List Capability → OpenMessage
new_with_capabilities my_as hold_time bgp_id caps = record (Open.new my_as hold_time bgp_id) {
  optional_params = elim caps [
    | [] ↦ []
    | c ∷ cs ↦ record { param_type = 2; value = all_bytes (c ∷ cs) } ∷ []
  ];
}
