-- ===== src/Capabilities/RoundTrip.antt =====
-- What Capability::to_bytes of src/capabilities.rs writes, read back by
-- Capability::parse_optional_params.
use pathforge.Base.{
  ℕ, zero, suc, ◌+◌, ◌-◌, ◌≤◌, ◌<◌, ◌≡◌, refl, ◌∙◌, sym, ap, List, [], ◌∷◌, ◌++◌, All, some, ok,
  arith, length, length-append, take, take-length-append, IsU8, IsU16, IsU32, u8, be16, ◌/◌,
  mask_word, mask_word_parts, drop_past,
}
use mathlib.Core.List.{append_assoc, append-nil}
use pathforge.Capabilities.Walk.{slice-some, caps_end, caps_round, from_round, from_end}
use pathforge.Capabilities.{
  Capability, multi_protocol, route_refresh, four_octet_asn, graceful_restart, unknown, code,
  value_bytes, to_bytes, byte_at, slice, parse_one, parse_caps, parse_from, parse_optional_params,
  all_bytes, raw_params, parse_from_open_params, build_capabilities, new_with_capabilities,
}

-- A block of bytes in front moves every position behind it.
byte_at_behind : (pre s : List ℕ) (pos : ℕ) → byte_at (pre ++ s) (length pre + pos) ≡ byte_at s pos
unfolding byte_at
byte_at_behind [] s pos = ap (byte_at s) (omega arith)
byte_at_behind (b ∷ pre) s pos =
    let shift : length (b ∷ pre) + pos ≡ suc (length pre + pos) = omega arith in
    rw shift (byte_at_behind pre s pos)

byte_here : (pre : List ℕ) (a : ℕ) (t : List ℕ) → byte_at (pre ++ (a ∷ t)) (length pre) ≡ some a
unfolding byte_at
byte_here [] a t = refl
byte_here (b ∷ pre) a t = byte_here pre a t

byte_next :
    (pre : List ℕ) (a b : ℕ) (t : List ℕ) → byte_at (pre ++ (a ∷ b ∷ t)) (length pre + 1) ≡ some b
unfolding byte_at
byte_next pre a b t = byte_at_behind pre (a ∷ b ∷ t) 1

-- Fields that fit the wire, and a code of its own for a capability that is passed through.
unfoldable pub IsSendable : Capability → Type 0
IsSendable (multi_protocol afi safi) = IsU16 afi × IsU8 safi
IsSendable route_refresh = Unit {0}
IsSendable (four_octet_asn asn) = IsU32 asn
IsSendable (graceful_restart restart_time flags) = (restart_time < 4096) × (flags < 16)
IsSendable (unknown c v) =
    (¬ (c ≡ 1)) × (¬ (c ≡ 2)) × (¬ (c ≡ 64)) × (¬ (c ≡ 65)) × (length v < 256)

parse_one-value_bytes : (c : Capability) → IsSendable c → parse_one (code c) (value_bytes c) ≡ c
unfolding parse_one code value_bytes IsSendable
parse_one-value_bytes (multi_protocol afi safi) w =
    let back : be16 (u8 (afi / 256)) (u8 afi) ≡ afi = omega arith in
    ap (λ a. multi_protocol a safi) back
parse_one-value_bytes route_refresh w = refl
parse_one-value_bytes (four_octet_asn asn) w = ap four_octet_asn (omega arith)
parse_one-value_bytes (graceful_restart restart_time flags) w =
    let (fits, low, high) = mask_word_parts flags restart_time w.1 w.0 in
    let word = mask_word flags restart_time in
    let back : be16 (u8 (word / 256)) (u8 word) ≡ word = omega (arith, fits) in
    rw (back, low, high) refl
parse_one-value_bytes (unknown c []) w = ground arith
parse_one-value_bytes (unknown c (a ∷ [])) w = ground arith
parse_one-value_bytes (unknown c (a ∷ b ∷ [])) w = ground arith
parse_one-value_bytes (unknown c (a ∷ b ∷ x ∷ [])) w = ground arith
parse_one-value_bytes (unknown c (a ∷ b ∷ x ∷ y ∷ s)) w = ground arith

value_bytes_fit : (c : Capability) → IsSendable c → length (value_bytes c) < 256
unfolding value_bytes IsSendable
value_bytes_fit (multi_protocol afi safi) w = omega arith
value_bytes_fit route_refresh w = omega arith
value_bytes_fit (four_octet_asn asn) w = omega arith
value_bytes_fit (graceful_restart restart_time flags) w = omega arith
value_bytes_fit (unknown c v) w = w.4

slice_front :
    (pre : List ℕ) (a b : ℕ) (v rest : List ℕ)
    → slice (pre ++ (a ∷ b ∷ (v ++ rest))) (length pre + 2) (length pre + 2 + length v) ≡ some v
slice_front pre a b v rest =
    let whole = length-append pre (a ∷ b ∷ (v ++ rest)) in
    let inner = length-append v rest in
    let width : length pre + 2 + length v - (length pre + 2) ≡ length v = omega arith in
    slice-some (pre ++ (a ∷ b ∷ (v ++ rest))) (length pre + 2) (length pre + 2 + length v)
      (omega arith) (omega (arith, whole, inner))
    ∙ ap some (
        ap (take _) (drop_past (length pre) pre (a ∷ b ∷ (v ++ rest)) 2 refl)
        ∙ ap (λ n. take n (v ++ rest)) width
        ∙ take-length-append v rest)

-- The inner loop at the place where the capabilities begin that are left, with the data ending there.
parse_caps-all_bytes :
    (fuel : ℕ) (pre s : List ℕ) (caps : List Capability)
    → All IsSendable caps
    → s ≡ pre ++ all_bytes caps
    → length (all_bytes caps) ≤ fuel
    → parse_caps fuel s (length s) (length pre) ≡ ok caps
unfolding all_bytes to_bytes
parse_caps-all_bytes fuel pre s [] w e h =
    let size : length s ≡ length pre = rw e (omega (arith, length-append pre [])) in
    caps_end fuel s (length s) (length pre) (ground (arith, size))
parse_caps-all_bytes zero pre s (c ∷ caps) w e h = absurd (omega arith)
parse_caps-all_bytes (suc fuel) pre s (c ∷ caps) w e h =
    let v = value_bytes c in
    let tail = all_bytes caps in
    let width : u8 (length v) ≡ length v = omega (arith, value_bytes_fit c w.0) in
    let split : s ≡ pre ++ (code c ∷ length v ∷ (v ++ tail)) =
      e ∙ ap (λ n. pre ++ (code c ∷ n ∷ (v ++ tail))) width in
    let head = code c ∷ length v ∷ v in
    let size : length s ≡ length pre + (2 + (length v + length tail)) =
      rw split (
        omega (arith, length-append pre (code c ∷ length v ∷ (v ++ tail)), length-append v tail)) in
    let next : length (pre ++ head) ≡ length pre + 2 + length v =
      omega (arith, length-append pre head) in
    let behind : s ≡ (pre ++ head) ++ tail = split ∙ sym (append_assoc pre head tail) in
    let rest =
      parse_caps-all_bytes fuel (pre ++ head) s caps w.1 behind
        (omega (arith, h, length-append v tail)) in
    caps_round fuel s (length s) (length pre) (code c) (length v) v caps (ground (arith, size))
      (rw split (byte_here pre (code c) (length v ∷ (v ++ tail))))
      (rw split (byte_next pre (code c) (length v) (v ++ tail))) (ground (arith, size))
      (rw split (slice_front pre (code c) (length v) v tail)) (rw next at rest)
    ∙ ap (λ x. ok (x ∷ caps)) (parse_one-value_bytes c w.0)

params_back :
    (caps : List Capability)
    → All IsSendable caps
    → parse_optional_params (2 ∷ length (all_bytes caps) ∷ all_bytes caps) ≡ ok caps
unfolding parse_optional_params byte_at
params_back caps w =
    let s = all_bytes caps in
    let block = 2 ∷ length s ∷ s in
    let inner =
      parse_caps-all_bytes (length block) (2 ∷ length s ∷ []) block caps w refl (omega arith) in
    let end : 0 + 2 + length s ≡ length block = omega arith in
    from_round (suc (length s)) block 0 (length s) caps [] (ground arith) refl refl
      (ap (λ e. parse_caps (length block) block e 2) end ∙ inner)
      (from_end (suc (length s)) block (0 + 2 + length s) (ground arith))
    ∙ ap ok (append-nil caps)

-- Capabilities come back whole, in order, if together they have less than 254 bytes, their fields fit
-- 16, 8 and 32 bits, a restart time is below 4096 and its flags below 16, and an unknown one has none
-- of the codes 1, 2, 64 and 65 and less than 256 bytes: from the parameters that
-- OpenMessage::new_with_capabilities makes of them, and from the block of build_capabilities behind
-- its length byte, which is the length of the rest.
pub parse-build_capabilities :
    (my_as hold_time bgp_id : ℕ) (caps : List Capability)
    → All IsSendable caps
    → length (all_bytes caps) < 254
    → (parse_from_open_params (new_with_capabilities my_as hold_time bgp_id caps).optional_params
        ≡ ok caps)
      × ((s : List ℕ) × (build_capabilities caps ≡ length s ∷ s)
          × (parse_optional_params s ≡ ok caps))
unfolding parse_from_open_params raw_params new_with_capabilities build_capabilities all_bytes
    to_bytes parse_optional_params parse_from
parse-build_capabilities my_as hold_time bgp_id [] w h = (refl, ([], refl, refl))
parse-build_capabilities my_as hold_time bgp_id (c ∷ caps) w h =
    let block = all_bytes (c ∷ caps) in
    let width : u8 (length block) ≡ length block = omega (arith, h) in
    let total : u8 (suc (suc (length block))) ≡ suc (suc (length block)) = omega (arith, h) in
    (
      ap (λ s. parse_optional_params (2 ∷ u8 (length block) ∷ s)) (append-nil block)
          ∙ ap (λ n. parse_optional_params (2 ∷ n ∷ block)) width
          ∙ params_back (c ∷ caps) w,
      (
        2 ∷ length block ∷ block,
        ap (λ n. n ∷ 2 ∷ u8 (length block) ∷ block) total
            ∙ ap (λ n. suc (suc (length block)) ∷ 2 ∷ n ∷ block) width,
        params_back (c ∷ caps) w,
      ),
    )
