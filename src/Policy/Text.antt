-- ===== src/Policy/Text.antt =====
-- The text that src/policy.rs parses: numbers, addresses, prefixes and communities, with what the
-- standard library's `split_once` and `from_str` do.
use pathforge.Base.{
  ℕ, ◌+◌, ◌-◌, ◌*◌, List, [], ◌∷◌, Option, none, some, not, ◌&&◌, ◌==◌, ltb, leb, length,
  if◌then◌else◌, and_then, bit_or, be32,
}
use pathforge.Attr.{Community, no_export, no_advertise, no_export_subconfed}
use pathforge.Message.Header.{bytes_eq}

-- `split_once`
unfoldable pub split_once : ℕ → List ℕ → Option (List ℕ × List ℕ)
split_once c [] = none
split_once c (x ∷ s) =
    let rest = split_once c s in
    if x == c then some ([], s) else and_then rest λ (front, back). some (x ∷ front, back)

-- `u8::from_str` and `u16::from_str`, whose values are at most `max`: digits behind a `+` or none.
unfoldable pub parse_digits : ℕ → ℕ → List ℕ → Option ℕ
parse_digits max acc [] = some acc
parse_digits max acc (c ∷ s) =
    let n = acc * 10 + (c - 48) in
    let rest = parse_digits max n s in if leb 48 c && leb c 57 && leb n max then rest else none

abbrev pub parse_some_digits : ℕ → List ℕ → Option ℕ
parse_some_digits max [] = none
parse_some_digits max (c ∷ s) = parse_digits max 0 (c ∷ s)

abbrev pub parse_uint : ℕ → List ℕ → Option ℕ
parse_uint max [] = none
parse_uint max (c ∷ s) = if c == 43 then parse_some_digits max s else parse_digits max 0 (c ∷ s)

-- One number of an address: at most three digits, and no zero in front of another digit.
abbrev pub parse_octet : List ℕ → Option ℕ
parse_octet [] = none
parse_octet (c ∷ s) =
    if ltb 2 (length s)
    then none
    else if c == 48 && not (length s == 0)
    then none
    else parse_digits 255 0 (c ∷ s)

-- `Ipv4Addr::from_str`
unfoldable pub parse_addr : List ℕ → Option ℕ
parse_addr s = and_then (split_once 46 s) λ (a, s1). and_then (split_once 46 s1) λ (b, s2).
    and_then (split_once 46 s2) λ (c, d). and_then (parse_octet a) λ x.
      and_then (parse_octet b)
        λ y. and_then (parse_octet c) λ z. and_then (parse_octet d) λ w. some (be32 x y z w)

unfoldable pub parse_prefix : List ℕ → Option (ℕ × ℕ)
parse_prefix s = and_then (split_once 47 s) λ (addr_str, len_str).
    and_then (parse_addr addr_str) λ addr. and_then (parse_uint 255 len_str) λ len. some (addr, len)

-- "no-export", "no-advertise" and "no-export-subconfed"
abbrev pub no_export_text : List ℕ
no_export_text = 110 ∷ 111 ∷ 45 ∷ 101 ∷ 120 ∷ 112 ∷ 111 ∷ 114 ∷ 116 ∷ []

abbrev pub no_advertise_text : List ℕ
no_advertise_text = 110 ∷ 111 ∷ 45 ∷ 97 ∷ 100 ∷ 118 ∷ 101 ∷ 114 ∷ 116 ∷ 105 ∷ 115 ∷ 101 ∷ []

abbrev pub no_export_subconfed_text : List ℕ
no_export_subconfed_text =
    110 ∷ 111 ∷ 45 ∷ 101 ∷ 120 ∷ 112 ∷ 111 ∷ 114 ∷ 116 ∷ 45 ∷ 115 ∷ 117 ∷ 98 ∷ 99 ∷ 111 ∷ 110 ∷ 102
    ∷ 101 ∷ 100 ∷ []

unfoldable pub parse_community_str : List ℕ → Option Community
parse_community_str s =
    if bytes_eq s no_export_text
    then some no_export
    else if bytes_eq s no_advertise_text
    then some no_advertise
    else if bytes_eq s no_export_subconfed_text
    then some no_export_subconfed
    else and_then (split_once 58 s) λ (asn_str, val_str).
      and_then (parse_uint 65535 asn_str)
        λ asn. and_then (parse_uint 65535 val_str) λ val. some (bit_or (asn * 65536) val)
