-- ===== src/Text/Tests.antt =====
-- Texts of concrete values.
use pathforge.Base.{◌≡◌, refl, [], ◌∷◌, ◌++◌, some, arith}
use pathforge.Attr.{community_asn, community_value}
use pathforge.Capabilities.{multi_protocol, graceful_restart}
use pathforge.Policy.Text.{parse_prefix, parse_community_str}
use pathforge.Rib.Routes.{PrefixKey}
use pathforge.Text.{
  chars, show_number, show_digits, show_addr, pad_left, pad_right, trim, trim_start, trim_end,
  split_whitespace, is_whitespace, join,
}
use pathforge.Text.Communities.{parse_community_str-show_community}
use pathforge.Text.Parses.{parse_prefix-show_key}
use pathforge.Text.Shown.{show_key, show_community, show_capability}

abbrev net : PrefixKey
net = record { address = 0xC000_0200; prefix_len = 24 }

net_text : show_key net ≡ chars "192.0.2.0/24"
unfolding show_key show_addr show_number show_digits chars
net_text = refl

blank_text : show_community 0xFFFF_FF01 ++ show_community 0x0001_0064 ≡ chars "no-export1:100"
unfolding show_community community_asn community_value show_number show_digits chars
blank_text = refl

restart_text :
    show_capability (graceful_restart 120 0) ++ show_capability (multi_protocol 1 1)
    ≡ chars "GracefulRestart(time=120s)MultiProtocol(AFI=1, SAFI=1)"
unfolding show_capability show_number show_digits chars
restart_text = refl

padded : pad_left 4 (chars "ab") ++ pad_right 1 (chars "cd") ≡ chars "  abcd"
unfolding pad_left pad_right chars
padded = refl

trimmed : trim (chars "\t a b \r") ≡ chars "a b"
unfolding trim trim_start trim_end is_whitespace chars
trimmed = refl

words : split_whitespace (chars " show  bgp ") ≡ chars "show" ∷ chars "bgp" ∷ []
unfolding split_whitespace is_whitespace chars
words = refl

joined : join (chars " ") (chars "1" ∷ chars "2" ∷ []) ≡ chars "1 2"
unfolding join chars
joined = refl

parse_prefix-show_key_example : parse_prefix (show_key net) ≡ some (0xC000_0200, 24)
parse_prefix-show_key_example = parse_prefix-show_key net (omega arith) (omega arith)

parse_community_str-show_community_example :
    parse_community_str (show_community 0x0001_0064) ≡ some 0x0001_0064
parse_community_str-show_community_example =
    parse_community_str-show_community 0x0001_0064 (omega arith)
