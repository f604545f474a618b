-- ===== src/Policy/Tests.antt =====
-- Runs of src/policy.rs, and its theorem, at concrete inputs.
use pathforge.Base.{
  arith, leb, ◌&&◌, ◌≡◌, refl, [], ◌∷◌, none, some, true, false, checked, sub8, shl32,
}
use pathforge.Policy.Subnet.{shares, is_subnet_lem}
use pathforge.Attr.{no_attributes}
use pathforge.Config.{PolicyConfig, permit}
use pathforge.Message.Prefix.{Prefix}
use pathforge.Policy.{apply, find_list, evaluate_prefix_list, matches_entry, is_subnet}
use pathforge.Policy.Text.{parse_prefix, parse_addr, parse_digits, split_once}

-- The list "a" with the entry "10.0.0.0/8" and the prefixes down to 24.
abbrev ten : PolicyConfig
ten = record {
  prefix_lists =
      record {
        name = 97 ∷ [];
        entries =
            record {
              action = permit;
              prefix = 49 ∷ 48 ∷ 46 ∷ 48 ∷ 46 ∷ 48 ∷ 46 ∷ 48 ∷ 47 ∷ 56 ∷ [];
              ge = none;
              le = some 24;
            }
            ∷ [];
      }
      ∷ [];
  community_lists = [];
}

abbrev inside : Prefix
inside = record { prefix_len = 16; address = 0x0A01_0000 }

abbrev outside : Prefix
outside = record { prefix_len = 16; address = 0x0B01_0000 }

inside_passes : apply checked ten (97 ∷ []) inside no_attributes ≡ some true
unfolding apply find_list evaluate_prefix_list matches_entry is_subnet parse_prefix parse_addr
    parse_digits split_once sub8 shl32
inside_passes = refl

outside_stays : apply checked ten (97 ∷ []) outside no_attributes ≡ some false
unfolding apply find_list evaluate_prefix_list matches_entry is_subnet parse_prefix parse_addr
    parse_digits split_once sub8 shl32
outside_stays = refl

is_subnet_lem_example :
    is_subnet checked 0x0A01_0000 16 0x0A00_0000 8
    ≡ some (leb 8 16 && shares 8 0x0A00_0000 0x0A01_0000)
is_subnet_lem_example =
    is_subnet_lem checked 0x0A01_0000 16 0x0A00_0000 8 (omega arith) (omega arith) (omega arith)
