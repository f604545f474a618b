-- ===== src/Mgmt/Tables.antt =====
-- The commands of src/mgmt.rs that list routes of the Loc-RIB.
pub mod Order
pub mod Texts
use pathforge.Base.{ℕ, List, [], ◌∷◌, ◌++◌, Option, none, some}
use pathforge.Policy.Text.{parse_addr, parse_uint}
use pathforge.Rib.{Rib, LocRib}
use pathforge.Rib.Decision.{unwrap_or}
use pathforge.Rib.Routes.{Route, PrefixKey}
use pathforge.Text.{chars, show_number, show_addr, pad_left, pad_right, repeat}
use pathforge.Text.Shown.{show_key}
use pathforge.Mgmt.Rows.{
  sort_entries, matching, path_has, goes_to, path_text, or_else, next_hop_text, origin_text,
  local_pref_of, lines_of,
}

unfoldable pub rib_row : PrefixKey × Route → List ℕ
rib_row (key, route) =
    pad_right 20 (show_key key)
    ++ chars " "
    ++ pad_left 10 (show_number (local_pref_of route.attrs))
    ++ chars " "
    ++ pad_left 6 (show_number (unwrap_or route.attrs.multi_exit_disc 0))
    ++ chars " "
    ++ pad_left 6 (or_else (path_text route.attrs) (chars "-"))
    ++ chars " "
    ++ pad_right 20 (next_hop_text route.attrs)
    ++ chars " "
    ++ origin_text route.attrs
    ++ chars "\n"

unfoldable pub rib_header : List ℕ
rib_header =
    chars "BGP Routing Table (Loc-RIB)\n===========================\n"
    ++ pad_right 20 (chars "Network")
    ++ chars " "
    ++ pad_left 8 (chars "Local-Pref")
    ++ chars " "
    ++ pad_left 6 (chars "MED")
    ++ chars " "
    ++ pad_left 6 (chars "AS-Path")
    ++ chars " "
    ++ pad_right 20 (chars "Next-Hop")
    ++ chars " "
    ++ chars "Origin\n"
    ++ repeat 45 80
    ++ chars "\n"

abbrev pub aspath_row : PrefixKey × Route → List ℕ
aspath_row (key, route) =
    pad_right 20 (show_key key)
    ++ chars " via "
    ++ next_hop_text route.attrs
    ++ chars " path "
    ++ path_text route.attrs
    ++ chars "\n"

abbrev pub nexthop_row : PrefixKey × Route → List ℕ
nexthop_row (key, route) =
    pad_right 20 (show_key key)
    ++ chars " local-pref="
    ++ show_number (local_pref_of route.attrs)
    ++ chars " path="
    ++ or_else (path_text route.attrs) (chars "-")
    ++ chars "\n"

-- A text for no entries, and the header and the sorted rows for some.
unfoldable pub table : List ℕ → List ℕ → (PrefixKey × Route → List ℕ) → LocRib → List ℕ
table empty header row [] = empty
table empty header row (e ∷ rest) = header ++ lines_of row (sort_entries (e ∷ rest))

abbrev pub aspath_table : List ℕ → LocRib → Option ℕ → List ℕ
aspath_table asn_str loc_rib none = chars "Invalid AS number: '" ++ asn_str ++ chars "'\n"
aspath_table asn_str loc_rib (some asn) =
    table (chars "No routes with ASN " ++ show_number asn ++ chars " in AS_PATH.\n")
      (chars "Routes with ASN "
        ++ show_number asn
        ++ chars " in AS_PATH\n"
        ++ repeat 61 40
        ++ chars "\n")
      aspath_row (matching (λ r. path_has asn r.attrs.as_path) loc_rib)

abbrev pub nexthop_table : List ℕ → LocRib → Option ℕ → List ℕ
nexthop_table ip_str loc_rib none = chars "Invalid IPv4 address: '" ++ ip_str ++ chars "'\n"
nexthop_table ip_str loc_rib (some target) =
    table (chars "No routes with next-hop " ++ show_addr target ++ chars ".\n")
      (chars "Routes via next-hop " ++ show_addr target ++ chars "\n" ++ repeat 61 40 ++ chars "\n")
      nexthop_row (matching (λ r. goes_to target r.attrs.next_hop) loc_rib)

module _ {Table : Type 0} where
  unfoldable pub cmd_bgp_rib : Rib Table → List ℕ
  cmd_bgp_rib rib = table (chars "Loc-RIB is empty.\n") rib_header rib_row rib.loc_rib

  unfoldable pub cmd_bgp_rib_aspath : Rib Table → List ℕ → List ℕ
  cmd_bgp_rib_aspath rib asn_str = aspath_table asn_str rib.loc_rib (parse_uint 4294967295 asn_str)

  unfoldable pub cmd_bgp_rib_nexthop : Rib Table → List ℕ → List ℕ
  cmd_bgp_rib_nexthop rib ip_str = nexthop_table ip_str rib.loc_rib (parse_addr ip_str)
