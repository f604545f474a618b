-- ===== src/Mgmt/Detail.antt =====
-- `show bgp rib prefix` of src/mgmt.rs: the route to one prefix.
pub mod Lookup
use pathforge.Base.{ℕ, List, [], ◌∷◌, ◌++◌, Option, none, some, map, get}
use pathforge.Attr.{PathAttributes, Community}
use pathforge.Policy.Text.{split_once, parse_addr, parse_uint}
use pathforge.Rib.{Rib, LocRib}
use pathforge.Rib.Decision.{unwrap_or}
use pathforge.Rib.Routes.{Route, PrefixKey, same_key}
use pathforge.Text.{chars, show_number, join}
use pathforge.Text.Shown.{show_community}
use pathforge.Mgmt.Rows.{path_text, or_else, next_hop_text, origin_text, local_pref_of}

abbrev pub communities_line : List Community → List ℕ
communities_line [] = []
communities_line (c ∷ cs) =
    chars "  Communities:     " ++ join (chars " ") (map show_community (c ∷ cs)) ++ chars "\n"

-- `show_socket` is SocketAddr's `Display`.
module _ (show_socket : ℕ → List ℕ) where
  unfoldable pub route_detail : List ℕ → Route → List ℕ
  route_detail prefix_str route =
      chars "BGP Prefix "
      ++ prefix_str
      ++ chars "\n  Best path from:  "
      ++ show_socket route.peer_addr
      ++ chars "\n  Peer AS:         "
      ++ show_number route.peer_as
      ++ chars "\n  Next-hop:        "
      ++ next_hop_text route.attrs
      ++ chars "\n  Local-pref:      "
      ++ show_number (local_pref_of route.attrs)
      ++ chars "\n  MED:             "
      ++ show_number (unwrap_or route.attrs.multi_exit_disc 0)
      ++ chars "\n  Origin:          "
      ++ origin_text route.attrs
      ++ chars "\n  AS-path:         "
      ++ or_else (path_text route.attrs) (chars "(empty)")
      ++ chars "\n"
      ++ communities_line route.attrs.communities

  unfoldable pub found_text : List ℕ → Option Route → List ℕ
  found_text prefix_str none = chars "Prefix " ++ prefix_str ++ chars " not found in Loc-RIB.\n"
  found_text prefix_str (some route) = route_detail prefix_str route

  -- The rest of the function behind the `let` of the length, of the address and of the parts.
  abbrev pub with_len : List ℕ → LocRib → ℕ → List ℕ → Option ℕ → List ℕ
  with_len prefix_str loc_rib addr len_s none =
      chars "Invalid prefix length: '" ++ len_s ++ chars "'\n"
  with_len prefix_str loc_rib addr len_s (some len) =
      let key : PrefixKey = record { address = addr; prefix_len = len } in
      found_text prefix_str (get same_key key loc_rib)

  abbrev pub with_addr : List ℕ → LocRib → List ℕ → List ℕ → Option ℕ → List ℕ
  with_addr prefix_str loc_rib addr_s len_s none =
      chars "Invalid address: '" ++ addr_s ++ chars "'\n"
  with_addr prefix_str loc_rib addr_s len_s (some addr) =
      with_len prefix_str loc_rib addr len_s (parse_uint 255 len_s)

  abbrev pub with_parts : List ℕ → LocRib → Option (List ℕ × List ℕ) → List ℕ
  with_parts prefix_str loc_rib none =
      chars "Invalid prefix format: '" ++ prefix_str ++ chars "'. Use X.X.X.X/LEN\n"
  with_parts prefix_str loc_rib (some (addr_s, len_s)) =
      with_addr prefix_str loc_rib addr_s len_s (parse_addr addr_s)

  unfoldable pub cmd_bgp_rib_prefix : {Table : Type 0} → Rib Table → List ℕ → List ℕ
  cmd_bgp_rib_prefix rib prefix_str = with_parts prefix_str rib.loc_rib (split_once 47 prefix_str)
