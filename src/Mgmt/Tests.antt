-- ===== src/Mgmt/Tests.antt =====
-- The management interface at concrete inputs.
use pathforge.Base.{◌≡◌, refl, [], ◌∷◌, ◌++◌, none, some, true, false}
use pathforge.Attr.{no_attributes}
use pathforge.Metrics
use pathforge.Mgmt.{
  Host, Shared, process_command, dispatch, unknown_command, handle_mgmt_conn, answer_lines,
}
use pathforge.Mgmt.Peers
use pathforge.Rib.{Rib, LocRib}
use pathforge.Rib.Routes.{Route, PrefixKey}
use pathforge.Rpki.{disabled, not_found}
use pathforge.Text.{trim, trim_end, trim_start, chars, is_whitespace, split_whitespace, show_addr}

-- A host whose addresses are IPv4, with the port 179.
abbrev lab : Host
lab = record {
  show_socket = λ a. show_addr a ++ chars ":179";
  show_ip = show_addr;
  pkg_version = chars "0.1.0";
  rustc_version = none;
}

abbrev low : PrefixKey
low = record { address = 0x0A00_0000; prefix_len = 8 }

abbrev high : PrefixKey
high = record { address = 0x0B00_0000; prefix_len = 8 }

abbrev route : PrefixKey → Route
route key = record {
  prefix = record { prefix_len = key.prefix_len; address = key.address };
  attrs = record no_attributes { next_hop = some 0xC000_0201 };
  peer_addr = 0xC000_0202;
  peer_as = 65001;
  received_at = 1;
  stale = false;
  rov_state = not_found;
}

abbrev rib_of : LocRib → Rib (Unit {0})
rib_of loc_rib = record {
  adj_rib_in = [];
  loc_rib = loc_rib;
  dampening = tt;
  rpki = record { mode = disabled; roas = [] };
}

abbrev up : Rib (Unit {0})
up = rib_of ((low, route low) ∷ (high, route high) ∷ [])

abbrev down : Rib (Unit {0})
down = rib_of ((high, route high) ∷ (low, route low) ∷ [])

abbrev shared : Shared (Unit {0})
shared = record { state = Peers.shared; rib = up; metrics = Metrics.new }

bye : process_command lab (chars "quit") shared ≡ chars "Bye!\n"
unfolding process_command dispatch split_whitespace is_whitespace chars
bye = refl

unknown : process_command lab (chars "show bgp") shared ≡ unknown_command (chars "show bgp")
unfolding process_command dispatch split_whitespace is_whitespace chars
unknown = refl

-- `quit` does not end the connection: the prompt comes again.
quit_stays :
    handle_mgmt_conn lab (λ _. true) ((chars "quit\r", shared) ∷ [])
    ≡ (chars "PathForge BGP Management\n> Bye!\n\n> ", true)
unfolding handle_mgmt_conn answer_lines process_command dispatch split_whitespace is_whitespace
    chars trim trim_end trim_start
quit_stays = refl
