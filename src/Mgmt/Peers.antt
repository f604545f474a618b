-- ===== src/Mgmt/Peers.antt =====
-- The peers that src/mgmt.rs shows, and the commands that show them.
use pathforge.Base.{ℕ, List, [], ◌∷◌, ◌++◌, Option, none, some, ◌==◌, values, if◌then◌else◌}
use pathforge.Attr.{is_nil}
use pathforge.Message.Header.{bytes_eq}
use pathforge.Rib.{Rib}
use pathforge.Rib.Query.{summary}
use pathforge.Session.Fsm.{BgpState}
use pathforge.Text.{chars, show_number, pad_left, pad_right, repeat}
use pathforge.Text.Shown.{show_state}

pub record PeerInfo : Type 0 where
  pub addr : ℕ
  pub remote_as : ℕ
  pub state : BgpState
  pub description : Option (List ℕ)
  pub uptime_secs : ℕ
  pub routes_received : ℕ

pub record MgmtState : Type 0 where
  pub peers : List (ℕ × PeerInfo)

-- `MgmtState::shared`, which is all that the program does to the state.
abbrev pub shared : MgmtState
shared = record { peers = [] }

abbrev pub description_text : Option (List ℕ) → List ℕ
description_text none = []
description_text (some d) = d

abbrev pub description_line : Option (List ℕ) → List ℕ
description_line none = []
description_line (some d) = chars "  Description:  " ++ d ++ chars "\n"

abbrev pub no_peers_line : List PeerInfo → List ℕ
no_peers_line [] = chars "(no peers configured)\n"
no_peers_line (p ∷ ps) = []

-- `show_socket` is SocketAddr's `Display`, and `show_ip` the text of its address without the port.
module _ (show_socket show_ip : ℕ → List ℕ) where
  -- The `Display` of the state writes its name and does not look at the width.
  unfoldable pub summary_row : PeerInfo → List ℕ
  summary_row p =
      pad_right 22 (show_socket p.addr)
      ++ chars " "
      ++ pad_left 8 (show_number p.remote_as)
      ++ chars " "
      ++ show_state p.state
      ++ chars " "
      ++ description_text p.description
      ++ chars "\n"

  unfoldable pub summary_rows : List PeerInfo → List ℕ
  summary_rows [] = []
  summary_rows (p ∷ ps) = summary_row p ++ summary_rows ps

  unfoldable pub cmd_bgp_summary : {Table : Type 0} → MgmtState → Rib Table → List ℕ
  cmd_bgp_summary state rib =
      chars "BGP Summary\n===========\nTotal prefixes in Loc-RIB: "
      ++ show_number (summary rib).2
      ++ chars "\n\n"
      ++ pad_right 22 (chars "Neighbor")
      ++ chars " "
      ++ pad_left 8 (chars "AS")
      ++ chars " "
      ++ pad_left 12 (chars "State")
      ++ chars " Description\n"
      ++ repeat 45 70
      ++ chars "\n"
      ++ summary_rows (values ◌==◌ state.peers)
      ++ no_peers_line (values ◌==◌ state.peers)

  unfoldable pub neighbor_detail : PeerInfo → List ℕ
  neighbor_detail p =
      chars "BGP neighbor "
      ++ show_socket p.addr
      ++ chars "\n  Remote AS:    "
      ++ show_number p.remote_as
      ++ chars "\n  State:        "
      ++ show_state p.state
      ++ chars "\n  Routes rcvd:  "
      ++ show_number p.routes_received
      ++ chars "\n  Uptime:       "
      ++ show_number p.uptime_secs
      ++ chars "s\n"
      ++ description_line p.description
      ++ chars "\n"

  unfoldable pub neighbor_details : List PeerInfo → List ℕ
  neighbor_details [] = []
  neighbor_details (p ∷ ps) = neighbor_detail p ++ neighbor_details ps

  -- `filter(|p| p.addr.ip().to_string() == *ip)`
  unfoldable pub with_ip : List ℕ → List PeerInfo → List PeerInfo
  with_ip ip [] = []
  with_ip ip (p ∷ ps) =
      let rest = with_ip ip ps in if bytes_eq (show_ip p.addr) ip then p ∷ rest else rest

  abbrev pub asked_for : Option (List ℕ) → List PeerInfo → List PeerInfo
  asked_for none ps = ps
  asked_for (some ip) ps = with_ip ip ps

  unfoldable pub cmd_bgp_neighbors : MgmtState → Option (List ℕ) → List ℕ
  cmd_bgp_neighbors state filter_ip =
      let peers = asked_for filter_ip (values ◌==◌ state.peers) in
      if is_nil peers then chars "No matching neighbors.\n" else neighbor_details peers
