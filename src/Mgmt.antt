-- ===== src/Mgmt.antt =====
-- src/mgmt.rs: the management interface. A command comes as a line of text; a connection is the
-- sequence of the lines read from it and of the texts written to it.
pub mod Rows
pub mod Tables
pub mod Detail
pub mod Peers
mod Tests
use Prim.Native.String.{String}
use pathforge.Base.{
  ◌+◌, ℕ, List, [], ◌∷◌, ◌++◌, Option, none, some, Bool, true, false, ◌&&◌, ◌||◌, if◌then◌else◌,
}
use pathforge.Message.Header.{bytes_eq}
use pathforge.Metrics.{Metrics}
use pathforge.Metrics.Text.{text_summary, prometheus_text}
use pathforge.Rib.{Rib}
use pathforge.Text.{chars, trim, split_whitespace}
use pathforge.Mgmt.Detail.{cmd_bgp_rib_prefix}
use pathforge.Mgmt.Peers.{MgmtState, cmd_bgp_summary, cmd_bgp_neighbors}
use pathforge.Mgmt.Tables.{cmd_bgp_rib, cmd_bgp_rib_aspath, cmd_bgp_rib_nexthop}

-- What comes from the standard library and the build: the texts of a SocketAddr and of its address,
-- CARGO_PKG_VERSION and RUSTC_VERSION.
pub record Host : Type 0 where
  pub show_socket : ℕ → List ℕ
  pub show_ip : ℕ → List ℕ
  pub pkg_version : List ℕ
  pub rustc_version : Option (List ℕ)

-- What the locks protect, as a command finds it. A poisoned lock is read all the same.
pub record Shared (Table : Type 0) : Type 0 where
  pub state : MgmtState
  pub rib : Rib Table
  pub metrics : Metrics

unfoldable pub cmd_version : Host → List ℕ
cmd_version host =
    chars "PathForge BGP daemon\nVersion: "
    ++ host.pkg_version
    ++ chars "\nRustc:   "
    ++ elim host.rustc_version [ none ↦ chars "unknown" | some v ↦ v ]
    ++ chars "\n"

unfoldable pub cmd_help : List ℕ
cmd_help =
    chars "Available commands:\n\n"
    ++ chars "show bgp summary                — Peer summary and RIB count\n"
    ++ chars "show bgp rib                    — Full BGP routing table (Loc-RIB)\n"
    ++ chars "show bgp rib prefix X.X.X.X/N  — Detail for a specific prefix\n"
    ++ chars "show bgp rib aspath <ASN>       — Routes containing ASN in AS_PATH\n"
    ++ chars "show bgp rib nexthop <X.X.X.X>  — Routes with a specific next-hop\n"
    ++ chars "show bgp neighbors              — All neighbor detail\n"
    ++ chars "show bgp neighbors <ip>         — Specific neighbor detail\n"
    ++ chars "show bgp metrics                — Human-readable counters\n"
    ++ chars "metrics                         — Prometheus exposition format\n"
    ++ chars "version                         — Daemon version\n"
    ++ chars "help                            — Show this help\n"
    ++ chars "quit / exit                     — Close connection\n"

unfoldable pub unknown_command : List ℕ → List ℕ
unknown_command cmd =
    chars "Unknown command: '" ++ cmd ++ chars "'\nType 'help' for available commands.\n"

abbrev pub is_word : String → List ℕ → Bool
is_word literal w = bytes_eq w (chars literal)

module _ (host : Host) {Table : Type 0} where
  abbrev pub one_word : Shared Table → List ℕ → List ℕ → List ℕ
  one_word s cmd a =
      if is_word "metrics" a
      then prometheus_text s.metrics
      else if is_word "version" a
      then cmd_version host
      else if is_word "help" a
      then cmd_help
      else if is_word "quit" a || is_word "exit" a
      then chars "Bye!\n"
      else unknown_command cmd

  -- The third word behind `show bgp`.
  abbrev pub three_words : Shared Table → List ℕ → List ℕ → List ℕ
  three_words s cmd c =
      if is_word "summary" c
      then cmd_bgp_summary host.show_socket host.show_ip s.state s.rib
      else if is_word "rib" c
      then cmd_bgp_rib s.rib
      else if is_word "neighbors" c
      then cmd_bgp_neighbors host.show_socket host.show_ip s.state none
      else if is_word "metrics" c
      then text_summary s.metrics
      else unknown_command cmd

  -- The fourth word and its argument, behind `show bgp rib`.
  abbrev pub five_words : Shared Table → List ℕ → List ℕ → List ℕ → List ℕ
  five_words s cmd d argument =
      if is_word "prefix" d
      then cmd_bgp_rib_prefix host.show_socket s.rib argument
      else if is_word "aspath" d
      then cmd_bgp_rib_aspath s.rib argument
      else if is_word "nexthop" d
      then cmd_bgp_rib_nexthop s.rib argument
      else unknown_command cmd

  -- The `match` on the words of the command.
  unfoldable pub dispatch : Shared Table → List ℕ → List (List ℕ) → List ℕ
  dispatch s cmd [] = cmd_help
  dispatch s cmd (a ∷ []) = one_word s cmd a
  dispatch s cmd (a ∷ b ∷ c ∷ []) =
      if is_word "show" a && is_word "bgp" b then three_words s cmd c else unknown_command cmd
  dispatch s cmd (a ∷ b ∷ c ∷ d ∷ []) =
      if is_word "show" a && (is_word "bgp" b && is_word "neighbors" c)
      then cmd_bgp_neighbors host.show_socket host.show_ip s.state (some d)
      else unknown_command cmd
  dispatch s cmd (a ∷ b ∷ c ∷ d ∷ e ∷ []) =
      if is_word "show" a && (is_word "bgp" b && is_word "rib" c)
      then five_words s cmd d e
      else unknown_command cmd
  dispatch s cmd _ = unknown_command cmd

  unfoldable pub process_command : List ℕ → Shared Table → List ℕ
  process_command cmd s = dispatch s cmd (split_whitespace cmd)

  -- The loop over the lines. With each line stands what the other tasks have left behind the locks
  -- when it is read. `accepts n` is the stream's answer to the `n`th write; at an error the connection
  -- ends. The result is what has been written, and whether the connection ended without an error.
  unfoldable pub answer_lines : (ℕ → Bool) → ℕ → List (List ℕ × Shared Table) → List ℕ × Bool
  answer_lines accepts n [] = ([], true)
  answer_lines accepts n ((line, s) ∷ lines) =
      let (more, ended) = answer_lines accepts (2 + n) lines in
      let response = process_command (trim line) s in
      if accepts n
      then if accepts (1 + n) then (response ++ chars "\n> " ++ more, ended) else (response, false)
      else ([], false)

  unfoldable pub handle_mgmt_conn : (ℕ → Bool) → List (List ℕ × Shared Table) → List ℕ × Bool
  handle_mgmt_conn accepts lines =
      let (more, ended) = answer_lines accepts 1 lines in
      if accepts 0 then (chars "PathForge BGP Management\n> " ++ more, ended) else ([], false)
