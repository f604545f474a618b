-- ===== src/Text/Shown.antt =====
-- The implementations of `Display` of the types in src/attr.rs, src/fsm.rs, src/rib.rs,
-- src/message/update.rs, src/capabilities.rs and src/rpki.rs.
use pathforge.Base.{ℕ, List, ◌∷◌, ◌++◌, ◌==◌, if◌then◌else◌}
use pathforge.Attr.{
  Origin, igp, egp, incomplete, Community, no_export, no_advertise, no_export_subconfed,
  community_asn, community_value,
}
use pathforge.Capabilities.{
  Capability, multi_protocol, route_refresh, four_octet_asn, graceful_restart, unknown,
}
use pathforge.Message.Prefix.{Prefix}
use pathforge.Rib.Routes.{PrefixKey}
use pathforge.Rpki.{RovState, valid, invalid, not_found, RpkiMode, disabled, loose, strict}
use pathforge.Session.Fsm.{BgpState, idle, connect, active, open_sent, open_confirm, established}
use pathforge.Text.{chars, show_number, show_addr}

unfoldable pub show_origin : Origin → List ℕ
show_origin igp = chars "IGP"
show_origin egp = chars "EGP"
show_origin incomplete = chars "Incomplete"

unfoldable pub show_community : Community → List ℕ
show_community c =
    if c == no_export
    then chars "no-export"
    else if c == no_advertise
    then chars "no-advertise"
    else if c == no_export_subconfed
    then chars "no-export-subconfed"
    else show_number (community_asn c) ++ 58 ∷ show_number (community_value c)

unfoldable pub show_state : BgpState → List ℕ
show_state idle = chars "Idle"
show_state connect = chars "Connect"
show_state active = chars "Active"
show_state open_sent = chars "OpenSent"
show_state open_confirm = chars "OpenConfirm"
show_state established = chars "Established"

unfoldable pub show_key : PrefixKey → List ℕ
show_key k = show_addr k.address ++ 47 ∷ show_number k.prefix_len

unfoldable pub show_prefix : Prefix → List ℕ
show_prefix p = show_addr p.address ++ 47 ∷ show_number p.prefix_len

unfoldable pub show_capability : Capability → List ℕ
show_capability (multi_protocol afi safi) =
    chars "MultiProtocol(AFI="
    ++ show_number afi
    ++ chars ", SAFI="
    ++ show_number safi
    ++ chars ")"
show_capability route_refresh = chars "RouteRefresh"
show_capability (graceful_restart restart_time _) =
    chars "GracefulRestart(time=" ++ show_number restart_time ++ chars "s)"
show_capability (four_octet_asn asn) = chars "4-byte-ASN(" ++ show_number asn ++ chars ")"
show_capability (unknown code _) = chars "Unknown(code=" ++ show_number code ++ chars ")"

unfoldable pub show_rov_state : RovState → List ℕ
show_rov_state valid = chars "valid"
show_rov_state invalid = chars "invalid"
show_rov_state not_found = chars "not-found"

unfoldable pub show_rpki_mode : RpkiMode → List ℕ
show_rpki_mode disabled = chars "disabled"
show_rpki_mode loose = chars "loose"
show_rpki_mode strict = chars "strict"
