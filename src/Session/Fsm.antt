-- ===== src/Session/Fsm.antt =====
-- The states and events of src/fsm.rs and Peer::transition of src/peer.rs.
pub mod Paths
use pathforge.Base.{ℕ}

pub data BgpState : Type 0 where
  idle connect active open_sent open_confirm established : BgpState

pub data BgpEvent : Type 0 where
  manual_start manual_stop tcp_connection_confirmed tcp_connection_fail : BgpEvent
  bgp_open keepalive_msg update_msg notif_msg : BgpEvent
  hold_timer_expired keepalive_timer_expired : BgpEvent

-- `Peer::transition`, without the line that it logs.
unfoldable pub transition : BgpState → BgpEvent → BgpState
transition idle manual_start = connect
transition connect tcp_connection_confirmed = open_sent
transition connect tcp_connection_fail = active
transition active tcp_connection_confirmed = open_sent
transition open_sent bgp_open = open_confirm
transition open_confirm keepalive_msg = established
transition established notif_msg = idle
transition established tcp_connection_fail = idle
transition _ manual_stop = idle
transition _ hold_timer_expired = idle
transition state _ = state
