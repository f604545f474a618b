-- ===== src/Session/Peer.antt =====
-- struct Peer of src/peer.rs and what the handlers of a session work on.
pub mod Messages
pub mod Disconnect
use pathforge.Base.{ℕ, List, [], ◌++◌, Option, none, some, Bool, true, false, Outcome, ok, err}
use pathforge.Capabilities.{Capability}
use pathforge.Message.{MessageError}
use pathforge.Metrics.{Metrics}
use pathforge.Rib.{Rib}
use pathforge.Session.Fsm.{BgpState, idle}
use pathforge.Session.Timers
use pathforge.Session.Timers.{BgpTimers, LocalConfig}

-- The RIB and the metrics, which the source has here behind an Arc, are beside it in `Session`.
pub record Peer : Type 0 where
  pub addr : ℕ
  pub remote_as : ℕ
  pub local : LocalConfig
  pub state : BgpState
  pub timers : BgpTimers
  pub negotiated_hold_time : ℕ
  pub peer_router_id : Option ℕ
  pub peer_capabilities : List Capability

unfoldable pub new : ℕ → ℕ → LocalConfig → Peer
new addr remote_as local = record {
  addr = addr;
  remote_as = remote_as;
  local = local;
  state = idle;
  timers = Timers.new local.hold_time;
  negotiated_hold_time = 90;
  peer_router_id = none;
  peer_capabilities = [];
}

-- A peer with the state that it shares with the other sessions, as the session finds it, and the
-- bytes that it has written. `poisoned` says whether another task panicked with the lock of the RIB
-- in its hands, so that `write()` is an error from then on.
pub record Session (Table : Type 0) : Type 0 where
  pub peer : Peer
  pub rib : Rib Table
  pub poisoned : Bool
  pub metrics : Metrics
  pub sent : List ℕ

-- The errors that end a session: of a parser, or of the stream.
pub data SessionError : Type 0 where
  message_error : MessageError → SessionError
  io_error : SessionError

-- A call on a session: what an error leaves behind stands beside it.
abbrev pub Call : Type 0 → Type 0 → Type 0
Call Table A = Outcome (SessionError × Session Table) A

module _ {Table : Type 0} where
  -- `write_all(..).await?`, which the stream answers with `answer`.
  abbrev pub write_all : Bool → List ℕ → Session Table → Call Table (Session Table)
  write_all true bytes s = ok (record s { sent = s.sent ++ bytes })
  write_all false bytes s = err (io_error, s)
