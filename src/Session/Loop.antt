-- ===== src/Session/Loop.antt =====
-- Peer::run_session and Peer::handle_incoming of src/peer.rs. What the stream answers and what the
-- clock shows are arguments.
pub mod Steps
pub mod Handlers
pub mod Runs
pub mod Shared
pub mod Expiry
mod Tests
use Prim.Native.String.{String}
use pathforge.Base.{
  none, some, ℕ, zero, suc, List, [], ◌∷◌, ◌++◌, length, min, Option, Bool, ◌&&◌, if◌then◌else◌,
  Outcome, ok, err, stuck, ◌>>=◌, map_err, Build,
}
use pathforge.Bytes.{BytesCrate}
use pathforge.Attr.{AttrError}
use pathforge.Capabilities.{
  Capability, four_octet_asn, route_refresh, multi_protocol, graceful_restart,
  new_with_capabilities,
}
use pathforge.Message.Frame
use pathforge.Message.Frame.{BgpMessage}
use pathforge.Message.Open
use pathforge.Message.Notification
use pathforge.Message.Notification.{hold_timer_expired}
use pathforge.Message.Keepalive
use pathforge.Metrics.{Metrics, inc}
use pathforge.Rib.{Dampening, Rib}
use pathforge.Session.Fsm.{transition, manual_start, tcp_connection_confirmed, tcp_connection_fail}
use pathforge.Session.Fsm as Fsm
use pathforge.Session.Restart.{is_established}
use pathforge.Session.Timers
use pathforge.Session.Timers.{LocalConfig, keepalive_due, reset_keepalive_timer}
use pathforge.Session.Peer as PeerModule
use pathforge.Session.Peer.{Peer, Session, Call, message_error, io_error, write_all}
use pathforge.Session.Peer.Messages.{handle_message}
use pathforge.Session.Peer.Disconnect.{handle_disconnect}

-- What `select!` comes back with: the bytes of a read, none of them if the peer has closed, an error
-- of the read, or the end of the 100 milliseconds.
pub data Input : Type 0 where
  received : List ℕ → Input
  read_failed : Input
  timed_out : Input

-- How a turn of the loop ends: in the next, with the bytes that wait for the rest of a message, or
-- with the return of the function, and the seconds after which a purge runs, if one is to.
pub data Turn (Table : Type 0) : Type 0 where
  goes_on : Session Table → List ℕ → Turn Table
  returns : Session Table → Option ℕ → Turn Table

-- What the outside answers in a turn: the clock at the calls of the turn itself, the stream at the
-- write before the read, the read, and for each message the clock and the stream at its write.
pub record Answers : Type 0 where
  pub now : ℕ → ℕ
  pub writes : Bool
  pub input : Input
  pub clocks : ℕ → ℕ → ℕ
  pub acknowledges : ℕ → Bool

unfoldable pub local_caps : LocalConfig → List Capability
local_caps local =
    four_octet_asn local.local_as ∷ route_refresh ∷ multi_protocol 1 1 ∷ graceful_restart 120 0 ∷ []

module _ {Table : Type 0} where
  -- `while let`: the end of the loop, or its body for a message.
  abbrev pub for_found :
      {A : Type 0} → Option BgpMessage → Call Table A → (BgpMessage → Call Table A) → Call Table A
  for_found none end body = end
  for_found (some msg) end body = body msg

  -- The connection is gone.
  abbrev pub failed : Session Table → Session Table
  failed s = record s {
    peer = record s.peer { state = transition s.peer.state tcp_connection_fail };
  }

module _ (o : BytesCrate) (d : Dampening) (build : Build) (describe : AttrError → String) where
  open d use {Table}

  -- `while let Some(msg) = BgpMessage::parse(&mut buf)?`; `i` counts the messages of the turn. A
  -- message takes its header off the buffer, so that the bytes in it are fuel enough.
  unfoldable pub handle_all :
      ℕ
      → (ℕ → ℕ → ℕ)
      → (ℕ → Bool)
      → ℕ
      → Session Table
      → List ℕ
      → Call Table (Session Table × List ℕ)
  handle_all zero clocks acknowledges i s buf = stuck
  handle_all (suc fuel) clocks acknowledges i s buf =
      map_err (λ e. (message_error e, s)) (Frame.parse o buf) >>= λ (found, rest).
      for_found found (ok (s, rest)) λ msg.
        handle_message o d build describe (clocks i) (acknowledges i) s msg >>= λ after.
        handle_all fuel clocks acknowledges (suc i) after rest

  -- The hold timer has expired. Whether the NOTIFICATION is written is not looked at.
  unfoldable pub expire : Bool → Session Table → Turn Table
  expire answer s =
      let (after, later) = handle_disconnect d (record s {
        peer = record s.peer { state = transition s.peer.state Fsm.hold_timer_expired };
        sent = if answer then s.sent ++ Notification.serialize o hold_timer_expired else s.sent;
        metrics = record s.metrics {
          hold_timer_expirations = inc s.metrics.hold_timer_expirations;
          messages_tx_notification = inc s.metrics.messages_tx_notification;
          sessions_failed = inc s.metrics.sessions_failed;
          sessions_active = 0;
        };
      }) in
      returns after later

  unfoldable pub send_due : (ℕ → ℕ) → Bool → Session Table → Call Table (Session Table)
  send_due now answer s =
      if is_established s.peer.state && keepalive_due s.peer.timers (now 1)
      then (write_all answer (Keepalive.serialize o) s >>= λ after. ok (record after {
        peer = record after.peer { timers = reset_keepalive_timer after.peer.timers (now 2) };
        metrics = record after.metrics {
          messages_tx_keepalive = inc after.metrics.messages_tx_keepalive;
        };
      }))
      else ok s

  unfoldable pub receive :
      (ℕ → ℕ → ℕ) → (ℕ → Bool) → Session Table → List ℕ → Input → Call Table (Turn Table)
  receive clocks acknowledges s buf timed_out = ok (goes_on s buf)
  receive clocks acknowledges s buf read_failed = err (io_error, failed s)
  receive clocks acknowledges s buf (received []) =
      let (after, later) =
        handle_disconnect d
          (record (failed s) { metrics = record s.metrics { sessions_active = 0 } }) in
      ok (returns after later)
  receive clocks acknowledges s buf (received (b ∷ bytes)) =
      let whole = buf ++ (b ∷ bytes) in
      handle_all (suc (length whole)) clocks acknowledges 0 s whole >>= λ (after, rest).
      ok (goes_on after rest)

  -- One turn of the loop.
  unfoldable pub turn : Answers → Session Table → List ℕ → Call Table (Turn Table)
  turn a s buf =
      if Timers.hold_timer_expired s.peer.timers (a.now 0)
      then ok (expire a.writes s)
      else send_due a.now a.writes s >>= λ after. receive a.clocks a.acknowledges after buf a.input

  -- `handle_incoming` as far as the loop: the session of a connection that came in, and its OPEN.
  unfoldable pub start :
      LocalConfig → ℕ → Rib Table → Bool → Metrics → Bool → Call Table (Session Table)
  start local addr rib poisoned metrics answer =
      let fresh = PeerModule.new addr 0 local in
      let state = transition (transition fresh.state manual_start) tcp_connection_confirmed in
      let open_msg =
        new_with_capabilities (min local.local_as 65535) local.hold_time local.router_id
          (local_caps local) in
      write_all answer (Open.serialize o open_msg) (record {
        peer = record fresh { state = state };
        rib = rib;
        poisoned = poisoned;
        metrics = record metrics {
          sessions_active = inc metrics.sessions_active;
          messages_tx_open = inc metrics.messages_tx_open;
        };
        sent = [];
      })
