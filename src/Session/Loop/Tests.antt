-- ===== src/Session/Loop/Tests.antt =====
-- The theorems on the session of src/peer.rs at concrete inputs.
use Prim.Native.String.{String}
use pathforge.Base.{
  ◌≡◌, refl, [], ◌∷◌, ◌++◌, All, IsU8, none, some, true, false, ok, arith, checked,
}
use pathforge.Attr.{AttrError, no_attributes}
use pathforge.Bytes.{listed, listed-IsDocumented}
use pathforge.Capabilities.{new_with_capabilities, graceful_restart}
use pathforge.Message.{update}
use pathforge.Message.Frame.{BgpMessage}
use pathforge.Message.Open
use pathforge.Metrics as MetricsModule
use pathforge.Rpki.{disabled, not_found, validate, should_reject}
use pathforge.Message.Prefix.{Prefix}
use pathforge.Rib.Routes
use pathforge.Rib.Routes.{Route, key_of}
use pathforge.Rib.Decision.{sort_routes, insert_by}
use pathforge.Rib
use pathforge.Rib.{
  Dampening, Rib, process_update, announce_all, decide_all, run_decision_process, candidates,
  record_all, remove_all,
}
use pathforge.Rib.Reachable as Reachable
use pathforge.Session.Fsm.{
  transition, idle, manual_start, tcp_connection_confirmed, open_sent, established,
}
use pathforge.Session.Timers
use pathforge.Session.Timers.{LocalConfig}
use pathforge.Session.Peer as PeerModule
use pathforge.Session.Peer.{Session}
use pathforge.Session.Peer.Messages.{handle_message}
use pathforge.Session.Loop.{
  Turn, receive, expire, timed_out, received, returns, Answers, turn, start, local_caps,
}
use pathforge.Session.Loop.Steps.{Leaves, IsLater}
use pathforge.Session.Loop.Handlers.{handle_message_error}
use pathforge.Session.Loop.Runs.{IsTurned, turn-IsTurned}
use pathforge.Session.Loop.Shared.{Runs, begins}
use pathforge.Session.Loop.Expiry.{
  rib_of, in_state, expired_returns, IsRemoval, disconnects-IsRemoval, IsWithout,
  handle_message_same,
}

abbrev calm : Dampening
calm = record {
  Table = Unit {0};
  record_withdrawal = λ t _ _. t;
  check_advertisement = λ t _ _. (false, t);
  remove_peer = λ t _. t;
}

abbrev describe : AttrError → String
describe e = "attribute"

abbrev local : LocalConfig
local = record { local_as = 65001; router_id = 0x0A00_0001; hold_time = 90 }

abbrev empty_rib : Rib (Unit {0})
empty_rib = Rib.new calm tt (record { mode = disabled; roas = [] })

-- The session of a connection that came in.
abbrev begun : Session (Unit {0})
begun = record {
  peer = record (PeerModule.new 7 0 local) {
    state = transition (transition idle manual_start) tcp_connection_confirmed;
  };
  rib = empty_rib;
  poisoned = false;
  metrics = record MetricsModule.new { sessions_active = 1; messages_tx_open = 1 };
  sent =
      [] ++ Open.serialize listed (new_with_capabilities 65001 90 0x0A00_0001 (local_caps local));
}

begun-start :
    start listed calm checked describe local 7 empty_rib false MetricsModule.new true ≡ ok begun
unfolding start PeerModule.new
begun-start = refl

begun-Runs :
    Runs listed listed-IsDocumented calm checked describe tt
      (record { mode = disabled; roas = [] })
      begun
      []
begun-Runs = begins local 7 empty_rib false MetricsModule.new true Reachable.start begun-start

-- A KEEPALIVE comes in, a second after the start.
abbrev quiet : Answers
quiet = record {
  now = λ _. 1000000000;
  writes = true;
  input = received (
      255 ∷ 255 ∷ 255 ∷ 255 ∷ 255 ∷ 255 ∷ 255 ∷ 255 ∷ 255 ∷ 255 ∷ 255 ∷ 255 ∷ 255 ∷ 255 ∷ 255 ∷ 255
      ∷ 0 ∷ 19 ∷ 4 ∷ []);
  clocks = λ _ _. 1000000000;
  acknowledges = λ _. true;
}

quiet_bytes : All IsU8 (
    255 ∷ 255 ∷ 255 ∷ 255 ∷ 255 ∷ 255 ∷ 255 ∷ 255 ∷ 255 ∷ 255 ∷ 255 ∷ 255 ∷ 255 ∷ 255 ∷ 255 ∷ 255
    ∷ 0 ∷ 19 ∷ 4 ∷ [])
quiet_bytes = omega arith

turn-IsTurned_example :
    Leaves
      (IsLater calm checked begun)
      (IsTurned listed listed-IsDocumented calm checked describe begun)
      (turn listed calm checked describe quiet begun [])
turn-IsTurned_example =
    turn-IsTurned listed listed-IsDocumented calm checked describe quiet begun [] tt quiet_bytes

-- The peer of the session has announced 10.0.0.0/8.
abbrev block : Prefix
block = record { prefix_len = 8; address = 0x0A00_0000 }

abbrev lone_route : Route
lone_route = record {
  prefix = block;
  attrs = no_attributes;
  peer_addr = 7;
  peer_as = 65001;
  received_at = 1;
  stale = false;
  rov_state = not_found;
}

abbrev lone_rib : Rib (Unit {0})
lone_rib = record {
  adj_rib_in = (7, (key_of block, lone_route) ∷ []) ∷ [];
  loc_rib = (key_of block, lone_route) ∷ [];
  dampening = tt;
  rpki = record { mode = disabled; roas = [] };
}

lone_rib-Steps :
    process_update calm checked (λ i. 1) empty_rib 7 65001 (block ∷ []) no_attributes []
    ≡ some lone_rib
unfolding process_update Rib.new announce_all decide_all run_decision_process validate should_reject
    sort_routes insert_by candidates record_all remove_all Routes.new
lone_rib-Steps = refl

lone_rib-Reaches :
    Reachable.Reaches calm checked tt (record { mode = disabled; roas = [] }) lone_rib
lone_rib-Reaches =
    Reachable.step Reachable.start (Reachable.update (λ i. 1) 7 65001 _ _ _ lone_rib-Steps)

-- A session whose hold timer started at 0.
abbrev silent : Session (Unit {0})
silent = record begun {
  rib = lone_rib;
  peer = record begun.peer {
    timers = record {
      hold_time = 3;
      keepalive_interval = 1;
      hold_timer_start = some 0;
      keepalive_timer_start = none;
    };
  };
}

abbrev late : Answers
late = record quiet { now = λ _. 3000000000; input = timed_out }

silent_over : Timers.hold_timer_expired silent.peer.timers (late.now 0) ≡ true
unfolding Timers.hold_timer_expired
silent_over = refl

-- An established session of a peer that announced a graceful restart.
abbrev restarting : Session (Unit {0})
restarting = record begun {
  rib = lone_rib;
  peer = record begun.peer { state = established; peer_capabilities = graceful_restart 120 0 ∷ [] };
}

disconnects-IsRemoval_example :
    ((t : Turn (Unit {0})) × (receive listed calm checked describe
          (λ _ _. 5)
          (λ _. true)
          restarting
          []
          (received [])
        ≡ ok t)
      × IsRemoval listed calm checked describe restarting t)
    × IsRemoval listed calm checked describe restarting
        (expire listed calm checked describe true restarting)
disconnects-IsRemoval_example =
    disconnects-IsRemoval listed calm checked describe (λ _ _. 5) (λ _. true) true restarting []
      refl

expired_returns_example :
    (after : Session (Unit {0})) × (turn listed calm checked describe late silent []
      ≡ ok (returns after none))
    × IsWithout listed calm checked describe silent.peer.addr silent.rib after.rib
expired_returns_example =
    expired_returns listed calm checked describe tt (record { mode = disabled; roas = [] }) late
      silent [] lone_rib-Reaches silent_over refl

-- An UPDATE that is cut short in its withdrawn routes.
abbrev bad_update : BgpMessage
bad_update = record { header = record { total = 23; msg_type = update }; body = 0 ∷ 9 ∷ 0 ∷ 0 ∷ [] }

handle_message_error_example :
    Leaves
      (λ after. after.rib ≡ begun.rib)
      (λ _. Unit {0})
      (handle_message listed calm checked describe (λ _. 5) true begun bad_update)
handle_message_error_example =
    handle_message_error listed listed-IsDocumented calm checked describe (λ _. 5) true begun
      bad_update

handle_message_same_example :
    rib_of listed calm checked describe (
      handle_message listed calm checked describe
        (λ _. 5)
        true
        (in_state listed calm checked describe begun open_sent)
        bad_update)
    ≡ rib_of listed calm checked describe (
        handle_message listed calm checked describe
          (λ _. 5)
          true
          (in_state listed calm checked describe begun established)
          bad_update)
handle_message_same_example =
    handle_message_same listed calm checked describe (λ _. 5) true begun bad_update open_sent
      established
