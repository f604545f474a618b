-- ===== src/Session/Peer/Messages.antt =====
-- Peer::handle_message of src/peer.rs, without what it logs.
use Prim.Native.String.{String}
use pathforge.Base.{
  ℕ, suc, List, length, min, Option, some, Bool, true, false, ◌&&◌, ◌==◌, if◌then◌else◌, ok, ◌>>=◌,
  call, map_err, Build, and_then,
}
use pathforge.Bytes.{BytesCrate}
use pathforge.Attr.{AttrError, is_empty}
use pathforge.Capabilities.{Capability, parse_from_open_params}
use pathforge.Message.{MessageType, open_type, update, notification, keepalive, route_refresh}
use pathforge.Message.Frame.{BgpMessage}
use pathforge.Message.Open
use pathforge.Message.Open.{OpenMessage}
use pathforge.Message.Update
use pathforge.Message.Update.{UpdateMessage}
use pathforge.Message.Notification
use pathforge.Message.Keepalive
use pathforge.Metrics.{inc, fetch_add}
use pathforge.Rib.{Dampening, Rib, process_update, remove_peer, remove_stale_for_peer}
use pathforge.Rib.Query.{summary}
use pathforge.Session.Fsm.{
  BgpState, open_confirm, transition, bgp_open, keepalive_msg, update_msg, notif_msg,
}
use pathforge.Session.Timers
use pathforge.Session.Timers.{reset_hold_timer, reset_keepalive_timer}
use pathforge.Session.Peer.{Peer, Session, Call, message_error, io_error, write_all}

abbrev pub is_open_confirm : BgpState → Bool
is_open_confirm open_confirm = true
is_open_confirm _ = false

-- What an OPEN sets in the peer.
abbrev pub opened : Peer → OpenMessage → List Capability → ℕ → Peer
opened p open_msg caps now =
    let hold_time = min p.local.hold_time open_msg.hold_time in
    record p {
      peer_capabilities = caps;
      peer_router_id = some open_msg.bgp_id;
      remote_as = open_msg.my_as;
      negotiated_hold_time = hold_time;
      timers = reset_hold_timer (Timers.new hold_time) now;
      state = transition p.state bgp_open;
    }

-- A KEEPALIVE that confirms the OPEN, and any other.
abbrev pub kept_alive : Peer → (ℕ → ℕ) → Peer
kept_alive p clock =
    let timers = reset_hold_timer p.timers (clock 0) in
    if is_open_confirm p.state
    then record p {
      state = transition p.state keepalive_msg;
      timers = reset_keepalive_timer timers (clock 1);
    }
    else record p { timers = timers }

-- The End-of-RIB marker.
abbrev pub is_end_of_rib : UpdateMessage → Bool
is_end_of_rib m = length m.nlri == 0 && length m.withdrawn_routes == 0 && is_empty m.path_attributes

module _ (o : BytesCrate) (d : Dampening) where
  open d use {Table}

  -- The list of capabilities is read without an error.
  unfoldable pub on_open : ℕ → Bool → Session Table → List ℕ → Call Table (Session Table)
  on_open now answer s0 body = do
    let s = record s0 {
      metrics = record s0.metrics { messages_rx_open = inc s0.metrics.messages_rx_open };
    }
    open_msg ← map_err (λ e. (message_error e, s)) (Open.parse o body)
    caps ← map_err (λ _. (io_error, s)) (parse_from_open_params open_msg.optional_params)
    after ←
        write_all answer (Keepalive.serialize o)
          (record s { peer = opened s.peer open_msg caps now })
    ok (record after {
      metrics = record after.metrics {
        messages_tx_keepalive = inc after.metrics.messages_tx_keepalive;
      };
    })

  unfoldable pub on_keepalive : (ℕ → ℕ) → Session Table → Session Table
  on_keepalive clock s = record s {
    peer = kept_alive s.peer clock;
    metrics = record s.metrics {
      messages_rx_keepalive = inc s.metrics.messages_rx_keepalive;
      sessions_established =
          if is_open_confirm s.peer.state
          then inc s.metrics.sessions_established
          else s.metrics.sessions_established;
    };
  }

  -- What an UPDATE does to the RIB; a panic inside unwinds the task.
  unfoldable pub update_rib :
      Build → (ℕ → ℕ) → Peer → UpdateMessage → Rib Table → Option (Rib Table)
  update_rib build clock p m rib =
      and_then
        (process_update d build clock rib p.addr p.remote_as m.nlri m.path_attributes
          m.withdrawn_routes)
        λ after. some (if is_end_of_rib m then (remove_stale_for_peer d after p.addr).0 else after)

  -- `if let Ok(mut rib) = self.rib.write()`
  unfoldable pub store_update :
      Build → (ℕ → ℕ) → UpdateMessage → Session Table → Call Table (Session Table)
  store_update build clock m s = if s.poisoned then ok s else do
    rib ← call (update_rib build clock s.peer m s.rib)
    ok (record s { rib = rib; metrics = record s.metrics { routes_loc_rib = (summary rib).2 } })

  unfoldable pub on_update :
      Build → (AttrError → String) → (ℕ → ℕ) → Session Table → List ℕ → Call Table (Session Table)
  on_update build describe clock s0 body = do
    let s = record s0 {
      metrics = record s0.metrics { messages_rx_update = inc s0.metrics.messages_rx_update };
    }
    m ← map_err (λ e. (message_error e, s)) (Update.parse o describe body)
    store_update build (λ i. clock (suc i)) m
        (record s {
          peer = record s.peer {
            timers = reset_hold_timer s.peer.timers (clock 0);
            state = transition s.peer.state update_msg;
          };
          metrics = record s.metrics {
            routes_received = fetch_add s.metrics.routes_received (length m.nlri);
            routes_withdrawn = fetch_add s.metrics.routes_withdrawn (length m.withdrawn_routes);
          };
        })

  unfoldable pub on_notification : Session Table → List ℕ → Call Table (Session Table)
  on_notification s0 body = do
    let s = record s0 {
      metrics = record s0.metrics {
        messages_rx_notification = inc s0.metrics.messages_rx_notification;
      };
    }
    _ ← map_err (λ e. (message_error e, s)) (Notification.parse o body)
    ok (record s {
      peer = record s.peer { state = transition s.peer.state notif_msg };
      metrics = record s.metrics {
        sessions_failed = inc s.metrics.sessions_failed;
        sessions_active = 0;
      };
      rib = if s.poisoned then s.rib else (remove_peer d s.rib s.peer.addr).0;
    })

  -- `clock` holds what the clock shows at the calls in their order, `answer` is the stream's to the
  -- one write.
  unfoldable pub dispatch :
      Build
      → (AttrError → String)
      → (ℕ → ℕ)
      → Bool
      → Session Table
      → MessageType
      → List ℕ
      → Call Table (Session Table)
  dispatch build describe clock answer s open_type body = on_open (clock 0) answer s body
  dispatch build describe clock answer s keepalive body = ok (on_keepalive clock s)
  dispatch build describe clock answer s update body = on_update build describe clock s body
  dispatch build describe clock answer s notification body = on_notification s body
  dispatch build describe clock answer s route_refresh body = ok s

  unfoldable pub handle_message :
      Build
      → (AttrError → String)
      → (ℕ → ℕ)
      → Bool
      → Session Table
      → BgpMessage
      → Call Table (Session Table)
  handle_message build describe clock answer s msg =
      dispatch build describe clock answer s msg.header.msg_type msg.body
