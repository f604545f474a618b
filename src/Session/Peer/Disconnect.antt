-- ===== src/Session/Peer/Disconnect.antt =====
-- Peer::handle_disconnect of src/peer.rs.
use pathforge.Base.{ℕ, Option, none, some, Bool, if◌then◌else◌}
use pathforge.Rib.{Dampening, Rib, mark_peer_stale, remove_peer, remove_stale_for_peer}
use pathforge.Session.Restart.{restarts, restart_time}
use pathforge.Session.Peer.{Session}

module _ (d : Dampening) where
  open d use {Table}

  -- The session, and after how many seconds the task purges that is spawned, if one is.
  unfoldable pub handle_disconnect : Session Table → Session Table × Option ℕ
  handle_disconnect s =
      if restarts s.peer.peer_capabilities s.peer.state
      then (
        record s { rib = if s.poisoned then s.rib else mark_peer_stale d s.rib s.peer.addr },
        some (restart_time s.peer.peer_capabilities),
      )
      else (
        record s { rib = if s.poisoned then s.rib else (remove_peer d s.rib s.peer.addr).0 },
        none,
      )

  -- What the spawned task does once the time is over.
  unfoldable pub purge : Bool → Rib Table → ℕ → Rib Table
  purge poisoned rib addr = if poisoned then rib else (remove_stale_for_peer d rib addr).0
