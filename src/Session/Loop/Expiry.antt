-- ===== src/Session/Loop/Expiry.antt =====
-- How a session of src/peer.rs ends, and what its state does not decide.
use Prim.Native.String.{String}
use pathforge.Base.{
  ◌⊎◌, arith, Option-cases, Bool-cases, inl, inr, Option, panic, stuck, suc, ℕ, ◌≡◌, refl, ap, List,
  none, some, Bool, true, false, Outcome, ok, err, ◌>>=◌, Build, get, ◌==◌, map_err, [], subst, sym,
}
use pathforge.Bytes.{BytesCrate}
use pathforge.Attr.{AttrError}
use pathforge.Message.{MessageType, open_type, update, notification, keepalive, route_refresh}
use pathforge.Message.Open
use pathforge.Message.Open.{OpenMessage}
use pathforge.Message.Update
use pathforge.Message.Update.{UpdateMessage}
use pathforge.Message.Notification
use pathforge.Message.Frame.{BgpMessage}
use pathforge.Capabilities.{parse_from_open_params}
use pathforge.Session.Peer.{SessionError, message_error, io_error, Session, Call}
use pathforge.Session.Peer.Messages.{
  handle_message, dispatch, on_open, on_keepalive, on_update, on_notification, store_update,
  update_rib,
}
use pathforge.Rib.{process_update, Dampening, Rib, remove_peer}
use pathforge.Rib.Selection.{remove_peer_lem, IsSelected}
use pathforge.Session.Fsm.{BgpState}
use pathforge.Session.Restart.{restarts, transition-never_restarts}
use pathforge.Session.Timers
use pathforge.Session.Timers.{LocalConfig, BgpTimers}
use pathforge.Session.Peer.Disconnect.{handle_disconnect}
use pathforge.Session.Loop.{Turn, goes_on, received, returns, Answers, turn, expire, receive}
use pathforge.Rib.Fresh.{fresh_of, offers}
use pathforge.Rib.Routes.{PrefixKey, same_key}
use pathforge.Rib.Reachable.{Reaches, step, leave, Reaches-IsSelected}
use pathforge.Rpki.{RpkiValidator}

module _ (o : BytesCrate) (d : Dampening) (build : Build) (describe : AttrError → String) where
  open d use {Table}

  -- The end of the session: no purge is left to be done, and the routes of the peer are removed.
  abbrev pub IsRemoval : Session Table → Turn Table → Type 0
  IsRemoval s (goes_on after buf) = ⊥
  IsRemoval s (returns after later) =
      (later ≡ none) × (after.rib ≡ (remove_peer d s.rib s.peer.addr).0)

  disconnect-IsRemoval :
      (s : Session Table)
      → s.poisoned ≡ false
      → restarts s.peer.peer_capabilities s.peer.state ≡ false
      → IsRemoval s (returns (handle_disconnect d s).0 (handle_disconnect d s).1)
  unfolding handle_disconnect
  disconnect-IsRemoval s free never = rw never (refl, rw free refl)

  expire-IsRemoval :
      (answer : Bool) (s : Session Table)
      → s.poisoned ≡ false
      → IsRemoval s (expire o d build describe answer s)
  unfolding expire
  expire-IsRemoval answer s free =
      disconnect-IsRemoval _ free
        (transition-never_restarts s.peer.peer_capabilities s.peer.state).1

  receive-IsRemoval :
      (clocks : ℕ → ℕ → ℕ) (acknowledges : ℕ → Bool) (s : Session Table) (buf : List ℕ)
      → s.poisoned ≡ false
      → (t : Turn Table) × (receive o d build describe clocks acknowledges s buf (received [])
          ≡ ok t)
        × IsRemoval s t
  unfolding receive
  receive-IsRemoval clocks acknowledges s buf free = (
    _,
    refl,
    disconnect-IsRemoval _ free (transition-never_restarts s.peer.peer_capabilities s.peer.state).0,
  )

  -- A session ends in two ways by itself: the peer closes the connection, or the hold timer expires.
  -- If the lock of the RIB is sound, both return with no purge to be done and with the routes of the
  -- peer removed from the RIB, whatever the state and even if the peer announced a graceful restart.
  pub disconnects-IsRemoval :
      (clocks : ℕ → ℕ → ℕ) (acknowledges : ℕ → Bool) (answer : Bool) (s : Session Table)
      (buf : List ℕ)
      → s.poisoned ≡ false
      → ((t : Turn Table) × (receive o d build describe clocks acknowledges s buf (received [])
            ≡ ok t)
          × IsRemoval s t)
        × IsRemoval s (expire o d build describe answer s)
  disconnects-IsRemoval clocks acknowledges answer s buf free =
      (receive-IsRemoval clocks acknowledges s buf free, expire-IsRemoval answer s free)

  -- The peer has no routes, every other peer has those that it had, and the route of every prefix in
  -- the Loc-RIB is one of those that are left and behind none of them.
  abbrev pub IsWithout : ℕ → Rib Table → Rib Table → Type 0
  IsWithout addr before after =
      (get ◌==◌ addr after.adj_rib_in ≡ none)
      × ((other : ℕ)
          → (addr ≡ other) ⊎ (get ◌==◌ other after.adj_rib_in ≡ get ◌==◌ other before.adj_rib_in))
      × ((key : PrefixKey)
          → IsSelected (fresh_of (get same_key key after.loc_rib)) (offers key after.adj_rib_in))

  removed-IsWithout :
      (table : Table) (rpki : RpkiValidator) (rib : Rib Table) (addr : ℕ)
      → Reaches d build table rpki rib
      → IsWithout addr rib (remove_peer d rib addr).0
  removed-IsWithout table rpki rib addr r =
      let (gone, others, reported) = remove_peer_lem d rib addr in
      (
        gone,
        λ other. elim (Bool-cases (addr == other)) [
          | inl same ↦ inl (ground (arith, same))
          | inr n ↦ inr (others other n)
        ],
        Reaches-IsSelected d build table rpki _ (step r (leave addr)),
      )

  returned :
      (table : Table) (rpki : RpkiValidator) (s : Session Table) (t : Turn Table)
      → Reaches d build table rpki s.rib
      → IsRemoval s t
      → (after : Session Table) × (t ≡ returns after none) × IsWithout s.peer.addr s.rib after.rib
  returned table rpki s (goes_on after buf) r h = absurd h
  returned table rpki s (returns after later) r (now, e) = (
    after,
    ap (returns after) now,
    subst (IsWithout s.peer.addr s.rib) (sym e) (removed-IsWithout table rpki s.rib s.peer.addr r),
  )

  -- Once the hold time is over, with the lock of the RIB sound and a RIB that its operations come to:
  -- the next turn ends the session, whatever the stream answers. No purge is left to be done, the peer
  -- has no routes left, every other peer has those that it had, and the Loc-RIB has for every prefix
  -- a route that is behind none of those left, compared with the stale flag cleared, and none exactly
  -- if none is left.
  pub expired_returns :
      (table : Table) (rpki : RpkiValidator) (a : Answers) (s : Session Table) (buf : List ℕ)
      → Reaches d build table rpki s.rib
      → Timers.hold_timer_expired s.peer.timers (a.now 0) ≡ true
      → s.poisoned ≡ false
      → (after : Session Table) × (turn o d build describe a s buf ≡ ok (returns after none))
        × IsWithout s.peer.addr s.rib after.rib
  unfolding turn
  expired_returns table rpki a s buf r over free =
      let (after, e, w) = returned table rpki s _ r (expire-IsRemoval a.writes s free) in
      (after, rw over (ap ok e), w)

  -- The RIB that a call leaves behind, unless it panics.
  abbrev pub rib_of : Call Table (Session Table) → Option (Rib Table)
  rib_of (ok s) = some s.rib
  rib_of (err (e, s)) = some s.rib
  rib_of panic = none
  rib_of stuck = none

  abbrev pub in_state : Session Table → BgpState → Session Table
  in_state s state = record s { peer = record s.peer { state = state } }

  parse_same :
      {E A : Type 0} (r : Outcome E A) (f : E → SessionError) (s t : Session Table)
      (k l : A → Call Table (Session Table))
      → s.rib ≡ t.rib
      → ((a : A) → rib_of (k a) ≡ rib_of (l a))
      → rib_of (map_err (λ e. (f e, s)) r >>= k) ≡ rib_of (map_err (λ e. (f e, t)) r >>= l)
  parse_same (ok a) f s t k l h g = g a
  parse_same (err e) f s t k l h g = ap some h
  parse_same panic f s t k l h g = refl
  parse_same stuck f s t k l h g = refl

  open_same :
      (now : ℕ) (answer : Bool) (s : Session Table) (body : List ℕ) (x y : BgpState)
      → rib_of (on_open o d now answer (in_state s x) body)
        ≡ rib_of (on_open o d now answer (in_state s y) body)
  unfolding on_open
  open_same now true s body x y = parse_same (Open.parse o body) message_error _ _ _ _ refl λ m.
      parse_same (parse_from_open_params m.optional_params) (λ _. io_error) _ _ _ _ refl λ _. refl
  open_same now false s body x y = parse_same (Open.parse o body) message_error _ _ _ _ refl λ m.
      parse_same (parse_from_open_params m.optional_params) (λ _. io_error) _ _ _ _ refl λ _. refl

  store_same :
      (clock : ℕ → ℕ) (m : UpdateMessage) (s : Session Table) (y : BgpState)
      → rib_of (store_update o d build clock m s)
        ≡ rib_of (store_update o d build clock m (in_state s y))
  unfolding store_update update_rib
  store_same clock m s y = elim (Bool-cases s.poisoned) [
    | inl locked ↦ rw locked refl
    | inr free ↦
        rw free
          (elim (Option-cases (
            process_update d build clock s.rib s.peer.addr s.peer.remote_as m.nlri m.path_attributes
              m.withdrawn_routes)) [ inl e ↦ rw e refl | inr (rib, e) ↦ rw e refl ])
  ]

  update_same :
      (clock : ℕ → ℕ) (s : Session Table) (body : List ℕ) (x y : BgpState)
      → rib_of (on_update o d build describe clock (in_state s x) body)
        ≡ rib_of (on_update o d build describe clock (in_state s y) body)
  unfolding on_update
  update_same clock s body x y =
      parse_same (Update.parse o describe body) message_error _ _ _ _ refl
        λ m. store_same (λ i. clock (suc i)) m _ _

  notification_same :
      (s : Session Table) (body : List ℕ) (x y : BgpState)
      → rib_of (on_notification o d (in_state s x) body)
        ≡ rib_of (on_notification o d (in_state s y) body)
  unfolding on_notification
  notification_same s body x y =
      parse_same (Notification.parse o body) message_error _ _ _ _ refl λ _. refl

  dispatch_same :
      (clock : ℕ → ℕ) (answer : Bool) (s : Session Table) (t : MessageType) (body : List ℕ)
      (x y : BgpState)
      → rib_of (dispatch o d build describe clock answer (in_state s x) t body)
        ≡ rib_of (dispatch o d build describe clock answer (in_state s y) t body)
  unfolding dispatch on_keepalive
  dispatch_same clock answer s open_type body x y = open_same (clock 0) answer s body x y
  dispatch_same clock answer s update body x y = update_same clock s body x y
  dispatch_same clock answer s notification body x y = notification_same s body x y
  dispatch_same clock answer s keepalive body x y = refl
  dispatch_same clock answer s route_refresh body x y = refl

  -- What a message does to the RIB does not depend on the state of the session: the routes of an
  -- UPDATE are taken before an OPEN as they are in Established.
  pub handle_message_same :
      (clock : ℕ → ℕ) (answer : Bool) (s : Session Table) (msg : BgpMessage) (x y : BgpState)
      → rib_of (handle_message o d build describe clock answer (in_state s x) msg)
        ≡ rib_of (handle_message o d build describe clock answer (in_state s y) msg)
  unfolding handle_message
  handle_message_same clock answer s msg x y =
      dispatch_same clock answer s msg.header.msg_type msg.body x y
