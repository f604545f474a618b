-- ===== src/Session/Restart.antt =====
-- The choice that Peer::handle_disconnect of src/peer.rs makes between a graceful restart and the
-- removal of the peer's routes.
use pathforge.Base.{ℕ, ◌≡◌, refl, List, [], ◌∷◌, Bool, true, false, ◌&&◌}
use pathforge.Capabilities.{Capability, graceful_restart}
use pathforge.Session.Fsm.{
  BgpState, idle, connect, active, open_sent, open_confirm, established, transition,
  tcp_connection_fail, hold_timer_expired,
}

-- `any(|c| matches!(c, GracefulRestart { .. }))`
unfoldable pub supports_restart : List Capability → Bool
supports_restart [] = false
supports_restart (graceful_restart _ _ ∷ caps) = true
supports_restart (_ ∷ caps) = supports_restart caps

-- The first restart time that the peer announces, or 120.
unfoldable pub restart_time : List Capability → ℕ
restart_time [] = 120
restart_time (graceful_restart seconds _ ∷ caps) = seconds
restart_time (_ ∷ caps) = restart_time caps

abbrev pub is_established : BgpState → Bool
is_established established = true
is_established _ = false

-- Whether the routes are marked stale; otherwise they are removed.
unfoldable pub restarts : List Capability → BgpState → Bool
restarts caps state = supports_restart caps && is_established state

and_false : (b : Bool) → (b && false) ≡ false
and_false true = refl
and_false false = refl

-- Both transitions leave Established, so that the choice behind them is never a restart.
pub transition-never_restarts :
    (caps : List Capability) (state : BgpState)
    → (restarts caps (transition state tcp_connection_fail) ≡ false)
      × (restarts caps (transition state hold_timer_expired) ≡ false)
unfolding restarts transition
transition-never_restarts caps idle = (and_false _, and_false _)
transition-never_restarts caps connect = (and_false _, and_false _)
transition-never_restarts caps active = (and_false _, and_false _)
transition-never_restarts caps open_sent = (and_false _, and_false _)
transition-never_restarts caps open_confirm = (and_false _, and_false _)
transition-never_restarts caps established = (and_false _, and_false _)
