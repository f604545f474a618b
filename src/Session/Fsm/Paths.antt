-- ===== src/Session/Fsm/Paths.antt =====
-- The ways through the state machine: what has to happen before a session is established.
use pathforge.Base.{◌≡◌, ◌⊎◌, inl, inr, refl, List, [], ◌∷◌}
use pathforge.Session.Fsm.{
  BgpState, idle, connect, active, open_sent, open_confirm, established, BgpEvent, manual_start,
  tcp_connection_confirmed, bgp_open, keepalive_msg, transition, manual_stop, hold_timer_expired,
  notif_msg, tcp_connection_fail,
}

-- A run of the machine: the events, the last one first, and the state after them.
pub data Reaches (s : BgpState) : List BgpEvent → BgpState → Type 0 where
  start : Reaches s [] s
  step :
      (es : List BgpEvent) (t : BgpState) (e : BgpEvent)
      → Reaches s es t
      → Reaches s (e ∷ es) (transition t e)

-- The event occurs, and behind it (before it in time) `P` holds of the rest.
abbrev pub Occurs : BgpEvent → (List BgpEvent → Type 0) → List BgpEvent → Type 0
Occurs e P [] = ⊥
Occurs e P (x ∷ es) = ((x ≡ e) × P es) ⊎ Occurs e P es

-- What the events must hold, in this order, for the machine to stand in a state.
abbrev pub Dialled : List BgpEvent → Type 0
Dialled es = Occurs tcp_connection_confirmed (Occurs manual_start (λ _. Unit {0})) es

abbrev pub IsDueTo : BgpState → List BgpEvent → Type 0
IsDueTo idle es = Unit {0}
IsDueTo connect es = Occurs manual_start (λ _. Unit {0}) es
IsDueTo active es = Occurs manual_start (λ _. Unit {0}) es
IsDueTo open_sent es = Dialled es
IsDueTo open_confirm es = Occurs bgp_open Dialled es
IsDueTo established es = Occurs keepalive_msg (Occurs bgp_open Dialled) es

-- One event keeps the account.
transition-IsDueTo :
    (t : BgpState) (e : BgpEvent) (es : List BgpEvent)
    → IsDueTo t es
    → IsDueTo (transition t e) (e ∷ es)
unfolding transition
transition-IsDueTo idle manual_start es h = inl (refl, tt)
transition-IsDueTo idle _ es h = tt
transition-IsDueTo connect tcp_connection_confirmed es h = inl (refl, h)
transition-IsDueTo connect manual_stop es h = tt
transition-IsDueTo connect hold_timer_expired es h = tt
transition-IsDueTo connect _ es h = inr h
transition-IsDueTo active tcp_connection_confirmed es h = inl (refl, h)
transition-IsDueTo active manual_stop es h = tt
transition-IsDueTo active hold_timer_expired es h = tt
transition-IsDueTo active _ es h = inr h
transition-IsDueTo open_sent bgp_open es h = inl (refl, h)
transition-IsDueTo open_sent manual_stop es h = tt
transition-IsDueTo open_sent hold_timer_expired es h = tt
transition-IsDueTo open_sent _ es h = inr h
transition-IsDueTo open_confirm keepalive_msg es h = inl (refl, h)
transition-IsDueTo open_confirm manual_stop es h = tt
transition-IsDueTo open_confirm hold_timer_expired es h = tt
transition-IsDueTo open_confirm _ es h = inr h
transition-IsDueTo established notif_msg es h = tt
transition-IsDueTo established tcp_connection_fail es h = tt
transition-IsDueTo established manual_stop es h = tt
transition-IsDueTo established hold_timer_expired es h = tt
transition-IsDueTo established _ es h = inr h

-- From Idle the session is established only after a start, then a connection, then an OPEN, then a
-- KEEPALIVE, whatever other events lie between, and each earlier state needs the first of these.
pub Reaches-IsDueTo : (es : List BgpEvent) (t : BgpState) → Reaches idle es t → IsDueTo t es
Reaches-IsDueTo _ _ start = tt
Reaches-IsDueTo _ _ (step es t e r) = transition-IsDueTo t e es (Reaches-IsDueTo es t r)
