-- ===== src/Session/Tests.antt =====
-- The theorems on the state machine and the timers at concrete inputs.
use pathforge.Base.{◌+◌, ◌≤◌, ◌/◌, ◌≡◌, ◌↔◌, true, List, [], ◌∷◌, arith}
use pathforge.Session.Fsm.{
  BgpEvent, idle, established, manual_start, tcp_connection_confirmed, bgp_open, keepalive_msg,
  transition,
}
use pathforge.Session.Fsm.Paths.{Reaches, start, step, IsDueTo, Reaches-IsDueTo}
use pathforge.Session.Timers.{new, reset_keepalive_timer, keepalive_due, from_secs}
use pathforge.Session.Timers.Deadline.{keepalive_due_iff}

-- The events of an incoming session, the last one first.
abbrev events : List BgpEvent
events = keepalive_msg ∷ bgp_open ∷ tcp_connection_confirmed ∷ manual_start ∷ []

incoming : Reaches idle events established
unfolding transition
incoming = step _ _ _ (step _ _ _ (step _ _ _ (step _ _ _ start)))

Reaches-IsDueTo_example : IsDueTo established events
Reaches-IsDueTo_example = Reaches-IsDueTo events established incoming

keepalive_due_iff_example :
    (keepalive_due (reset_keepalive_timer (new 2) 5) 90000000005 ≡ true)
    ↔ ((3 ≤ 2) × (5 + from_secs (2 / 3) ≤ 90000000005))
keepalive_due_iff_example = keepalive_due_iff 2 5 90000000005 (omega arith)
