-- ===== src/Session/Timers/Deadline.antt =====
-- When the two timers of src/timer.rs fire, counted from their last reset.
use pathforge.Base.{ℕ, ◌+◌, ◌/◌, ◌≤◌, ◌<◌, ◌≡◌, ◌↔◌, true, arith}
use pathforge.Session.Timers.{
  new, reset_hold_timer, reset_keepalive_timer, hold_timer_expired, keepalive_due, from_secs,
}

-- The hold timer of a session with hold time `h`, reset at `start`, has expired at `now` exactly if
-- `h` is not 0 and `h` seconds have gone by.
hold_timer_expired_iff :
    (h start now : ℕ)
    → start ≤ now
    → (hold_timer_expired (reset_hold_timer (new h) start) now ≡ true)
      ↔ ((0 < h) × (start + from_secs h ≤ now))
unfolding new reset_hold_timer hold_timer_expired
hold_timer_expired_iff h start now later = ground arith

-- A KEEPALIVE is due at `now`, after one at `start`, exactly if the hold time is 3 seconds or more
-- and a third of it, cut to whole seconds, has gone by: with a hold time of 1 or 2 none is ever due.
pub keepalive_due_iff :
    (h start now : ℕ)
    → start ≤ now
    → (keepalive_due (reset_keepalive_timer (new h) start) now ≡ true)
      ↔ ((3 ≤ h) × (start + from_secs (h / 3) ≤ now))
unfolding new reset_keepalive_timer keepalive_due
keepalive_due_iff h start now later = ground arith
