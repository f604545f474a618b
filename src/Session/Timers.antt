-- ===== src/Session/Timers.antt =====
-- BgpTimers and LocalConfig of src/timer.rs. An Instant is the number of nanoseconds on the
-- monotonic clock; `now` is what the clock shows at the call.
pub mod Deadline
use pathforge.Base.{
  ℕ, ◌+◌, ◌-◌, ◌*◌, ◌/◌, Option, none, some, Bool, true, false, ltb, leb, ◌==◌, if◌then◌else◌,
}

pub record BgpTimers : Type 0 where
  pub hold_time : ℕ
  pub keepalive_interval : ℕ
  pub hold_timer_start : Option ℕ
  pub keepalive_timer_start : Option ℕ

unfoldable pub new : ℕ → BgpTimers
new hold_time = record {
  hold_time = hold_time;
  keepalive_interval = if ltb 0 hold_time then hold_time / 3 else 0;
  hold_timer_start = none;
  keepalive_timer_start = none;
}

unfoldable pub reset_hold_timer : BgpTimers → ℕ → BgpTimers
reset_hold_timer t now = record t {
  hold_timer_start = if ltb 0 t.hold_time then some now else t.hold_timer_start;
}

unfoldable pub reset_keepalive_timer : BgpTimers → ℕ → BgpTimers
reset_keepalive_timer t now = record t {
  keepalive_timer_start = if ltb 0 t.keepalive_interval then some now else t.keepalive_timer_start;
}

-- `Duration::from_secs`
abbrev pub from_secs : ℕ → ℕ
from_secs n = n * 1000000000

-- `start.elapsed() >= d`; `unset` is the answer for a timer that was not started.
abbrev pub elapsed : Option ℕ → ℕ → ℕ → Bool → Bool
elapsed none now d unset = unset
elapsed (some start) now d unset = leb d (now - start)

unfoldable pub hold_timer_expired : BgpTimers → ℕ → Bool
hold_timer_expired t now =
    if t.hold_time == 0 then false else elapsed t.hold_timer_start now (from_secs t.hold_time) false

unfoldable pub keepalive_due : BgpTimers → ℕ → Bool
keepalive_due t now =
    if t.keepalive_interval == 0
    then false
    else elapsed t.keepalive_timer_start now (from_secs t.keepalive_interval) true

pub record LocalConfig : Type 0 where
  pub local_as : ℕ
  pub router_id : ℕ
  pub hold_time : ℕ

unfoldable pub new_local : ℕ → ℕ → LocalConfig
new_local local_as router_id = record { local_as = local_as; router_id = router_id; hold_time = 90 }
