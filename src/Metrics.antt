-- ===== src/Metrics.antt =====
-- src/metrics.rs: the counters, each an unsigned word of 64 bits that wraps.
pub mod Text
use pathforge.Base.{ℕ, ◌+◌, ◌%◌, ◌^◌}

pub record Metrics : Type 0 where
  pub sessions_established : ℕ
  pub sessions_failed : ℕ
  pub sessions_active : ℕ
  pub messages_rx_open : ℕ
  pub messages_rx_keepalive : ℕ
  pub messages_rx_update : ℕ
  pub messages_rx_notification : ℕ
  pub messages_tx_open : ℕ
  pub messages_tx_keepalive : ℕ
  pub messages_tx_update : ℕ
  pub messages_tx_notification : ℕ
  pub routes_received : ℕ
  pub routes_withdrawn : ℕ
  pub routes_loc_rib : ℕ
  pub routes_advertised : ℕ
  pub hold_timer_expirations : ℕ
  pub parse_errors : ℕ
  pub fsm_errors : ℕ

abbrev pub new : Metrics
new = record {
  sessions_established = 0;
  sessions_failed = 0;
  sessions_active = 0;
  messages_rx_open = 0;
  messages_rx_keepalive = 0;
  messages_rx_update = 0;
  messages_rx_notification = 0;
  messages_tx_open = 0;
  messages_tx_keepalive = 0;
  messages_tx_update = 0;
  messages_tx_notification = 0;
  routes_received = 0;
  routes_withdrawn = 0;
  routes_loc_rib = 0;
  routes_advertised = 0;
  hold_timer_expirations = 0;
  parse_errors = 0;
  fsm_errors = 0;
}

-- `fetch_add`, which wraps, and `Metrics::inc`.
abbrev pub fetch_add : ℕ → ℕ → ℕ
fetch_add counter n = (counter + n) % 2 ^ 64

abbrev pub inc : ℕ → ℕ
inc counter = fetch_add counter 1
