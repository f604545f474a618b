-- ===== src/Metrics/Text.antt =====
-- The two texts that src/metrics.rs makes of the counters.
use Prim.Native.String.{String}
use pathforge.Base.{ℕ, List, ◌++◌}
use pathforge.Metrics.{Metrics}
use pathforge.Text.{chars, show_number}

-- What the macros `gauge!` and `counter!` push for one metric.
unfoldable pub metric_lines : String → String → String → ℕ → List ℕ
metric_lines kind name help value =
    chars "# HELP "
    ++ chars name
    ++ chars " "
    ++ chars help
    ++ chars "\n# TYPE "
    ++ chars name
    ++ chars " "
    ++ chars kind
    ++ chars "\n"
    ++ chars name
    ++ chars " "
    ++ show_number value
    ++ chars "\n"

abbrev pub gauge : String → String → ℕ → List ℕ
gauge name help value = metric_lines "gauge" name help value

abbrev pub counter : String → String → ℕ → List ℕ
counter name help value = metric_lines "counter" name help value

unfoldable pub prometheus_text : Metrics → List ℕ
prometheus_text m =
    gauge "bgp_sessions_active" "Currently active BGP sessions" m.sessions_active
    ++ counter "bgp_sessions_established_total" "Total BGP sessions ever established"
        m.sessions_established
    ++ counter "bgp_sessions_failed_total" "Total BGP session failures" m.sessions_failed
    ++ counter "bgp_messages_received_total{type=\"open\"}" "OPEN messages received"
        m.messages_rx_open
    ++ counter "bgp_messages_received_total{type=\"keepalive\"}" "KEEPALIVE messages received"
        m.messages_rx_keepalive
    ++ counter "bgp_messages_received_total{type=\"update\"}" "UPDATE messages received"
        m.messages_rx_update
    ++ counter "bgp_messages_received_total{type=\"notification\"}" "NOTIFICATION messages received"
        m.messages_rx_notification
    ++ counter "bgp_messages_sent_total{type=\"open\"}" "OPEN messages sent" m.messages_tx_open
    ++ counter "bgp_messages_sent_total{type=\"keepalive\"}" "KEEPALIVE messages sent"
        m.messages_tx_keepalive
    ++ counter "bgp_messages_sent_total{type=\"update\"}" "UPDATE messages sent"
        m.messages_tx_update
    ++ counter "bgp_messages_sent_total{type=\"notification\"}" "NOTIFICATION messages sent"
        m.messages_tx_notification
    ++ counter "bgp_routes_received_total" "Total routes received (NLRI)" m.routes_received
    ++ counter "bgp_routes_withdrawn_total" "Total routes withdrawn" m.routes_withdrawn
    ++ gauge "bgp_routes_loc_rib" "Current routes in Loc-RIB" m.routes_loc_rib
    ++ counter "bgp_routes_advertised_total" "Total routes advertised to peers" m.routes_advertised
    ++ counter "bgp_hold_timer_expirations_total" "Hold timer expiration events"
        m.hold_timer_expirations
    ++ counter "bgp_parse_errors_total" "BGP message parse errors" m.parse_errors
    ++ counter "bgp_fsm_errors_total" "BGP FSM state errors" m.fsm_errors

-- A counter between the text in front of it and the text behind it. The source's `\` at the end of a
-- line drops the spaces that the next line starts with.
unfoldable pub labelled : String → ℕ → String → List ℕ
labelled front value back = chars front ++ show_number value ++ chars back

unfoldable pub text_summary : Metrics → List ℕ
text_summary m =
    chars "PathForge BGP Metrics\n=====================\nSessions:\n"
    ++ labelled "active:      " m.sessions_active "\n"
    ++ labelled "established: " m.sessions_established " (total)\n"
    ++ labelled "failed:      " m.sessions_failed " (total)\n"
    ++ chars "Messages received:\n"
    ++ labelled "OPEN:         " m.messages_rx_open "\n"
    ++ labelled "KEEPALIVE:    " m.messages_rx_keepalive "\n"
    ++ labelled "UPDATE:       " m.messages_rx_update "\n"
    ++ labelled "NOTIFICATION: " m.messages_rx_notification "\n"
    ++ chars "Messages sent:\n"
    ++ labelled "OPEN:         " m.messages_tx_open "\n"
    ++ labelled "KEEPALIVE:    " m.messages_tx_keepalive "\n"
    ++ labelled "UPDATE:       " m.messages_tx_update "\n"
    ++ labelled "NOTIFICATION: " m.messages_tx_notification "\n"
    ++ chars "Routes:\n"
    ++ labelled "Loc-RIB:    " m.routes_loc_rib "\n"
    ++ labelled "received:   " m.routes_received " (total)\n"
    ++ labelled "withdrawn:  " m.routes_withdrawn " (total)\n"
    ++ labelled "advertised: " m.routes_advertised " (total)\n"
    ++ chars "Errors:\n"
    ++ labelled "hold timer:  " m.hold_timer_expirations "\n"
    ++ labelled "parse:       " m.parse_errors "\n"
    ++ labelled "fsm:         " m.fsm_errors "\n"
