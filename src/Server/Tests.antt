-- ===== src/Server/Tests.antt =====
-- The server at a concrete world: a connection comes in.
use pathforge.Server.Moves.{turns, Serves, opens, moves, accepts}
use pathforge.Server.Worlds.{Serves-IsSelected}
use pathforge.Base.{
  All, Option, none, ◌++◌, arith, ◌≡◌, refl, [], ◌∷◌, some, true, false, checked, get,
}
use pathforge.Server.Held.{IsHeldFor, Serves-IsHeldFor}
use pathforge.Message.{try_from, marker}
use pathforge.Attr.Parse as AttrParse
use pathforge.Attr.Parse.{parse_attributes}
use pathforge.Message.Frame
use pathforge.Message.Header
use pathforge.Message.Prefix
use pathforge.Message.Prefix.{fill_array, parse_all}
use pathforge.Message.Update
use pathforge.Message.Update.{parse_rest}
use pathforge.Rib.{
  process_update, record_all, announce_all, decide_all, run_decision_process, candidates,
  remove_all, Dampening,
}
use pathforge.Rib.Decision.{sort_routes, insert_by}
use pathforge.Rib.Query.{summary}
use pathforge.Rib.Routes
use pathforge.Rpki.{validate, should_reject, disabled, RpkiValidator}
use pathforge.Server.{Task, run_task, settle, World, new, accept, admit}
use pathforge.Server.Listed.{HasSameTables, Serves-HasSameTables}
use pathforge.Mgmt.Tables.Texts.{HasAllRows}
use pathforge.Session.Loop.{
  Answers, received, turn, receive, send_due, handle_all, start, local_caps,
}
use pathforge.Session.Peer.Messages.{handle_message, dispatch, on_update, store_update, update_rib}
use pathforge.Session.Timers
use pathforge.Session.Timers.{hold_timer_expired, keepalive_due, reset_hold_timer, LocalConfig}
use pathforge.Mgmt.{Host, process_command}
use pathforge.Mgmt.Peers
use pathforge.Rib.Routes.{PrefixKey, Route, same_key}
use pathforge.Server.Shown.{IsAnswer, shared_of, process_command-IsAnswer}
use pathforge.Text.{chars, show_addr}
use pathforge.Text.Shown.{show_key}
use Prim.Native.String.{String}
use pathforge.Attr.{AttrError}
use pathforge.Bytes.{listed, listed-IsDocumented}
use pathforge.Capabilities.{new_with_capabilities}
use pathforge.Message.Open
use pathforge.Metrics as MetricsModule
use pathforge.Rib
use pathforge.Rib.Fresh.{fresh_of, offers}
use pathforge.Rib.Selection.{IsSelected}
use pathforge.Session.Fsm.{transition, idle, manual_start, tcp_connection_confirmed}
use pathforge.Session.Peer as PeerModule

abbrev calm : Dampening
calm = record {
  Table = Unit {0};
  record_withdrawal = λ t _ _. t;
  check_advertisement = λ t _ _. (false, t);
  remove_peer = λ t _. t;
}

abbrev describe : AttrError → String
describe e = "attribute"

abbrev local : LocalConfig
local = record { local_as = 65001; router_id = 0x0A00_0001; hold_time = 90 }

abbrev lenient : RpkiValidator
lenient = record { mode = disabled; roas = [] }

abbrev first_task : Task
first_task = record {
  peer = record (PeerModule.new 7 0 local) {
    state = transition (transition idle manual_start) tcp_connection_confirmed;
  };
  sent =
      [] ++ Open.serialize listed (new_with_capabilities 65001 90 0x0A00_0001 (local_caps local));
  buf = [];
}

abbrev busy : World (Unit {0})
busy = record {
  local = local;
  rib = Rib.new calm tt lenient;
  poisoned = false;
  metrics = record MetricsModule.new { sessions_active = 1; messages_tx_open = 1 };
  tasks = first_task ∷ [];
  purges = [];
}

busy-accept :
    accept listed calm checked describe
      (new listed calm checked describe local MetricsModule.new tt lenient)
      7
      true
    ≡ some busy
unfolding accept admit new start PeerModule.new
busy-accept = refl

busy-Serves : Serves listed listed-IsDocumented calm checked describe local tt lenient busy
busy-Serves = moves (opens MetricsModule.new) (accepts 7 true busy-accept)

abbrev lab : Host
lab = record {
  show_socket = λ a. show_addr a ++ chars ":179";
  show_ip = show_addr;
  pkg_version = chars "0.1.0";
  rustc_version = none;
}

abbrev net : PrefixKey
net = record { address = 0x0A00_0000; prefix_len = 8 }

-- An UPDATE with one prefix comes in.
abbrev told : Answers
told = record {
  now = λ _. 1000000000;
  writes = true;
  input = received (marker ++ (0 ∷ 25 ∷ 2 ∷ 0 ∷ 0 ∷ 0 ∷ 0 ∷ 8 ∷ 10 ∷ []));
  clocks = λ _ _. 1000000000;
  acknowledges = λ _. true;
}

abbrev world_or : World (Unit {0}) → Option (World (Unit {0})) → World (Unit {0})
world_or w none = w
world_or w (some after) = after

abbrev taught : World (Unit {0})
taught = world_or busy (run_task listed calm checked describe told busy [] first_task [])

taught-run_task :
    (run_task listed calm checked describe told busy [] first_task [] ≡ some taught)
    × (taught.poisoned ≡ false)
unfolding run_task settle turn receive send_due handle_all handle_message dispatch on_update
    store_update update_rib process_update record_all announce_all decide_all run_decision_process
    candidates remove_all sort_routes insert_by Rib.new Frame.parse Header.parse Update.parse
    parse_rest Prefix.parse fill_array parse_all AttrParse.parse parse_attributes Routes.new
    validate should_reject hold_timer_expired keepalive_due PeerModule.new Timers.new
    reset_hold_timer summary transition try_from
taught-run_task = (refl, refl)

taught-Serves : Serves listed listed-IsDocumented calm checked describe local tt lenient taught
taught-Serves = moves busy-Serves (turns told [] first_task [] refl (omega arith) taught-run_task.0)

-- Two prefixes come in, in the one order and in the other.
abbrev there : Answers
there = record told {
  input = received (marker ++ (0 ∷ 27 ∷ 2 ∷ 0 ∷ 0 ∷ 0 ∷ 0 ∷ 8 ∷ 10 ∷ 8 ∷ 11 ∷ []));
}

abbrev back : Answers
back = record told {
  input = received (marker ++ (0 ∷ 27 ∷ 2 ∷ 0 ∷ 0 ∷ 0 ∷ 0 ∷ 8 ∷ 11 ∷ 8 ∷ 10 ∷ []));
}

abbrev taught_by : Answers → World (Unit {0})
taught_by a = world_or busy (run_task listed calm checked describe a busy [] first_task [])

there-run_task :
    (run_task listed calm checked describe there busy [] first_task [] ≡ some (taught_by there))
    × ((taught_by there).poisoned ≡ false)
unfolding run_task settle turn receive send_due handle_all handle_message dispatch on_update
    store_update update_rib process_update record_all announce_all decide_all run_decision_process
    candidates remove_all sort_routes insert_by Rib.new Frame.parse Header.parse Update.parse
    parse_rest Prefix.parse fill_array parse_all AttrParse.parse parse_attributes Routes.new
    validate should_reject hold_timer_expired keepalive_due PeerModule.new Timers.new
    reset_hold_timer summary transition try_from
there-run_task = (refl, refl)

back-run_task :
    (run_task listed calm checked describe back busy [] first_task [] ≡ some (taught_by back))
    × ((taught_by back).poisoned ≡ false)
unfolding run_task settle turn receive send_due handle_all handle_message dispatch on_update
    store_update update_rib process_update record_all announce_all decide_all run_decision_process
    candidates remove_all sort_routes insert_by Rib.new Frame.parse Header.parse Update.parse
    parse_rest Prefix.parse fill_array parse_all AttrParse.parse parse_attributes Routes.new
    validate should_reject hold_timer_expired keepalive_due PeerModule.new Timers.new
    reset_hold_timer summary transition try_from
back-run_task = (refl, refl)

there-Serves :
    Serves listed listed-IsDocumented calm checked describe local tt lenient (taught_by there)
there-Serves = moves busy-Serves (turns there [] first_task [] refl (omega arith) there-run_task.0)

back-Serves :
    Serves listed listed-IsDocumented calm checked describe local tt lenient (taught_by back)
back-Serves = moves busy-Serves (turns back [] first_task [] refl (omega arith) back-run_task.0)

-- The same routes, in two orders.
either_way :
    (a b : PrefixKey × Route) (k : PrefixKey)
    → same_key a.0 b.0 ≡ false
    → get same_key k (a ∷ b ∷ []) ≡ get same_key k (b ∷ a ∷ [])
either_way a b k h = ground arith

there-back :
    (k : PrefixKey)
    → get same_key k (taught_by there).rib.loc_rib ≡ get same_key k (taught_by back).rib.loc_rib
unfolding run_task settle turn receive send_due handle_all handle_message dispatch on_update
    store_update update_rib process_update record_all announce_all decide_all run_decision_process
    candidates remove_all sort_routes insert_by Rib.new Frame.parse Header.parse Update.parse
    parse_rest Prefix.parse fill_array parse_all AttrParse.parse parse_attributes Routes.new
    validate should_reject hold_timer_expired keepalive_due PeerModule.new Timers.new
    reset_hold_timer summary transition try_from
there-back k = either_way _ _ k refl

Serves-HasSameTables_example :
    HasSameTables (taught_by there).rib (taught_by back).rib (chars "65002")
    × HasAllRows (taught_by there).rib (chars "65002")
Serves-HasSameTables_example =
    Serves-HasSameTables listed listed-IsDocumented calm checked describe local tt lenient
      (taught_by there) (taught_by back) (chars "65002") there-Serves back-Serves there-run_task.1
      back-run_task.1 there-back

Serves-IsSelected_example :
    IsSelected (fresh_of (get same_key net taught.rib.loc_rib)) (offers net taught.rib.adj_rib_in)
Serves-IsSelected_example =
    Serves-IsSelected listed listed-IsDocumented calm checked describe local tt lenient taught
      taught-Serves taught-run_task.1 net

process_command-IsAnswer_example :
    IsAnswer lab
      (show_key net)
      (process_command lab
        (chars "show bgp rib prefix " ++ show_key net)
        (shared_of taught Peers.shared))
      (offers net taught.rib.adj_rib_in)
process_command-IsAnswer_example =
    process_command-IsAnswer listed listed-IsDocumented calm checked describe local tt lenient
      taught taught-Serves taught-run_task.1 lab Peers.shared net (omega arith) (omega arith)

Serves-IsHeldFor_example : All (IsHeldFor 90) taught.tasks
Serves-IsHeldFor_example =
    Serves-IsHeldFor listed listed-IsDocumented calm checked describe local tt lenient taught
      taught-Serves
