-- ===== src/Main/Tests.antt =====
-- The start of the daemon at concrete options.
use pathforge.Base.{ℕ, ◌≡◌, ◌↔◌, refl, List, [], ◌∷◌, none, some, Outcome, ok}
use pathforge.Config.{Config}
use pathforge.Main.{Cli, from_options, configure}
use pathforge.Main.Options.{IsLoaded, configure_iff}
use pathforge.Session.Timers.{LocalConfig, new_local}

abbrev small : Config
small = record {
  router = record {
    local_as = 65001;
    router_id = 0x0A00_0001;
    listen = 1790;
    hold_time = 30;
    keepalive_interval = none;
  };
  neighbors = [];
  policy = record { prefix_lists = []; community_lists = [] };
}

abbrev only_small : List ℕ → Outcome (Unit {0}) Config
only_small path = ok small

-- A file and an AS number beside it.
abbrev both : Cli
both = record {
  config = some (97 ∷ []);
  listen = none;
  local_as = some 65002;
  router_id = none;
  hold_time = none;
  mgmt_socket = [];
}

abbrev begun : LocalConfig × ℕ
begun = (record { local_as = 65001; router_id = 0x0A00_0001; hold_time = 30 }, 1790)

defaults :
    from_options 179 (record both { config = none; local_as = none })
    ≡ (record { local_as = 65000; router_id = 0x0101_0101; hold_time = 90 }, 179)
unfolding from_options new_local
defaults = refl

configure_iff_example :
    (configure only_small 179 both ≡ ok begun)
    ↔ IsLoaded only_small none begun (only_small (97 ∷ []))
configure_iff_example = configure_iff only_small 179 both (97 ∷ []) begun refl
