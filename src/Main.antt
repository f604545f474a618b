-- ===== src/Main.antt =====
-- src/main.rs as far as the servers that it starts: what they are started with, from the options and
-- from the file that one of them names. Reading the file and the TOML in it is `load`, a parameter.
pub mod Options
mod Tests
use pathforge.Rib.Decision.{unwrap_or}
use pathforge.Base.{ℕ, List, Option, none, some, Outcome, ok, ◌>>=◌, ◌>>◌, map_err}
use pathforge.Config.{Config, ConfigError, validate}
use pathforge.Session.Timers.{LocalConfig, new_local}

pub record Cli : Type 0 where
  pub config : Option (List ℕ)
  pub listen : Option ℕ
  pub local_as : Option ℕ
  pub router_id : Option ℕ
  pub hold_time : Option ℕ
  pub mgmt_socket : List ℕ

-- The errors of `load`, or of the validation.
pub data StartError (E : Type 0) : Type 0 where
  not_loaded : E → StartError E
  not_valid : ConfigError → StartError E

-- The local configuration and the address to listen on; `default_listen` is 0.0.0.0:179.
abbrev pub from_config : Option ℕ → Config → LocalConfig × ℕ
from_config listen cfg =
    let lc = new_local cfg.router.local_as cfg.router.router_id in
    (record lc { hold_time = cfg.router.hold_time }, unwrap_or listen cfg.router.listen)

unfoldable pub from_options : ℕ → Cli → LocalConfig × ℕ
from_options default_listen cli =
    let lc = new_local (unwrap_or cli.local_as 65000) (unwrap_or cli.router_id 0x0101_0101) in
    (record lc { hold_time = unwrap_or cli.hold_time 90 }, unwrap_or cli.listen default_listen)

module _ {E : Type 0} (load : List ℕ → Outcome E Config) where
  -- `Config::from_file`
  unfoldable pub from_file : List ℕ → Outcome (StartError E) Config
  from_file path = do
    config ← map_err not_loaded (load path)
    map_err not_valid (validate config)
    ok config

  abbrev pub configure_from : ℕ → Cli → Option (List ℕ) → Outcome (StartError E) (LocalConfig × ℕ)
  configure_from default_listen cli none = ok (from_options default_listen cli)
  configure_from default_listen cli (some path) = do
    cfg ← from_file path
    ok (from_config cli.listen cfg)

  unfoldable pub configure : ℕ → Cli → Outcome (StartError E) (LocalConfig × ℕ)
  configure default_listen cli = configure_from default_listen cli cli.config
