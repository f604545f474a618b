-- ===== src/Main/Options.antt =====
-- What the daemon starts with when a configuration file is named.
use pathforge.Base.{
  arith, none, ◌⊎◌, subst, ℕ, ◌≡◌, ◌↔◌, refl, ap, sym, ◌∙◌, List, Option, some, Outcome, ok, err,
  panic, stuck, ◌>>=◌, ◌>>◌, map_err,
}
use pathforge.Config.{Config, ConfigError, validate}
use pathforge.Config.Accept.{IsValid, validate_iff}
use pathforge.Rib.Decision.{unwrap_or}
use pathforge.Main.{
  unwrap_or, new_local, Cli, StartError, not_loaded, not_valid, from_file, from_config, configure,
}
use pathforge.Session.Timers.{LocalConfig, new_local}

-- The address that the option gives, or the one of the file.
abbrev ListensOn : Option ℕ → ℕ → ℕ → Type 0
ListensOn listen own address = (listen ≡ some address) ⊎ ((listen ≡ none) × (address ≡ own))

-- A start with the AS number, the router id and the hold time of a file.
abbrev IsStart : Option ℕ → Config → LocalConfig × ℕ → Type 0
IsStart listen cfg (local, address) =
    (local.local_as ≡ cfg.router.local_as)
    × (local.router_id ≡ cfg.router.router_id)
    × (local.hold_time ≡ cfg.router.hold_time)
    × ListensOn listen cfg.router.listen address

address_iff :
    (listen : Option ℕ) (own address : ℕ)
    → (address ≡ unwrap_or listen own) ↔ ListensOn listen own address
address_iff none own address = ground arith
address_iff (some a) own address = ground arith

local_iff :
    (a r h : ℕ) (local : LocalConfig)
    → (local ≡ record { local_as = a; router_id = r; hold_time = h })
      ↔ ((local.local_as ≡ a) × (local.router_id ≡ r) × (local.hold_time ≡ h))
local_iff a r h local = (
  (λ e. (ap (λ l. l.local_as) e, ap (λ l. l.router_id) e, ap (λ l. l.hold_time) e)),
  λ (x, y, z). cc,
)

from_config-IsStart :
    (listen : Option ℕ) (cfg : Config) (begun : LocalConfig × ℕ)
    → (begun ≡ from_config listen cfg) ↔ IsStart listen cfg begun
unfolding new_local
from_config-IsStart listen cfg (local, address) =
    let (to, from) = address_iff listen cfg.router.listen address in
    let (apart, whole) =
      local_iff cfg.router.local_as cfg.router.router_id cfg.router.hold_time local in
    (
      (λ e. let (x, y, z) = apart (ap (λ p. p.0) e) in (x, y, z, to (ap (λ p. p.1) e))),
      λ (x, y, z, l). let el = whole (x, y, z) in let ea = from l in cc,
    )

module _ {E : Type 0} (load : List ℕ → Outcome E Config) where
  abbrev begins : Option ℕ → Outcome E Config → Outcome (StartError E) (LocalConfig × ℕ)
  begins listen loaded =
      (map_err not_loaded loaded >>= λ c. (map_err not_valid (validate c) >> ok c)) >>= λ c.
      ok (from_config listen c)

  -- What is done with a file that is loaded, once it is validated.
  checked_iff :
      (listen : Option ℕ) (cfg : Config) (checked : Outcome ConfigError (Unit {0}))
      (begun : LocalConfig × ℕ)
      → (◌≡◌ {A = Outcome (StartError E) (LocalConfig × ℕ)}
          ((map_err not_valid checked >> ok cfg) >>= λ c. ok (from_config listen c))
          (ok begun))
        ↔ ((checked ≡ ok tt) × (begun ≡ from_config listen cfg))
  checked_iff listen cfg (ok tt) begun = ((λ h. (refl, cc)), λ (x, e). ap ok (sym e))
  checked_iff listen cfg (err e) begun = ((λ h. absurd (cc)), λ (x, y). absurd (cc))
  checked_iff listen cfg panic begun = ((λ h. absurd (cc)), λ (x, y). absurd (cc))
  checked_iff listen cfg stuck begun = ((λ h. absurd (cc)), λ (x, y). absurd (cc))

  -- The file is loaded and valid, and the start is one with its values.
  abbrev pub IsLoaded : Option ℕ → LocalConfig × ℕ → Outcome E Config → Type 0
  IsLoaded listen begun loaded =
      (cfg : Config) × (loaded ≡ ok cfg) × IsValid cfg × IsStart listen cfg begun

  file_iff :
      (listen : Option ℕ) (loaded : Outcome E Config) (begun : LocalConfig × ℕ)
      → (begins listen loaded ≡ ok begun) ↔ IsLoaded listen begun loaded
  file_iff listen (ok c) begun = (
    (λ h.
        let (v, e) = (checked_iff listen c (validate c) begun).0 h in
        (c, refl, (validate_iff c).0 v, (from_config-IsStart listen c begun).0 e)),
    λ (cfg, e, v, b).
        let same : cfg ≡ c = cc in
        (checked_iff listen c (validate c) begun).1 (
          (validate_iff c).1 (subst IsValid same v),
          (from_config-IsStart listen cfg begun).1 b ∙ ap (from_config listen) same,
        ),
  )
  file_iff listen (err x) begun = ((λ h. absurd (cc)), λ (cfg, e, v, b). absurd (cc))
  file_iff listen panic begun = ((λ h. absurd (cc)), λ (cfg, e, v, b). absurd (cc))
  file_iff listen stuck begun = ((λ h. absurd (cc)), λ (cfg, e, v, b). absurd (cc))

  -- If a configuration file is named, the daemon starts exactly if the file is loaded and is valid, and
  -- it starts with the AS number, the router id and the hold time of the file; it listens on the
  -- address of the option, or on the one of the file if there is none, and no other option counts.
  pub configure_iff :
      (default_listen : ℕ) (cli : Cli) (path : List ℕ) (begun : LocalConfig × ℕ)
      → cli.config ≡ some path
      → (configure load default_listen cli ≡ ok begun) ↔ IsLoaded cli.listen begun (load path)
  unfolding configure from_file
  configure_iff default_listen cli path begun e = rw e (file_iff cli.listen (load path) begun)
