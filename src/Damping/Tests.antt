-- ===== src/Damping/Tests.antt =====
-- The theorem on src/dampening.rs at a concrete table, with whole numbers for f64.
use pathforge.Base.{ℕ, ◌+◌, ◌/◌, ◌≡◌, ◌↔◌, refl, [], ◌∷◌, some, true, ltb, leb, get, checked}
use pathforge.Rib.Routes.{PrefixKey}
use pathforge.Damping
use pathforge.Damping.{
  Floats, DampeningConfig, DampeningTable, default_config, same_entry, record_withdrawal, flap,
  check_advertisement, new_entry, decay,
}
use pathforge.Damping.Period.{Reaches, fresh, withdrawn, IsKept, check_advertisement_iff}

-- Nothing decays.
abbrev wholes : Floats
wholes = record {
  F = ℕ;
  whole = λ n. n;
  half = 0;
  add = λ a b. a + b;
  mul = λ a b. a;
  div = λ a b. a;
  powf = λ a b. a;
  lt = λ a b. ltb a b;
  ge = λ a b. leb b a;
  as_secs_f64 = λ n. n / 1000000000;
}

abbrev strict_config : DampeningConfig wholes
strict_config = record (default_config wholes) { suppress_limit = 1000 }

abbrev block : PrefixKey
block = record { address = 0x0A00_0000; prefix_len = 8 }

-- After one flap, at the limit.
abbrev flapped : DampeningTable wholes
flapped = record {
  state =
      (
        (1, block),
        record {
          penalty = 1000;
          suppressed = true;
          suppressed_at = some 5;
          last_decay = 5;
          suppress_count = 1;
        },
      )
      ∷ [];
  config = strict_config;
}

flapped-Reaches : Reaches wholes checked strict_config flapped
unfolding record_withdrawal flap decay new_entry default_config Damping.new
flapped-Reaches = withdrawn {answer = true} 1 block (λ _. 5) fresh refl

check_advertisement_iff_example :
    ((check_advertisement wholes flapped 1 block (λ _. 1000000005)).0 ≡ true)
    ↔ IsKept wholes strict_config (λ _. 1000000005) (get same_entry (1, block) flapped.state)
check_advertisement_iff_example =
    check_advertisement_iff wholes checked strict_config flapped 1 block (λ _. 1000000005)
      flapped-Reaches
