-- ===== src/Damping.antt =====
-- src/dampening.rs: the penalties of flapping routes. The arithmetic of f64 is a parameter; an Instant
-- or a Duration is a number of nanoseconds, and `now` is what the clock shows at the calls in order.

pub mod Marks
pub mod Period
mod Tests
use pathforge.Base.{
  ℕ, suc, ◌+◌, ◌-◌, ◌*◌, List, [], ◌∷◌, Option, none, some, Bool, true, false, not, ◌&&◌, ◌==◌, leb,
  ltb, if◌then◌else◌, and_then, get, insert, Build, overflow,
}
use pathforge.Rib.Routes.{PrefixKey, same_key}

-- The operations of f64 that the code uses.
pub record Floats : Type 1 where
  pub F : Type 0
  -- a literal that is a whole number, and 0.5
  pub whole : ℕ → F
  pub half : F
  pub add : F → F → F
  pub mul : F → F → F
  pub div : F → F → F
  pub powf : F → F → F
  pub lt : F → F → Bool
  pub ge : F → F → Bool
  -- `Duration::as_secs_f64`
  pub as_secs_f64 : ℕ → F

module _ (f : Floats) where
  open f use {F, whole, half, add, mul, div, powf, lt, ge, as_secs_f64}

  pub record PrefixDampening : Type 0 where
    pub penalty : F
    pub suppressed : Bool
    pub suppressed_at : Option ℕ
    pub last_decay : ℕ
    pub suppress_count : ℕ

  unfoldable pub new_entry : ℕ → PrefixDampening
  new_entry now = record {
    penalty = whole 0;
    suppressed = false;
    suppressed_at = none;
    last_decay = now;
    suppress_count = 0;
  }

  -- The first reading of the clock is that of `elapsed`, the second that of the reset.
  unfoldable pub decay : PrefixDampening → F → ℕ → ℕ → PrefixDampening
  decay e half_life_secs now later =
      let elapsed = as_secs_f64 (now - e.last_decay) in
      if lt (whole 0) elapsed
      then record e {
        penalty = mul e.penalty (powf half (div elapsed half_life_secs));
        last_decay = later;
      }
      else e

  pub record DampeningConfig : Type 0 where
    pub penalty_per_flap : F
    pub suppress_limit : F
    pub reuse_limit : F
    pub half_life_secs : F
    pub max_suppress_time : ℕ

  unfoldable pub default_config : DampeningConfig
  default_config = record {
    penalty_per_flap = whole 1000;
    suppress_limit = whole 2000;
    reuse_limit = whole 750;
    half_life_secs = whole 900;
    max_suppress_time = 3600 * 1000000000;
  }

  pub record DampeningTable : Type 0 where
    pub state : List ((ℕ × PrefixKey) × PrefixDampening)
    pub config : DampeningConfig

  unfoldable pub new : DampeningConfig → DampeningTable
  new config = record { state = []; config = config }

-- The derived `==` of the keys.
abbrev pub same_entry : ℕ × PrefixKey → ℕ × PrefixKey → Bool
same_entry (p, k) (q, j) = p == q && same_key k j

-- `suppress_count += 1` on u32
abbrev pub count_up : Build → ℕ → Option ℕ
count_up build n = if ltb (n + 1) 4294967296 then some (n + 1) else overflow build 0

module _ (f : Floats) where
  open f use {F, add, lt, ge}

  -- `or_insert_with`
  abbrev pub or_new : Option (PrefixDampening f) → ℕ → PrefixDampening f
  or_new none now = new_entry f now
  or_new (some e) now = e

  -- A flap of one entry: whether the route is suppressed, and the entry after; `none` is the panic
  -- of an overflow of the count.
  unfoldable pub flap :
      Build → DampeningConfig f → PrefixDampening f → (ℕ → ℕ) → Option (Bool × PrefixDampening f)
  flap build cfg e0 now =
      let decayed = decay f e0 cfg.half_life_secs (now 1) (now 2) in
      let e = record decayed { penalty = add decayed.penalty cfg.penalty_per_flap } in
      if not e.suppressed && ge e.penalty cfg.suppress_limit
      then (and_then (count_up build e.suppress_count) λ count. some (
        true,
        record e { suppressed = true; suppressed_at = some (now 3); suppress_count = count },
      ))
      else some (e.suppressed, e)

  unfoldable pub record_withdrawal :
      Build → DampeningTable f → ℕ → PrefixKey → (ℕ → ℕ) → Option (Bool × DampeningTable f)
  record_withdrawal build t peer prefix now =
      and_then (flap build t.config (or_new (get same_entry (peer, prefix) t.state) (now 0)) now)
        λ (answer, e).
          some (answer, record t { state = insert same_entry (peer, prefix) e t.state })

  -- `suppressed_at.elapsed() >= cfg.max_suppress_time`, if it is set.
  abbrev pub is_over : Option ℕ → ℕ → ℕ → Bool
  is_over none now max = false
  is_over (some at) now max = leb max (now - at)

  -- A new advertisement of one entry.
  unfoldable pub advertise :
      DampeningConfig f → PrefixDampening f → (ℕ → ℕ) → Bool × PrefixDampening f
  advertise cfg e0 now =
      let e = decay f e0 cfg.half_life_secs (now 0) (now 1) in
      let free = record e { suppressed = false; suppressed_at = none } in
      if is_over e.suppressed_at (now 2) cfg.max_suppress_time
      then (false, free)
      else if e.suppressed && lt e.penalty cfg.reuse_limit
      then (false, free)
      else (e.suppressed, e)

  unfoldable pub check_found :
      DampeningTable f
      → ℕ × PrefixKey
      → Option (PrefixDampening f)
      → (ℕ → ℕ)
      → Bool × DampeningTable f
  check_found t key none now = (false, t)
  check_found t key (some e) now =
      let (answer, after) = advertise t.config e now in
      (answer, record t { state = insert same_entry key after t.state })

  unfoldable pub check_advertisement :
      DampeningTable f → ℕ → PrefixKey → (ℕ → ℕ) → Bool × DampeningTable f
  check_advertisement t peer prefix now =
      check_found t (peer, prefix) (get same_entry (peer, prefix) t.state) now

  unfoldable pub current_penalty : DampeningTable f → ℕ → PrefixKey → (ℕ → ℕ) → F × DampeningTable f
  current_penalty t peer prefix now =
      let e =
        decay f (or_new (get same_entry (peer, prefix) t.state) (now 0)) t.config.half_life_secs
          (now 1) (now 2) in
      (e.penalty, record t { state = insert same_entry (peer, prefix) e t.state })

  abbrev pub suppressed_of : Option (PrefixDampening f) → Bool
  suppressed_of none = false
  suppressed_of (some e) = e.suppressed

  unfoldable pub is_suppressed : DampeningTable f → ℕ → PrefixKey → Bool
  is_suppressed t peer prefix = suppressed_of (get same_entry (peer, prefix) t.state)

  unfoldable pub count_suppressed : List ((ℕ × PrefixKey) × PrefixDampening f) → ℕ
  count_suppressed [] = 0
  count_suppressed ((k, e) ∷ state) =
      if e.suppressed then suc (count_suppressed state) else count_suppressed state

  unfoldable pub suppressed_count : DampeningTable f → ℕ
  suppressed_count t = count_suppressed t.state

  -- `retain`
  unfoldable pub others_of :
      ℕ → List ((ℕ × PrefixKey) × PrefixDampening f) → List ((ℕ × PrefixKey) × PrefixDampening f)
  others_of peer [] = []
  others_of peer (((p, k), e) ∷ state) =
      if not (p == peer) then ((p, k), e) ∷ others_of peer state else others_of peer state

  unfoldable pub remove_peer : DampeningTable f → ℕ → DampeningTable f
  remove_peer t peer = record t { state = others_of peer t.state }
