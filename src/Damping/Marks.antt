-- ===== src/Damping/Marks.antt =====
-- What every operation of src/dampening.rs keeps of an entry.
use pathforge.Base.{
  ℕ, ◌-◌, List, [], ◌∷◌, Option, none, some, Bool, true, false, not, ◌&&◌, ◌==◌, Bool-cases, inl,
  inr, if◌then◌else◌, and_then, get, insert, Build,
}
use pathforge.Rib.Routes.{PrefixKey}
use pathforge.Damping.{
  Floats, PrefixDampening, new_entry, decay, DampeningConfig, same_entry, count_up, or_new, flap,
  is_over, advertise, others_of,
}

-- A route is suppressed exactly if it is noted since when.
abbrev pub IsMark : Bool → Option ℕ → Type 0
IsMark true (some at) = Unit {0}
IsMark true none = ⊥
IsMark false (some at) = ⊥
IsMark false none = Unit {0}

module _ (f : Floats) where
  open f use {F, lt}

  abbrev pub IsMarked : PrefixDampening f → Type 0
  IsMarked e = IsMark e.suppressed e.suppressed_at

  abbrev pub Entries : Type 0
  Entries = List ((ℕ × PrefixKey) × PrefixDampening f)

  abbrev pub AllMarked : Entries → Type 0
  AllMarked [] = Unit {0}
  AllMarked ((k, e) ∷ state) = IsMarked e × AllMarked state

  abbrev pub IsFound : Option (PrefixDampening f) → Type 0
  IsFound none = Unit {0}
  IsFound (some e) = IsMarked e

  pub get-IsFound :
      (k : ℕ × PrefixKey) (state : Entries) → AllMarked state → IsFound (get same_entry k state)
  get-IsFound k [] w = tt
  get-IsFound k ((j, e) ∷ state) w = elim (Bool-cases (same_entry j k)) [
    | inl t ↦ rw t w.0
    | inr n ↦ rw n (get-IsFound k state w.1)
  ]

  pub insert-AllMarked :
      (k : ℕ × PrefixKey) (e : PrefixDampening f) (state : Entries)
      → AllMarked state
      → IsMarked e
      → AllMarked (insert same_entry k e state)
  insert-AllMarked k e [] w h = (h, tt)
  insert-AllMarked k e ((j, x) ∷ state) w h = elim (Bool-cases (same_entry j k)) [
    | inl t ↦ rw t (h, w.1)
    | inr n ↦ rw n (w.0, insert-AllMarked k e state w.1 h)
  ]

  pub others_of-AllMarked :
      (peer : ℕ) (state : Entries) → AllMarked state → AllMarked (others_of f peer state)
  unfolding others_of
  others_of-AllMarked peer [] w = tt
  others_of-AllMarked peer (((p, k), e) ∷ state) w = elim (Bool-cases (not (p == peer))) [
    | inl t ↦ rw t (w.0, others_of-AllMarked peer state w.1)
    | inr n ↦ rw n (others_of-AllMarked peer state w.1)
  ]

  pub or_new-IsMarked :
      (o : Option (PrefixDampening f)) (now : ℕ) → IsFound o → IsMarked (or_new f o now)
  unfolding new_entry
  or_new-IsMarked none now w = tt
  or_new-IsMarked (some e) now w = w

  pub decay-IsMarked :
      (e : PrefixDampening f) (h : F) (now later : ℕ)
      → IsMarked e
      → IsMarked (decay f e h now later)
  unfolding decay
  decay-IsMarked e h now later w =
      elim (Bool-cases (lt (f.whole 0) (f.as_secs_f64 (now - e.last_decay)))) [
        | inl t ↦ rw t w
        | inr n ↦ rw n w
      ]

  abbrev pub EndsMarked : Option (Bool × PrefixDampening f) → Type 0
  EndsMarked none = Unit {0}
  EndsMarked (some (answer, e)) = IsMarked e

  counted-EndsMarked :
      (o : Option ℕ) (e : PrefixDampening f) (at : ℕ)
      → EndsMarked (
          and_then o λ count.
            some (
              true,
              record e { suppressed = true; suppressed_at = some at; suppress_count = count },
            ))
  counted-EndsMarked none e at = tt
  counted-EndsMarked (some n) e at = tt

  if-EndsMarked :
      (b : Bool) (x y : Option (Bool × PrefixDampening f))
      → EndsMarked x
      → EndsMarked y
      → EndsMarked (if b then x else y)
  if-EndsMarked true x y h g = h
  if-EndsMarked false x y h g = g

  pub flap-EndsMarked :
      (build : Build) (cfg : DampeningConfig f) (e : PrefixDampening f) (now : ℕ → ℕ)
      → IsMarked e
      → EndsMarked (flap f build cfg e now)
  unfolding flap
  flap-EndsMarked build cfg e now w =
      let d = decay f e cfg.half_life_secs (now 1) (now 2) in
      let flapped : PrefixDampening f = record d {
        penalty = f.add d.penalty cfg.penalty_per_flap;
      } in
      if-EndsMarked (not d.suppressed && f.ge flapped.penalty cfg.suppress_limit)
        (and_then (count_up build d.suppress_count) λ count. some (
          true,
          record flapped {
            suppressed = true;
            suppressed_at = some (now 3);
            suppress_count = count;
          },
        ))
        (some (d.suppressed, flapped))
        (counted-EndsMarked (count_up build d.suppress_count) flapped (now 3))
        (decay-IsMarked e cfg.half_life_secs (now 1) (now 2) w)

  pub advertise-IsMarked :
      (cfg : DampeningConfig f) (e : PrefixDampening f) (now : ℕ → ℕ)
      → IsMarked e
      → IsMarked (advertise f cfg e now).1
  unfolding advertise
  advertise-IsMarked cfg e now w =
      let d = decay f e cfg.half_life_secs (now 0) (now 1) in
      elim (Bool-cases (is_over f d.suppressed_at (now 2) cfg.max_suppress_time)) [
        | inl t ↦ rw t tt
        | inr n ↦ rw n (elim (Bool-cases (d.suppressed && lt d.penalty cfg.reuse_limit)) [
          | inl u ↦ rw u tt
          | inr m ↦ rw m (decay-IsMarked e cfg.half_life_secs (now 0) (now 1) w)
        ])
      ]
