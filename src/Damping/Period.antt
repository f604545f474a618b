-- ===== src/Damping/Period.antt =====
-- How long src/dampening.rs keeps a route suppressed, over any sequence of its operations.
use pathforge.Base.{
  ℕ, ◌-◌, ◌<◌, ◌≡◌, ◌↔◌, ◌∙◌, sym, subst, refl, Option, none, some, Bool, true, false, ◌&&◌, arith,
  Bool-cases, inl, inr, if◌then◌else◌, and_then, get, insert, Build,
}
use pathforge.Rib.Routes.{PrefixKey}
use pathforge.Damping
use pathforge.Damping.{
  Floats, PrefixDampening, new_entry, decay, DampeningConfig, DampeningTable, same_entry, or_new,
  flap, record_withdrawal, is_over, advertise, check_found, check_advertisement, current_penalty,
  others_of, remove_peer,
}
use pathforge.Damping.Marks.{
  IsMark, AllMarked, IsFound, EndsMarked, get-IsFound, insert-AllMarked, others_of-AllMarked,
  or_new-IsMarked, decay-IsMarked, flap-EndsMarked, advertise-IsMarked,
}

module _ (f : Floats) where
  open f use {F, lt}

  -- The tables that the operations come to from an empty one.
  pub data Reaches (build : Build) (cfg : DampeningConfig f) : DampeningTable f → Type 0 where
    fresh : Reaches build cfg (Damping.new f cfg)
    withdrawn :
        {t after : DampeningTable f} {answer : Bool} (peer : ℕ) (prefix : PrefixKey) (now : ℕ → ℕ)
        → Reaches build cfg t
        → record_withdrawal f build t peer prefix now ≡ some (answer, after)
        → Reaches build cfg after
    advertised :
        {t : DampeningTable f} (peer : ℕ) (prefix : PrefixKey) (now : ℕ → ℕ)
        → Reaches build cfg t
        → Reaches build cfg (check_advertisement f t peer prefix now).1
    asked :
        {t : DampeningTable f} (peer : ℕ) (prefix : PrefixKey) (now : ℕ → ℕ)
        → Reaches build cfg t
        → Reaches build cfg (current_penalty f t peer prefix now).1
    removed :
        {t : DampeningTable f} (peer : ℕ)
        → Reaches build cfg t
        → Reaches build cfg (remove_peer f t peer)

  abbrev WithdrawnMarked : Option (Bool × DampeningTable f) → Type 0
  WithdrawnMarked none = Unit {0}
  WithdrawnMarked (some (answer, t)) = AllMarked f t.state

  stored-WithdrawnMarked :
      (t : DampeningTable f) (k : ℕ × PrefixKey) (o : Option (Bool × PrefixDampening f))
      → AllMarked f t.state
      → EndsMarked f o
      → WithdrawnMarked (
          and_then o
            λ (answer, e). some (answer, record t { state = insert same_entry k e t.state }))
  stored-WithdrawnMarked t k none w h = tt
  stored-WithdrawnMarked t k (some (answer, e)) w h = insert-AllMarked f k e t.state w h

  checked-AllMarked :
      (t : DampeningTable f) (k : ℕ × PrefixKey) (o : Option (PrefixDampening f)) (now : ℕ → ℕ)
      → AllMarked f t.state
      → IsFound f o
      → AllMarked f (check_found f t k o now).1.state
  unfolding check_found
  checked-AllMarked t k none now w h = w
  checked-AllMarked t k (some e) now w h =
      insert-AllMarked f k _ t.state w (advertise-IsMarked f t.config e now h)

  Reaches-AllMarked :
      (build : Build) (cfg : DampeningConfig f) (t : DampeningTable f)
      → Reaches build cfg t
      → AllMarked f t.state
  unfolding Damping.new check_advertisement current_penalty record_withdrawal remove_peer
  Reaches-AllMarked build cfg _ fresh = tt
  Reaches-AllMarked build cfg _ (withdrawn {t = t} {after = after} peer prefix now r e) =
      let w = Reaches-AllMarked build cfg t r in
      subst WithdrawnMarked e (
        stored-WithdrawnMarked t (peer, prefix) _ w
          (flap-EndsMarked f build t.config _ now
            (or_new-IsMarked f _ (now 0) (get-IsFound f (peer, prefix) t.state w))))
  Reaches-AllMarked build cfg _ (advertised {t = t} peer prefix now r) =
      let w = Reaches-AllMarked build cfg t r in
      checked-AllMarked t (peer, prefix) _ now w (get-IsFound f (peer, prefix) t.state w)
  Reaches-AllMarked build cfg _ (asked {t = t} peer prefix now r) =
      let w = Reaches-AllMarked build cfg t r in
      insert-AllMarked f (peer, prefix) _ t.state w
        (decay-IsMarked f _ _ (now 1) (now 2)
          (or_new-IsMarked f _ (now 0) (get-IsFound f (peer, prefix) t.state w)))
  Reaches-AllMarked build cfg _ (removed {t = t} peer r) =
      others_of-AllMarked f peer t.state (Reaches-AllMarked build cfg t r)

  -- The entry is suppressed, for less than the longest time, and its penalty, decayed, has not fallen
  -- below the limit of reuse.
  abbrev pub IsKept : DampeningConfig f → (ℕ → ℕ) → Option (PrefixDampening f) → Type 0
  IsKept cfg now none = ⊥
  IsKept cfg now (some e) =
      (at : ℕ) × (e.suppressed_at ≡ some at)
      × (now 2 - at < cfg.max_suppress_time)
      × (lt (decay f e cfg.half_life_secs (now 0) (now 1)).penalty cfg.reuse_limit ≡ false)

  kept_iff :
      (s : Bool) (a : Option ℕ) (low : Bool) (n max : ℕ)
      → IsMark s a
      → ((if is_over f a n max then false else if s && low then false else s) ≡ true)
        ↔ ((at : ℕ) × (a ≡ some at) × (n - at < max) × (low ≡ false))
  kept_iff true (some at) low n max w = (
    (λ h. (at, refl, ground (arith, h), ground (arith, h))),
    (λ (x, e, l, k). let p : at ≡ x = cc in ground (arith, p, l, k)),
  )
  kept_iff true none low n max w = absurd w
  kept_iff false (some at) low n max w = absurd w
  kept_iff false none low n max w = ((λ h. absurd (cc)), (λ (x, e, l, k). absurd (cc)))

  answer_lem :
      (b c : Bool) (p q r : Bool) (x y z : PrefixDampening f)
      → (if◌then◌else◌ {A = Bool × PrefixDampening f} b (p, x) (if c then (q, y) else (r, z))).0
        ≡ (if b then p else if c then q else r)
  answer_lem true c p q r x y z = refl
  answer_lem false true p q r x y z = refl
  answer_lem false false p q r x y z = refl

  decay-at :
      (e : PrefixDampening f) (h : F) (now later : ℕ)
      → (decay f e h now later).suppressed_at ≡ e.suppressed_at
  unfolding decay
  decay-at e h now later = elim (Bool-cases (lt (f.whole 0) (f.as_secs_f64 (now - e.last_decay)))) [
    | inl t ↦ rw t refl
    | inr n ↦ rw n refl
  ]

  found_iff :
      (t : DampeningTable f) (k : ℕ × PrefixKey) (o : Option (PrefixDampening f)) (now : ℕ → ℕ)
      → IsFound f o
      → ((check_found f t k o now).0 ≡ true) ↔ IsKept t.config now o
  unfolding check_found advertise
  found_iff t k none now w = ((λ h. absurd (cc)), (λ h. absurd h))
  found_iff t k (some e) now w =
      let cfg = t.config in
      let d = decay f e cfg.half_life_secs (now 0) (now 1) in
      let (there, back) =
        kept_iff d.suppressed d.suppressed_at (lt d.penalty cfg.reuse_limit) (now 2)
          cfg.max_suppress_time (decay-IsMarked f e cfg.half_life_secs (now 0) (now 1) w) in
      let same = decay-at e cfg.half_life_secs (now 0) (now 1) in
      let answer =
        answer_lem (is_over f d.suppressed_at (now 2) cfg.max_suppress_time)
          (d.suppressed && lt d.penalty cfg.reuse_limit) false false d.suppressed
          (record d { suppressed = false; suppressed_at = none })
          (record d { suppressed = false; suppressed_at = none }) d in
      (
        (λ h. let (at, e1, l, k1) = there (sym answer ∙ h) in (at, sym same ∙ e1, l, k1)),
        (λ (at, e1, l, k1). answer ∙ back (at, same ∙ e1, l, k1)),
      )

  -- In a table that the operations come to from an empty one, in any order and at any readings of the
  -- clock: an advertisement is held back exactly if its route has been suppressed for less than the
  -- longest time and its penalty, decayed, has not fallen below the limit of reuse.
  pub check_advertisement_iff :
      (build : Build) (cfg : DampeningConfig f) (t : DampeningTable f) (peer : ℕ)
      (prefix : PrefixKey) (now : ℕ → ℕ)
      → Reaches build cfg t
      → ((check_advertisement f t peer prefix now).0 ≡ true)
        ↔ IsKept t.config now (get same_entry (peer, prefix) t.state)
  unfolding check_advertisement
  check_advertisement_iff build cfg t peer prefix now r =
      found_iff t (peer, prefix) _ now
        (get-IsFound f (peer, prefix) t.state (Reaches-AllMarked build cfg t r))
