-- ===== src/Config/Accept.antt =====
-- Which configurations Config::validate of src/config.rs accepts.
use pathforge.Base.{
  ◌/◌, ℕ, ◌≤◌, ◌<◌, ◌≡◌, ◌≢◌, ◌↔◌, ◌⊎◌, inl, inr, ap, refl, List, [], ◌∷◌, Option, none, some, Bool,
  true, false, ◌==◌, arith, Bool-cases, length, holds, All, Outcome, ok, err, panic, stuck, ◌>>◌,
  bail_if,
}
use pathforge.Mp.{IpAddr, v4, v6}
use pathforge.Message.Header.{bytes_eq}
use pathforge.Message.Header.RoundTrip.{bytes_eq→eq}
use pathforge.Config.{
  Config, NeighborConfig, ConfigError, same_addr, is_short, check_router_id, check_keepalive,
  check_hold_time, check_password, check_neighbors, validate,
}

abbrev IsOk : Outcome ConfigError (Unit {0}) → Type 0
IsOk r = r ≡ ok tt

-- Two checks in a row succeed exactly if both do.
then_iff :
    (r s : Outcome ConfigError (Unit {0})) (P Q : Type 0)
    → (IsOk r ↔ P)
    → (IsOk s ↔ Q)
    → IsOk (r >> s) ↔ (P × Q)
then_iff (ok tt) s P Q p q = ((λ h. (p.0 refl, q.0 h)), (λ h. q.1 h.1))
then_iff (err e) s P Q p q = ((λ h. absurd (cc)), (λ h. absurd (let e1 = p.1 h.0 in cc)))
then_iff panic s P Q p q = ((λ h. absurd (cc)), (λ h. absurd (let e1 = p.1 h.0 in cc)))
then_iff stuck s P Q p q = ((λ h. absurd (cc)), (λ h. absurd (let e1 = p.1 h.0 in cc)))

bail_iff : (b : Bool) (e : ConfigError) → IsOk (bail_if b e) ↔ (b ≡ false)
bail_iff true e = ((λ h. absurd (cc)), (λ h. absurd (cc)))
bail_iff false e = ((λ h. refl), (λ h. refl))

bytes_eq_same : (s : List ℕ) → bytes_eq s s ≡ true
bytes_eq_same [] = refl
bytes_eq_same (a ∷ s) = ground (arith, bytes_eq_same s)

same_addr_iff : (a b : IpAddr) → (same_addr a b ≡ true) ↔ (a ≡ b)
same_addr_iff (v4 a) (v4 b) =
    ((λ h. ap v4 (bytes_eq→eq a b h)), λ e. let p : a ≡ b = cc in rw p (bytes_eq_same b))
same_addr_iff (v6 a) (v6 b) =
    ((λ h. ap v6 (bytes_eq→eq a b h)), λ e. let p : a ≡ b = cc in rw p (bytes_eq_same b))
same_addr_iff (v4 a) (v6 b) = ((λ h. absurd (cc)), (λ h. absurd (cc)))
same_addr_iff (v6 a) (v4 b) = ((λ h. absurd (cc)), (λ h. absurd (cc)))

-- A hold time of 0 or of 3 seconds and more.
abbrev pub IsHoldTime : ℕ → Type 0
IsHoldTime t = (t ≡ 0) ⊎ (3 ≤ t)

-- None of the addresses is this one.
abbrev pub IsFree : IpAddr → List IpAddr → Type 0
IsFree addr seen = All (λ a. a ≢ addr) seen

is_short_iff : (t : ℕ) → (is_short t ≡ false) ↔ IsHoldTime t
is_short_iff t = (ground arith, ground arith)

holds_iff :
    (seen : List IpAddr) (addr : IpAddr) → (holds same_addr seen addr ≡ false) ↔ IsFree addr seen
holds_iff [] addr = ((λ h. tt), (λ h. refl))
holds_iff (a ∷ seen) addr =
    let (to_eq, from_eq) = same_addr_iff a addr in
    let (there, back) = holds_iff seen addr in
    elim (Bool-cases (same_addr a addr)) [
      | inl t ↦ ((λ h. absurd (ground (arith, h, t))), (λ h. absurd (h.0 (to_eq t))))
      | inr n ↦ (
        (λ h. ((λ e. absurd (ground (arith, from_eq e, n))), there (ground (arith, h, n)))),
        (λ h. ground (arith, n, back h.1)),
      )
    ]

-- What is asked of the parts.
abbrev pub IsRouterId : ℕ → Type 0
IsRouterId rid = (rid ≢ 0) × ((rid ≢ 4294967295) × (rid / 16777216 ≢ 127))

abbrev pub IsKeepalive : ℕ → Option ℕ → Type 0
IsKeepalive hold_time none = Unit {0}
IsKeepalive hold_time (some ka) = (ka ≢ 0) × ((hold_time ≡ 0) ⊎ (ka < hold_time))

abbrev pub IsOwnHoldTime : Option ℕ → Type 0
IsOwnHoldTime none = Unit {0}
IsOwnHoldTime (some t) = IsHoldTime t

abbrev pub IsPassword : Option (List ℕ) → Type 0
IsPassword none = Unit {0}
IsPassword (some pw) = (1 ≤ length pw) × (length pw ≤ 80)

abbrev pub IsNeighbor : NeighborConfig → Type 0
IsNeighbor n = (n.remote_as ≢ 0) × (IsOwnHoldTime n.hold_time × IsPassword n.md5_password)

-- No two neighbors have one address.
abbrev pub HasDistinctAddrs : List NeighborConfig → Type 0
HasDistinctAddrs [] = Unit {0}
HasDistinctAddrs (n ∷ ns) = All (λ m. n.addr ≢ m.addr) ns × HasDistinctAddrs ns

abbrev pub IsValid : Config → Type 0
IsValid c =
    (c.router.local_as ≢ 0)
    × (IsRouterId c.router.router_id
        × (IsHoldTime c.router.hold_time
            × (IsKeepalive c.router.hold_time c.router.keepalive_interval
                × (All IsNeighbor c.neighbors × HasDistinctAddrs c.neighbors))))

iff_trans : {P Q R : Type 0} → (P ↔ Q) → (Q ↔ R) → P ↔ R
iff_trans p q = ((λ h. q.0 (p.0 h)), (λ h. p.1 (q.1 h)))

-- `if n == m { bail!(..) }`
bail_at_iff : (n m : ℕ) (e : ConfigError) → IsOk (bail_if (n == m) e) ↔ (n ≢ m)
bail_at_iff n m e = iff_trans (bail_iff (n == m) e) (ground arith, ground arith)

check_router_id_iff : (rid : ℕ) → IsOk (check_router_id rid) ↔ IsRouterId rid
unfolding check_router_id
check_router_id_iff rid =
    then_iff _ _ _ _ (bail_at_iff rid 0 _)
      (then_iff _ _ _ _ (bail_at_iff rid 4294967295 _) (bail_at_iff (rid / 16777216) 127 _))

check_keepalive_iff : (t : ℕ) (o : Option ℕ) → IsOk (check_keepalive t o) ↔ IsKeepalive t o
unfolding check_keepalive
check_keepalive_iff t none = ((λ h. tt), (λ h. refl))
check_keepalive_iff t (some ka) =
    then_iff _ _ _ _ (bail_at_iff ka 0 _) (iff_trans (bail_iff _ _) (ground arith, ground arith))

check_hold_time_iff :
    (addr : IpAddr) (o : Option ℕ) → IsOk (check_hold_time addr o) ↔ IsOwnHoldTime o
unfolding check_hold_time
check_hold_time_iff addr none = ((λ h. tt), (λ h. refl))
check_hold_time_iff addr (some t) = iff_trans (bail_iff _ _) (is_short_iff t)

check_password_iff :
    (addr : IpAddr) (o : Option (List ℕ)) → IsOk (check_password addr o) ↔ IsPassword o
unfolding check_password
check_password_iff addr none = ((λ h. tt), (λ h. refl))
check_password_iff addr (some pw) =
    then_iff _ _ _ _ (iff_trans (bail_iff _ _) (ground arith, ground arith))
      (iff_trans (bail_iff _ _) (ground arith, ground arith))

-- The loop as it runs.
abbrev AreTaken : List IpAddr → List NeighborConfig → Type 0
AreTaken seen [] = Unit {0}
AreTaken seen (n ∷ ns) =
    IsFree n.addr seen
    × ((n.remote_as ≢ 0)
        × (IsOwnHoldTime n.hold_time × (IsPassword n.md5_password × AreTaken (n.addr ∷ seen) ns)))

check_neighbors_iff :
    (seen : List IpAddr) (ns : List NeighborConfig)
    → IsOk (check_neighbors seen ns) ↔ AreTaken seen ns
unfolding check_neighbors
check_neighbors_iff seen [] = ((λ h. tt), (λ h. refl))
check_neighbors_iff seen (n ∷ ns) =
    then_iff _ _ _ _ (iff_trans (bail_iff _ _) (holds_iff seen n.addr)) (
      then_iff _ _ _ _ (bail_at_iff n.remote_as 0 _) (
        then_iff _ _ _ _ (check_hold_time_iff n.addr n.hold_time) (
          then_iff _ _ _ _ (check_password_iff n.addr n.md5_password)
            (check_neighbors_iff (n.addr ∷ seen) ns))))

All-zip :
    (P Q : NeighborConfig → Type 0) (ns : List NeighborConfig)
    → All (λ n. P n × Q n) ns ↔ (All P ns × All Q ns)
All-zip P Q [] = ((λ h. (tt, tt)), (λ h. tt))
All-zip P Q (n ∷ ns) =
    let (there, back) = All-zip P Q ns in
    (
      (λ h. let (p, q) = there h.1 in ((h.0.0, p), (h.0.1, q))),
      (λ h. ((h.0.0, h.1.0), back (h.0.1, h.1.1))),
    )

taken_iff :
    (seen : List IpAddr) (ns : List NeighborConfig)
    → AreTaken seen ns
      ↔ (All IsNeighbor ns × (HasDistinctAddrs ns × All (λ n. IsFree n.addr seen) ns))
taken_iff seen [] = ((λ h. (tt, (tt, tt))), (λ h. tt))
taken_iff seen (n ∷ ns) =
    let (there, back) = taken_iff (n.addr ∷ seen) ns in
    let (split, join) = All-zip (λ m. n.addr ≢ m.addr) (λ m. IsFree m.addr seen) ns in
    (
      (λ (free, (as_ok, (hold, (pw, rest)))).
          let (good, (distinct, others)) = there rest in
          let (apart, away) = split others in
          (((as_ok, (hold, pw)), good), ((apart, distinct), (free, away)))),
      (λ (((as_ok, (hold, pw)), good), ((apart, distinct), (free, away))).
          (free, (as_ok, (hold, (pw, back (good, (distinct, join (apart, away)))))))),
    )

none_seen : (ns : List NeighborConfig) → All (λ n. IsFree n.addr []) ns
none_seen [] = tt
none_seen (n ∷ ns) = (tt, none_seen ns)

unseen_iff :
    (ns : List NeighborConfig)
    → IsOk (check_neighbors [] ns) ↔ (All IsNeighbor ns × HasDistinctAddrs ns)
unseen_iff ns =
    iff_trans (check_neighbors_iff [] ns)
      (iff_trans (taken_iff [] ns) ((λ (a, (b, c)). (a, b)), (λ (a, b). (a, (b, none_seen ns)))))

-- A configuration is accepted exactly if the local AS is not 0, the router id is neither 0.0.0.0 nor
-- 255.255.255.255 nor a loopback address, the hold times are 0 or at least 3, a keepalive interval is
-- not 0 and below a hold time that is not 0, the AS numbers of the neighbors are not 0, their
-- passwords have 1 to 80 bytes, and no two of them have one address.
pub validate_iff : (c : Config) → (validate c ≡ ok tt) ↔ IsValid c
unfolding validate
validate_iff c = then_iff _ _ _ _ (bail_at_iff c.router.local_as 0 _) (
    then_iff _ _ _ _ (check_router_id_iff c.router.router_id) (
      then_iff _ _ _ _ (iff_trans (bail_iff _ _) (is_short_iff c.router.hold_time)) (
        then_iff _ _ _ _ (check_keepalive_iff c.router.hold_time c.router.keepalive_interval)
          (unseen_iff c.neighbors))))
