-- ===== src/Session/Loop/Steps.antt =====
-- How a call on a session of src/peer.rs ends, and how its later states stand to the earlier ones: in
-- the RIB, by the operations of src/rib.rs, and in the timers.
use pathforge.Base.{
  ◌∙◌, refl, ◌≡◌, if◌then◌else◌, Bool, ◌++◌, none, some, true, false, call, Option, bail_if, ℕ, ◌≤◌,
  List, inl, inr, Outcome, ok, err, panic, stuck, ◌>>=◌, map_err, Build, Returns,
}
use Prim.Native.String.{String}
use pathforge.Bytes.{BytesCrate, IsDocumented}
use pathforge.Attr.{AttrError}
use pathforge.Message.Update
use pathforge.Message.Update.{UpdateMessage}
use pathforge.Message.Update.Panic.{parse-ComesBack, cut_short_panics}
use pathforge.Rib.{Dampening, Rib}
use pathforge.Rib.Reachable.{Steps}
use pathforge.Session.Peer.{write_all, Peer, Session, SessionError, Call}

-- The loops of a call come to their end, or it panics.
abbrev pub Ends : {E A : Type 0} → Outcome E A → Type 0
Ends (ok a) = Unit {0}
Ends (err e) = Unit {0}
Ends panic = Unit {0}
Ends stuck = ⊥

-- So does a call on a session; of what an error leaves `P` holds, of what it returns `Q`.
abbrev pub Leaves :
    {Table A : Type 0} → (Session Table → Type 0) → (A → Type 0) → Call Table A → Type 0
Leaves P Q (ok a) = Q a
Leaves P Q (err (e, s)) = P s
Leaves P Q panic = Unit {0}
Leaves P Q stuck = ⊥

module _ {Table A B : Type 0} where
  pub Leaves-bind :
      (P : Session Table → Type 0) (Q : A → Type 0) (R : B → Type 0) (r : Call Table A)
      (k : A → Call Table B)
      → Leaves P Q r
      → ((a : A) → Q a → Leaves P R (k a))
      → Leaves P R (r >>= k)
  Leaves-bind P Q R (ok a) k h f = f a h
  Leaves-bind P Q R (err (e, s)) k h f = h
  Leaves-bind P Q R panic k h f = tt
  Leaves-bind P Q R stuck k h f = h

  -- A parser whose error ends the session.
  pub Leaves-parse :
      {E : Type 0} (P : Session Table → Type 0) (R : B → Type 0) (r : Outcome E A)
      (f : E → SessionError) (s : Session Table) (k : A → Call Table B)
      → Ends r
      → P s
      → ((a : A) → Leaves P R (k a))
      → Leaves P R (map_err (λ e. (f e, s)) r >>= k)
  Leaves-parse P R (ok a) f s k h p q = q a
  Leaves-parse P R (err e) f s k h p q = p
  Leaves-parse P R panic f s k h p q = tt
  Leaves-parse P R stuck f s k h p q = h

-- The state that an error leaves may be said to be less.
pub Leaves-mono :
    {Table A : Type 0} (P R : Session Table → Type 0) (Q T : A → Type 0) (r : Call Table A)
    → ((s : Session Table) → P s → R s)
    → ((a : A) → Q a → T a)
    → Leaves P Q r
    → Leaves R T r
Leaves-mono P R Q T (ok a) f g h = g a h
Leaves-mono P R Q T (err (e, s)) f g h = f s h
Leaves-mono P R Q T panic f g h = tt
Leaves-mono P R Q T stuck f g h = h

-- A parser of whose results `S` is known.
pub Leaves-Returns :
    {E Table A B : Type 0} (S : A → Type 0) (P : Session Table → Type 0) (R : B → Type 0)
    (r : Outcome E A) (f : E → SessionError) (s : Session Table) (k : A → Call Table B)
    → Returns S r
    → P s
    → ((a : A) → S a → Leaves P R (k a))
    → Leaves P R (map_err (λ e. (f e, s)) r >>= k)
Leaves-Returns S P R (ok a) f s k h p q = q a h
Leaves-Returns S P R (err e) f s k h p q = p
Leaves-Returns S P R panic f s k h p q = tt
Leaves-Returns S P R stuck f s k h p q = h

pub Leaves-write :
    {Table B : Type 0} (P : Session Table → Type 0) (R : B → Type 0) (answer : Bool)
    (bytes : List ℕ) (s : Session Table) (k : Session Table → Call Table B)
    → P s
    → Leaves P R (k (record s { sent = s.sent ++ bytes }))
    → Leaves P R (write_all answer bytes s >>= k)
Leaves-write P R true bytes s k h f = f
Leaves-write P R false bytes s k h f = h

pub Leaves-if :
    {Table A : Type 0} (P : Session Table → Type 0) (Q : A → Type 0) (b : Bool) (x y : Call Table A)
    → Leaves P Q x
    → Leaves P Q y
    → Leaves P Q (if b then x else y)
Leaves-if P Q true x y h k = h
Leaves-if P Q false x y h k = k

-- Of the value of a call that does not panic `Q` holds.
abbrev pub Holds : {A : Type 0} → (A → Type 0) → Option A → Type 0
Holds Q none = Unit {0}
Holds Q (some a) = Q a

pub Leaves-call :
    {Table A B : Type 0} (P : Session Table → Type 0) (Q : A → Type 0) (R : B → Type 0)
    (r : Option A) (k : A → Call Table B)
    → Holds Q r
    → ((a : A) → Q a → Leaves P R (k a))
    → Leaves P R (call r >>= k)
Leaves-call P Q R none k h f = tt
Leaves-call P Q R (some a) k h f = f a h

module _ {E A : Type 0} where
  pub Ends-bind :
      {B : Type 0} (r : Outcome E A) (k : A → Outcome E B)
      → Ends r
      → ((a : A) → Ends (k a))
      → Ends (r >>= k)
  Ends-bind (ok a) k h f = f a
  Ends-bind (err e) k h f = tt
  Ends-bind panic k h f = tt
  Ends-bind stuck k h f = h

pub call-Ends : (E : Type 0) {A : Type 0} (r : Option A) → Ends (call {E = E} r)
call-Ends E none = tt
call-Ends E (some a) = tt

pub bail_if-Ends : {E : Type 0} (b : Bool) (e : E) → Ends (bail_if b e)
bail_if-Ends true e = tt
bail_if-Ends false e = tt

pub ComesBack-Ends : {E A : Type 0} (P : A → Type 0) (r : Outcome E A) → Returns P r → Ends r
ComesBack-Ends P (ok a) h = tt
ComesBack-Ends P (err e) h = tt
ComesBack-Ends P panic h = tt
ComesBack-Ends P stuck h = h

pub update-Ends :
    (o : BytesCrate)
    → IsDocumented o
    → (describe : AttrError → String) (body : List ℕ) → Ends (Update.parse o describe body)
update-Ends o doc describe body = elim (parse-ComesBack o doc describe body) [
  | inl short ↦ rw (cut_short_panics o doc describe body short) tt
  | inr back ↦ ComesBack-Ends _ _ back
]

module _ (d : Dampening) (build : Build) where
  open d use {Table}

  -- The second RIB comes of the first by operations of src/rib.rs.
  pub data Follows (rib : Rib Table) : Rib Table → Type 0 where
    done : Follows rib rib
    next : {mid after : Rib Table} → Follows rib mid → Steps d build mid after → Follows rib after

  pub Follows-append : (a b c : Rib Table) → Follows a b → Follows b c → Follows a c
  Follows-append a b _ f done = f
  Follows-append a b c f (next {mid = mid} g s) = next (Follows-append a b mid f g) s

  -- The hold timer runs for no longer than is configured.
  abbrev pub IsHeld : Peer → Type 0
  IsHeld p = p.timers.hold_time ≤ p.local.hold_time

  -- From a session to a later state of it.
  pub record IsLater (s0 s : Session Table) : Type 0 where
    pub routes : Follows s0.rib s.rib
    pub held : IsHeld s0.peer → IsHeld s.peer
    pub same : s.peer.local ≡ s0.peer.local

  pub IsLater-refl : (s : Session Table) → IsLater s s
  IsLater-refl s = record { routes = done; held = λ h. h; same = refl }

  pub IsLater-trans : (a b c : Session Table) → IsLater a b → IsLater b c → IsLater a c
  IsLater-trans a b c u v = record {
    routes = Follows-append a.rib b.rib c.rib u.routes v.routes;
    held = λ h. v.held (u.held h);
    same = v.same ∙ u.same;
  }

  -- What an error leaves of a session that is given up.
  pub record IsGivenUp (s0 s : Session Table) : Type 0 where
    pub later : IsLater s0 s
    pub kept : s.rib ≡ s0.rib
