-- ===== src/Session/Loop/Shared.antt =====
-- A session of src/peer.rs among others that work on the same RIB.
use Prim.Native.String.{String}
use pathforge.Base.{
  ℕ, ◌≤◌, ◌≡◌, refl, sym, subst, List, [], All, IsU8, Bool, true, false, ok, Build, arith, get,
}
use pathforge.Bytes.{BytesCrate, IsDocumented}
use pathforge.Attr.{AttrError}
use pathforge.Metrics.{Metrics}
use pathforge.Rpki.{RpkiValidator}
use pathforge.Rib.{Dampening, Rib}
use pathforge.Rib.Routes.{PrefixKey, same_key}
use pathforge.Rib.Fresh.{fresh_of, offers}
use pathforge.Rib.Selection.{IsSelected}
use pathforge.Rib.Reachable as Reachable
use pathforge.Rib.Reachable.{Reaches, Reaches-IsSelected}
use pathforge.Session.Timers
use pathforge.Session.Timers.{LocalConfig, BgpTimers}
use pathforge.Session.Peer as PeerModule
use pathforge.Session.Peer.{Peer, Session, SessionError, Call, message_error, io_error, write_all}
use pathforge.Session.Loop.{goes_on, Answers, turn, start}
use pathforge.Session.Loop.Steps.{Leaves, Follows, done, next, IsHeld, IsLater}
use pathforge.Session.Loop.Runs.{IsRead, IsTurned, turn-IsTurned}

pub Follows-Reaches :
    (d : Dampening) (build : Build) (table : d.Table) (rpki : RpkiValidator)
    (rib after : Rib d.Table)
    → Reaches d build table rpki rib
    → Follows d build rib after
    → Reaches d build table rpki after
Follows-Reaches d build table rpki rib _ r done = r
Follows-Reaches d build table rpki rib after r (next {mid = mid} f s) =
    Reachable.step (Follows-Reaches d build table rpki rib mid r f) s

module _ (o : BytesCrate) (doc : IsDocumented o) (d : Dampening) (build : Build)
    (describe : AttrError → String) where
  open d use {Table}

  -- A session of a connection that came in, from the start on: its own turns, and between them what
  -- other sessions do with the RIB, its lock and the metrics. The buffer waits for the next turn.
  pub data Runs (table : Table) (rpki : RpkiValidator) : Session Table → List ℕ → Type 0 where
    begins :
        {s : Session Table} (local : LocalConfig) (addr : ℕ) (rib : Rib Table) (poisoned : Bool)
        (metrics : Metrics) (answer : Bool)
        → Reaches d build table rpki rib
        → start o d build describe local addr rib poisoned metrics answer ≡ ok s
        → Runs table rpki s []
    turns :
        {s after : Session Table} {buf rest : List ℕ} (a : Answers)
        → Runs table rpki s buf
        → IsRead o doc d build describe a.input
        → turn o d build describe a s buf ≡ ok (goes_on after rest)
        → Runs table rpki after rest
    others :
        {s : Session Table} {buf : List ℕ} (rib : Rib Table) (poisoned : Bool) (metrics : Metrics)
        → Runs table rpki s buf
        → Follows d build s.rib rib
        → Runs table rpki (record s { rib = rib; poisoned = poisoned; metrics = metrics }) buf

  record IsSound (table : Table) (rpki : RpkiValidator) (s : Session Table) (buf : List ℕ)
      : Type 0 where
    pub reached : Reaches d build table rpki s.rib
    pub held : IsHeld d build s.peer
    pub waiting : All IsU8 buf

  unfoldable pub IsStarted : Rib Table → Session Table → Type 0
  IsStarted rib s = (s.rib ≡ rib) × IsHeld d build s.peer

  start-IsStarted :
      (local : LocalConfig) (addr : ℕ) (rib : Rib Table) (poisoned : Bool) (metrics : Metrics)
      (answer : Bool)
      → Leaves
          (λ _. Unit {0})
          (IsStarted rib)
          (start o d build describe local addr rib poisoned metrics answer)
  unfolding IsStarted start PeerModule.new Timers.new
  start-IsStarted local addr rib poisoned metrics true = (refl, omega arith)
  start-IsStarted local addr rib poisoned metrics false = tt

  Runs-IsSound :
      (table : Table) (rpki : RpkiValidator) (s : Session Table) (buf : List ℕ)
      → Runs table rpki s buf
      → IsSound table rpki s buf
  unfolding IsStarted
  Runs-IsSound table rpki s _ (begins local addr rib poisoned metrics answer r e) =
      let (same, held) =
        subst (Leaves (λ _. Unit {0}) (IsStarted rib)) e
          (start-IsStarted local addr rib poisoned metrics answer) in
      record {
        reached = subst (Reaches d build table rpki) (sym same) r;
        held = held;
        waiting = tt;
      }
  Runs-IsSound table rpki s buf (turns {s = before} {buf = old} a r h e) =
      let was = Runs-IsSound table rpki before old r in
      let (later, left) =
        subst (Leaves (IsLater d build before) (IsTurned o doc d build describe before)) e
          (turn-IsTurned o doc d build describe a before old was.waiting h) in
      record {
        reached = Follows-Reaches d build table rpki before.rib s.rib was.reached later.routes;
        held = later.held was.held;
        waiting = left;
      }
  Runs-IsSound table rpki _ buf (others {s = before} rib poisoned metrics r f) =
      let was = Runs-IsSound table rpki before buf r in
      record {
        reached = Follows-Reaches d build table rpki before.rib rib was.reached f;
        held = was.held;
        waiting = was.waiting;
      }

  -- While a session runs, whatever it receives and whatever the other sessions do with the RIB
  -- meanwhile, the Loc-RIB has for every prefix a route that is behind none of those that the peers
  -- have for it, and no route exactly if they have none, the stale flag aside.
  Runs-IsSelected :
      (table : Table) (rpki : RpkiValidator) (s : Session Table) (buf : List ℕ)
      → Runs table rpki s buf
      → (key : PrefixKey)
      → IsSelected (fresh_of (get same_key key s.rib.loc_rib)) (offers key s.rib.adj_rib_in)
  Runs-IsSelected table rpki s buf r key =
      Reaches-IsSelected d build table rpki s.rib (Runs-IsSound table rpki s buf r).reached key

  -- While a session runs, the hold time of its timers is at most the one that is configured.
  Runs-IsHeld :
      (table : Table) (rpki : RpkiValidator) (s : Session Table) (buf : List ℕ)
      → Runs table rpki s buf
      → s.peer.timers.hold_time ≤ s.peer.local.hold_time
  Runs-IsHeld table rpki s buf r = (Runs-IsSound table rpki s buf r).held
