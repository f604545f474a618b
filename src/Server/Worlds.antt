-- ===== src/Server/Worlds.antt =====
-- What holds in each of the worlds that the server comes to.
use pathforge.Server.Moves.{
  Moves, accepts, turns, breaks, breaks_lock, purges, Serves, opens, moves,
}
use pathforge.Base.{
  ◌∙◌, get, arith, [], All-front, All-back, All-append, refl, sym, subst, ok, err, panic, stuck, ℕ,
  ◌≡◌, List, ◌∷◌, ◌++◌, All, IsU8, Bool, true, false, Build,
}
use pathforge.Rib.Routes.{PrefixKey, same_key}
use pathforge.Rib.Fresh.{fresh_of, offers}
use pathforge.Rib.Selection.{IsSelected}
use pathforge.Rib.Reachable as Reachable
use pathforge.Rib.Reachable.{Reaches, Reaches-IsSelected}
use pathforge.Session.Peer as PeerModule
use pathforge.Session.Timers
use pathforge.Server.{Task, World, enter, task_of, settle, admit, new, accept, run_task, run_purge}
use pathforge.Session.Loop.{goes_on, returns, start, Turn}
use pathforge.Session.Loop.Runs.{IsTurned, turn-IsTurned}
use pathforge.Session.Loop.Shared.{Follows-Reaches}
use pathforge.Session.Loop.Steps.{Leaves, Holds, IsLater, IsHeld}
use pathforge.Session.Peer.{Session, Call}
use pathforge.Session.Peer.Disconnect.{purge}
use Prim.Native.String.{String}
use pathforge.Bytes.{BytesCrate, IsDocumented}
use pathforge.Attr.{AttrError}
use pathforge.Rib.{Dampening, Rib}
use pathforge.Rpki.{RpkiValidator}
use pathforge.Session.Timers.{LocalConfig}

module _ (o : BytesCrate) (doc : IsDocumented o) (d : Dampening) (build : Build)
    (describe : AttrError → String) where
  open d use {Table}

  -- What holds of a task: its configuration, its timers and the bytes that wait.
  abbrev pub IsTask : LocalConfig → Task → Type 0
  IsTask local t = (t.peer.local ≡ local) × (IsHeld d build t.peer × All IsU8 t.buf)

  pub record IsKept (table : Table) (rpki : RpkiValidator) (w : World Table) : Type 0 where
    pub reached : w.poisoned ≡ false → Reaches d build table rpki w.rib
    pub sound : All (IsTask w.local) w.tasks

  -- Where the lock is sound, the RIB that a session leaves is one that the operations come to.
  later-reached :
      (table : Table) (rpki : RpkiValidator) (w : World Table) (t : Task) (s : Session Table)
      → IsKept table rpki w
      → IsLater d build (enter w t) s
      → w.poisoned ≡ false
      → Reaches d build table rpki s.rib
  later-reached table rpki w t s k l sound =
      Follows-Reaches d build table rpki w.rib s.rib (k.reached sound) l.routes

  settle-IsKept :
      (table : Table) (rpki : RpkiValidator) (w : World Table) (before : List Task) (t : Task)
      (behind : List Task) (r : Call Table (Turn Table))
      → IsKept table rpki w
      → IsTask w.local t
      → All (IsTask w.local) before
      → All (IsTask w.local) behind
      → Leaves (IsLater d build (enter w t)) (IsTurned o doc d build describe (enter w t)) r
      → Holds (IsKept table rpki) (settle w before behind r)
  unfolding settle
  settle-IsKept table rpki w before t behind (ok (goes_on s rest)) k h b c (l, bytes) = record {
    reached = later-reached table rpki w t s k l;
    sound =
        All-append (IsTask w.local) before (task_of s rest ∷ behind) b
          ((l.same ∙ h.0, (l.held h.1.0, bytes)), c);
  }
  settle-IsKept table rpki w before t behind (ok (returns s later)) k h b c l = record {
    reached = later-reached table rpki w t s k l;
    sound = All-append (IsTask w.local) before behind b c;
  }
  settle-IsKept table rpki w before t behind (err (e, s)) k h b c l = record {
    reached = later-reached table rpki w t s k l;
    sound = All-append (IsTask w.local) before behind b c;
  }
  settle-IsKept table rpki w before t behind panic k h b c l = tt
  settle-IsKept table rpki w before t behind stuck k h b c l = tt

  -- A session as the start leaves it.
  abbrev IsBegun : World Table → Session Table → Type 0
  IsBegun w s = (s.rib ≡ w.rib) × ((s.peer.local ≡ w.local) × IsHeld d build s.peer)

  admit-IsKept :
      (table : Table) (rpki : RpkiValidator) (w : World Table) (r : Call Table (Session Table))
      → IsKept table rpki w
      → Leaves (λ s. s.rib ≡ w.rib) (IsBegun w) r
      → Holds (IsKept table rpki) (admit w r)
  unfolding admit
  admit-IsKept table rpki w (ok s) k (same, (own, held)) = record {
    reached = λ sound. subst (Reaches d build table rpki) (sym same) (k.reached sound);
    sound = All-append (IsTask w.local) w.tasks (task_of s [] ∷ []) k.sound ((own, (held, tt)), tt);
  }
  admit-IsKept table rpki w (err (e, s)) k same = record {
    reached = λ sound. subst (Reaches d build table rpki) (sym same) (k.reached sound);
    sound = k.sound;
  }
  admit-IsKept table rpki w panic k h = tt
  admit-IsKept table rpki w stuck k h = tt

  purge-reached :
      (table : Table) (rpki : RpkiValidator) (rib : Rib Table) (poisoned : Bool) (addr : ℕ)
      → Reaches d build table rpki rib
      → poisoned ≡ false
      → Reaches d build table rpki (purge d poisoned rib addr)
  unfolding purge
  purge-reached table rpki rib true addr r sound = absurd (ground (arith, sound))
  purge-reached table rpki rib false addr r sound = Reachable.step r (Reachable.drop_stale addr)

  -- The tasks beside one of them.
  beside :
      (local : LocalConfig) (before : List Task) (t : Task) (behind : List Task) (tasks : List Task)
      → tasks ≡ before ++ (t ∷ behind)
      → All (IsTask local) tasks
      → All (IsTask local) before × (IsTask local t × All (IsTask local) behind)
  beside local before t behind tasks e h =
      let all : All (IsTask local) (before ++ (t ∷ behind)) = subst (All (IsTask local)) e h in
      (
        All-front (IsTask local) before (t ∷ behind) all,
        All-back (IsTask local) before (t ∷ behind) all,
      )

  start-keeps_rib :
      (w : World Table) (addr : ℕ) (answer : Bool)
      → Leaves
          (λ s. s.rib ≡ w.rib)
          (IsBegun w)
          (start o d build describe w.local addr w.rib w.poisoned w.metrics answer)
  unfolding start PeerModule.new Timers.new
  start-keeps_rib w addr true = (refl, (refl, omega arith))
  start-keeps_rib w addr false = refl

  Moves-IsKept :
      (table : Table) (rpki : RpkiValidator) (w after : World Table)
      → Moves o doc d build describe w after
      → IsKept table rpki w
      → IsKept table rpki after
  unfolding accept run_task run_purge
  Moves-IsKept table rpki w after (accepts addr answer e) k =
      subst (Holds (IsKept table rpki)) e
        (admit-IsKept table rpki w _ k (start-keeps_rib w addr answer))
  Moves-IsKept table rpki w after (turns a before t behind tasks read e) k =
      let (b, (h, c)) = beside w.local before t behind w.tasks tasks k.sound in
      subst (Holds (IsKept table rpki)) e (
        settle-IsKept table rpki w before t behind _ k h b c
          (turn-IsTurned o doc d build describe a (enter w t) t.buf h.1.1 read))
  Moves-IsKept table rpki w _ (breaks a before t behind rib metrics tasks e f) k =
      let (b, (h, c)) = beside w.local before t behind w.tasks tasks k.sound in
      record {
        reached = λ sound. Follows-Reaches d build table rpki w.rib rib (k.reached sound) f;
        sound = All-append (IsTask w.local) before behind b c;
      }
  Moves-IsKept table rpki w _ (breaks_lock a before t behind rib metrics tasks e) k =
      let (b, (h, c)) = beside w.local before t behind w.tasks tasks k.sound in
      record {
        reached = λ sound. absurd (ground (arith, sound));
        sound = All-append (IsTask w.local) before behind b c;
      }
  Moves-IsKept table rpki w _ (purges before addr behind e) k = record {
    reached = λ sound. purge-reached table rpki w.rib w.poisoned addr (k.reached sound) sound;
    sound = k.sound;
  }

  pub Serves-IsKept :
      (local : LocalConfig) (table : Table) (rpki : RpkiValidator) (w : World Table)
      → Serves o doc d build describe local table rpki w
      → IsKept table rpki w
  unfolding new
  Serves-IsKept local table rpki _ (opens metrics) = record {
    reached = λ sound. Reachable.start;
    sound = tt;
  }
  Serves-IsKept local table rpki after (moves {w = w} s m) =
      Moves-IsKept table rpki w after m (Serves-IsKept local table rpki w s)

  -- As long as the lock is sound, the RIB is one that its operations come to.
  pub Serves-Reaches :
      (local : LocalConfig) (table : Table) (rpki : RpkiValidator) (w : World Table)
      → Serves o doc d build describe local table rpki w
      → w.poisoned ≡ false
      → Reaches d build table rpki w.rib
  Serves-Reaches local table rpki w s sound = (Serves-IsKept local table rpki w s).reached sound

  -- Whatever connections come in, whatever their peers send, in whatever order the tasks take their
  -- turns and whichever of them panic: as long as no task has panicked with the lock of the RIB in its
  -- hands, the Loc-RIB has for every prefix a route that is behind none of those that the peers have
  -- for it, and no route exactly if they have none, the stale flag aside.
  pub Serves-IsSelected :
      (local : LocalConfig) (table : Table) (rpki : RpkiValidator) (w : World Table)
      → Serves o doc d build describe local table rpki w
      → w.poisoned ≡ false
      → (key : PrefixKey)
      → IsSelected (fresh_of (get same_key key w.rib.loc_rib)) (offers key w.rib.adj_rib_in)
  Serves-IsSelected local table rpki w s sound key =
      Reaches-IsSelected d build table rpki w.rib (Serves-Reaches local table rpki w s sound) key
