-- ===== src/Server/Held.antt =====
-- For how long the hold timers of the sessions of the server run.
use pathforge.Server.Moves.{
  Moves, accepts, turns, breaks, breaks_lock, purges, Serves, opens, moves,
}
use pathforge.Server.Worlds.{IsTask, Serves-IsKept}
use Prim.Native.String.{String}
use pathforge.Base.{ℕ, ◌≤◌, ◌≡◌, refl, subst, ◌∙◌, List, [], ◌∷◌, All, ok, err, panic, stuck, Build}
use pathforge.Bytes.{BytesCrate, IsDocumented}
use pathforge.Attr.{AttrError}
use pathforge.Rib.{Dampening}
use pathforge.Rpki.{RpkiValidator}
use pathforge.Server.{Task, World, settle, admit, new, accept, run_task, run_purge}
use pathforge.Session.Loop.{Turn, goes_on, returns}
use pathforge.Session.Loop.Steps.{Holds}
use pathforge.Session.Peer.{Session, Call}
use pathforge.Session.Timers.{LocalConfig}

-- The hold timer of a session runs for this long at most.
abbrev pub IsHeldFor : ℕ → Task → Type 0
IsHeldFor hold_time t = t.peer.timers.hold_time ≤ hold_time

module _ (o : BytesCrate) (doc : IsDocumented o) (d : Dampening) (build : Build)
    (describe : AttrError → String) where
  open d use {Table}

  -- The configuration of the server stays.
  abbrev IsHome : LocalConfig → World Table → Type 0
  IsHome local w = w.local ≡ local

  settle-IsHome :
      (w : World Table) (before behind : List Task) (r : Call Table (Turn Table))
      → Holds (IsHome w.local) (settle w before behind r)
  unfolding settle
  settle-IsHome w before behind (ok (goes_on s rest)) = refl
  settle-IsHome w before behind (ok (returns s later)) = refl
  settle-IsHome w before behind (err (e, s)) = refl
  settle-IsHome w before behind panic = tt
  settle-IsHome w before behind stuck = tt

  admit-IsHome :
      (w : World Table) (r : Call Table (Session Table)) → Holds (IsHome w.local) (admit w r)
  unfolding admit
  admit-IsHome w (ok s) = refl
  admit-IsHome w (err (e, s)) = refl
  admit-IsHome w panic = tt
  admit-IsHome w stuck = tt

  Moves-IsHome :
      (w after : World Table) → Moves o doc d build describe w after → IsHome w.local after
  unfolding accept run_task run_purge
  Moves-IsHome w after (accepts addr answer e) = subst (Holds (IsHome w.local)) e (admit-IsHome w _)
  Moves-IsHome w after (turns a before t behind tasks read e) =
      subst (Holds (IsHome w.local)) e (settle-IsHome w before behind _)
  Moves-IsHome w _ (breaks a before t behind rib metrics tasks e f) = refl
  Moves-IsHome w _ (breaks_lock a before t behind rib metrics tasks e) = refl
  Moves-IsHome w _ (purges before addr behind e) = refl

  Serves-IsHome :
      (local : LocalConfig) (table : Table) (rpki : RpkiValidator) (w : World Table)
      → Serves o doc d build describe local table rpki w
      → IsHome local w
  unfolding new
  Serves-IsHome local table rpki _ (opens metrics) = refl
  Serves-IsHome local table rpki after (moves {w = w} s m) =
      Moves-IsHome w after m ∙ Serves-IsHome local table rpki w s

  tasks-IsHeldFor :
      (local : LocalConfig) (ts : List Task)
      → All (IsTask o doc d build describe local) ts
      → All (IsHeldFor local.hold_time) ts
  tasks-IsHeldFor local [] h = tt
  tasks-IsHeldFor local (t ∷ ts) h = (
    subst (λ l. t.peer.timers.hold_time ≤ l.hold_time) h.0.0 h.0.1.0,
    tasks-IsHeldFor local ts h.1,
  )

  -- In every world that the server comes to, also after panics, the hold timer of every session runs
  -- for at most the hold time that the server was started with.
  pub Serves-IsHeldFor :
      (local : LocalConfig) (table : Table) (rpki : RpkiValidator) (w : World Table)
      → Serves o doc d build describe local table rpki w
      → All (IsHeldFor local.hold_time) w.tasks
  Serves-IsHeldFor local table rpki w s =
      let home = Serves-IsHome local table rpki w s in
      tasks-IsHeldFor local w.tasks (
        subst (λ l. All (IsTask o doc d build describe l) w.tasks) home
          (Serves-IsKept o doc d build describe local table rpki w s).sound)
