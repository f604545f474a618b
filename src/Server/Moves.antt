-- ===== src/Server/Moves.antt =====
-- What happens to the server of src/server.rs, step by step, and the worlds that it comes to.
use pathforge.Server.{Task, World, new, accept, run_task, run_purge}
use Prim.Native.String.{String}
use pathforge.Base.{ℕ, ◌≡◌, List, ◌∷◌, ◌++◌, none, some, Bool, true, Build}
use pathforge.Bytes.{BytesCrate, IsDocumented}
use pathforge.Attr.{AttrError}
use pathforge.Metrics.{Metrics}
use pathforge.Rib.{Dampening, Rib}
use pathforge.Rpki.{RpkiValidator}
use pathforge.Session.Loop.{Answers}
use pathforge.Session.Loop.Runs.{IsRead}
use pathforge.Session.Loop.Steps.{Follows}
use pathforge.Session.Timers.{LocalConfig}

module _ (o : BytesCrate) (doc : IsDocumented o) (d : Dampening) (build : Build)
    (describe : AttrError → String) where
  open d use {Table}

  -- What happens to the server. A task may panic with the lock of the RIB in its hands, or without:
  -- then the messages before the one that it panics on have been handled.
  pub data Moves : World Table → World Table → Type 0 where
    accepts :
        {w after : World Table} (addr : ℕ) (answer : Bool)
        → accept o d build describe w addr answer ≡ some after
        → Moves w after
    turns :
        {w after : World Table} (a : Answers) (before : List Task) (t : Task) (behind : List Task)
        → w.tasks ≡ before ++ (t ∷ behind)
        → IsRead o doc d build describe a.input
        → run_task o d build describe a w before t behind ≡ some after
        → Moves w after
    breaks :
        {w : World Table} (a : Answers) (before : List Task) (t : Task) (behind : List Task)
        (rib : Rib Table) (metrics : Metrics)
        → w.tasks ≡ before ++ (t ∷ behind)
        → run_task o d build describe a w before t behind ≡ none
        → Follows d build w.rib rib
        → Moves w (record w { rib = rib; metrics = metrics; tasks = before ++ behind })
    breaks_lock :
        {w : World Table} (a : Answers) (before : List Task) (t : Task) (behind : List Task)
        (rib : Rib Table) (metrics : Metrics)
        → w.tasks ≡ before ++ (t ∷ behind)
        → run_task o d build describe a w before t behind ≡ none
        → Moves w
            (record w { rib = rib; poisoned = true; metrics = metrics; tasks = before ++ behind })
    purges :
        {w : World Table} (before : List ℕ) (addr : ℕ) (behind : List ℕ)
        → w.purges ≡ before ++ (addr ∷ behind)
        → Moves w (run_purge o d build describe w before addr behind)

  pub data Serves (local : LocalConfig) (table : Table) (rpki : RpkiValidator)
      : World Table → Type 0 where
    opens :
        (metrics : Metrics)
        → Serves local table rpki (new o d build describe local metrics table rpki)
    moves :
        {w after : World Table}
        → Serves local table rpki w
        → Moves w after
        → Serves local table rpki after
