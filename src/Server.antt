-- ===== src/Server.antt =====
-- src/server.rs: the sessions of all connections over one RIB, and the tasks that they leave behind.
-- A task runs to the end of a turn of its loop before another one does something.
pub mod Moves
pub mod Worlds
pub mod Held
pub mod Shown
pub mod Listed
mod Tests
use Prim.Native.String.{String}
use pathforge.Base.{
  ℕ, List, [], ◌∷◌, ◌++◌, Option, none, some, Bool, false, ok, err, panic, stuck, Build,
}
use pathforge.Bytes.{BytesCrate}
use pathforge.Attr.{AttrError}
use pathforge.Metrics.{Metrics}
use pathforge.Rib
use pathforge.Rib.{Dampening, Rib}
use pathforge.Rpki.{RpkiValidator}
use pathforge.Session.Loop.{Answers, Turn, goes_on, returns, turn, start}
use pathforge.Session.Peer.{Peer, Session, Call}
use pathforge.Session.Peer.Disconnect
use pathforge.Session.Timers.{LocalConfig}

-- What a session's task holds: the peer, what it has written, and the bytes that wait.
pub record Task : Type 0 where
  pub peer : Peer
  pub sent : List ℕ
  pub buf : List ℕ

-- The server with its tasks: what the sessions share, the sessions, and the peers whose stale routes
-- a spawned task will purge. `poisoned` says whether a task panicked with the RIB's lock in its hands.
pub record World (Table : Type 0) : Type 0 where
  pub local : LocalConfig
  pub rib : Rib Table
  pub poisoned : Bool
  pub metrics : Metrics
  pub tasks : List Task
  pub purges : List ℕ

-- The peers to be purged, with one more if a purge is to run.
abbrev pub add_purge : ℕ → Option ℕ → List ℕ → List ℕ
add_purge addr none purges = purges
add_purge addr (some seconds) purges = addr ∷ purges

module _ {Table : Type 0} where
  -- A session as its task finds it.
  abbrev pub enter : World Table → Task → Session Table
  enter w t = record {
    peer = t.peer;
    rib = w.rib;
    poisoned = w.poisoned;
    metrics = w.metrics;
    sent = t.sent;
  }

  -- What a session leaves to the others, with the tasks and purges that there are then.
  abbrev pub leave : World Table → Session Table → List Task → List ℕ → World Table
  leave w s tasks purges = record {
    local = w.local;
    rib = s.rib;
    poisoned = w.poisoned;
    metrics = s.metrics;
    tasks = tasks;
    purges = purges;
  }

  abbrev pub task_of : Session Table → List ℕ → Task
  task_of s buf = record { peer = s.peer; sent = s.sent; buf = buf }

  -- A turn of the task between `before` and `behind`: it goes on, returns, or ends with the error that
  -- the closure of `tokio::spawn` logs. `none` is a panic, which ends the task alone.
  unfoldable pub settle :
      World Table → List Task → List Task → Call Table (Turn Table) → Option (World Table)
  settle w before behind (ok (goes_on s rest)) =
      some (leave w s (before ++ (task_of s rest ∷ behind)) w.purges)
  settle w before behind (ok (returns s later)) =
      some (leave w s (before ++ behind) (add_purge s.peer.addr later w.purges))
  settle w before behind (err (e, s)) = some (leave w s (before ++ behind) w.purges)
  settle w before behind panic = none
  settle w before behind stuck = none

  -- The task of a new connection as far as its loop.
  unfoldable pub admit : World Table → Call Table (Session Table) → Option (World Table)
  admit w (ok s) = some (leave w s (w.tasks ++ (task_of s [] ∷ [])) w.purges)
  admit w (err (e, s)) = some (leave w s w.tasks w.purges)
  admit w panic = none
  admit w stuck = none

module _ (o : BytesCrate) (d : Dampening) (build : Build) (describe : AttrError → String) where
  open d use {Table}

  -- `Server::new`, with the table and the validator of `Rib::new`.
  unfoldable pub new : LocalConfig → Metrics → Table → RpkiValidator → World Table
  new local metrics table rpki = record {
    local = local;
    rib = Rib.new d table rpki;
    poisoned = false;
    metrics = metrics;
    tasks = [];
    purges = [];
  }

  -- A round of the loop of `Server::run` that accepts a connection.
  unfoldable pub accept : World Table → ℕ → Bool → Option (World Table)
  accept w peer_addr answer =
      admit w (start o d build describe w.local peer_addr w.rib w.poisoned w.metrics answer)

  unfoldable pub run_task :
      Answers → World Table → List Task → Task → List Task → Option (World Table)
  run_task a w before t behind =
      settle w before behind (turn o d build describe a (enter w t) t.buf)

  -- The task that purges a peer, once its time is over.
  unfoldable pub run_purge : World Table → List ℕ → ℕ → List ℕ → World Table
  run_purge w before addr behind = record w {
    rib = Disconnect.purge d w.poisoned w.rib addr;
    purges = before ++ behind;
  }
