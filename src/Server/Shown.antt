-- ===== src/Server/Shown.antt =====
-- What an operator is told about a prefix, and what the peers have announced for it.
use pathforge.Server.Moves.{Serves}
use pathforge.Server.Worlds.{Serves-IsSelected}
use Prim.Native.String.{String}
use pathforge.Base.{
  Build, false, get, IsU8, IsU32, ◌++◌, ℕ, ◌≡◌, refl, List, [], Option, none, some, ◌⊎◌, inl, inr,
}
use pathforge.Bytes.{BytesCrate, IsDocumented}
use pathforge.Attr.{AttrError}
use pathforge.Mgmt.{process_command, Host, Shared}
use pathforge.Mgmt.Detail.Lookup.{process_command-show_key}
use pathforge.Rib.{Dampening}
use pathforge.Rib.Fresh.{offers, fresh_of, fresh}
use pathforge.Rib.Routes.{PrefixKey, same_key, Route}
use pathforge.Rpki.{RpkiValidator}
use pathforge.Session.Timers.{LocalConfig}
use pathforge.Text.{chars}
use pathforge.Text.Shown.{show_key}
use pathforge.Mgmt.Detail.{found_text, route_detail}
use pathforge.Mgmt.Peers.{MgmtState}
use pathforge.Rib.Decision.Best.{IsBest}
use pathforge.Rib.Selection.{IsSelected}
use pathforge.Server.{World}

-- What a command finds in a world.
abbrev pub shared_of : {Table : Type 0} → World Table → MgmtState → Shared Table
shared_of w state = record { state = state; rib = w.rib; metrics = w.metrics }

-- The answer says that there is no route, and there is none; or it shows a route that is behind none
-- of the routes that the peers have.
abbrev pub IsAnswer : Host → List ℕ → List ℕ → List Route → Type 0
IsAnswer host prefix_str answer offered =
    ((answer ≡ found_text host.show_socket prefix_str none) × (offered ≡ []))
    ⊎ ((r : Route) × (answer ≡ route_detail host.show_socket prefix_str r)
        × IsBest (fresh r) offered)

found-IsAnswer :
    (host : Host) (s : List ℕ) (o : Option Route) (offered : List Route)
    → IsSelected (fresh_of o) offered
    → IsAnswer host s (found_text host.show_socket s o) offered
unfolding found_text
found-IsAnswer host s none offered h = inl (refl, h)
found-IsAnswer host s (some r) offered h = inr (r, refl, h)

module _ (o : BytesCrate) (doc : IsDocumented o) (d : Dampening) (build : Build)
    (describe : AttrError → String) where
  open d use {Table}

  -- In every world that the server comes to, as long as no task has panicked with the lock of the RIB
  -- in its hands, `show bgp rib prefix` with a prefix as the tables print it tells of no route, and no
  -- peer has one for it, or shows one that is behind none of those that they have, the stale flag aside.
  pub process_command-IsAnswer :
      (local : LocalConfig) (table : Table) (rpki : RpkiValidator) (w : World Table)
      → Serves o doc d build describe local table rpki w
      → w.poisoned ≡ false
      → (host : Host) (state : MgmtState) (key : PrefixKey) → IsU32 key.address
      → IsU8 key.prefix_len
      → IsAnswer host
          (show_key key)
          (process_command host (chars "show bgp rib prefix " ++ show_key key) (shared_of w state))
          (offers key w.rib.adj_rib_in)
  process_command-IsAnswer local table rpki w s sound host state key a l =
      let e = process_command-show_key host (shared_of w state) key a l in
      let selected = Serves-IsSelected o doc d build describe local table rpki w s sound key in
      rw e (
        found-IsAnswer host (show_key key) (get same_key key w.rib.loc_rib)
          (offers key w.rib.adj_rib_in) selected)
