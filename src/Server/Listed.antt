-- ===== src/Server/Listed.antt =====
-- The tables that an operator is shown of the RIB of the server.
use pathforge.Server.Moves.{Serves}
use pathforge.Server.Worlds.{Serves-Reaches}
use Prim.Native.String.{String}
use pathforge.Base.{ℕ, ◌≡◌, List, Build, get, false, HasUniqueKeys}
use pathforge.Bytes.{BytesCrate, IsDocumented}
use pathforge.Attr.{AttrError}
use pathforge.Mgmt.Tables.{cmd_bgp_rib, cmd_bgp_rib_aspath, cmd_bgp_rib_nexthop}
use pathforge.Mgmt.Tables.Order.{tables_same}
use pathforge.Mgmt.Tables.Texts.{HasAllRows, tables-HasAllRows}
use pathforge.Rib.{Dampening, Rib}
use pathforge.Rib.Routes.{PrefixKey, same_key}
use pathforge.Rib.Unique.{Reaches-IsUnique}
use pathforge.Rpki.{RpkiValidator}
use pathforge.Server.{World}
use pathforge.Session.Timers.{LocalConfig}

-- The three tables of two RIBs are the same texts.
abbrev pub HasSameTables : {Table : Type 0} → Rib Table → Rib Table → List ℕ → Type 0
HasSameTables a b argument =
    (cmd_bgp_rib a ≡ cmd_bgp_rib b)
    × (cmd_bgp_rib_aspath a argument ≡ cmd_bgp_rib_aspath b argument)
    × (cmd_bgp_rib_nexthop a argument ≡ cmd_bgp_rib_nexthop b argument)

module _ (o : BytesCrate) (doc : IsDocumented o) (d : Dampening) (build : Build)
    (describe : AttrError → String) where
  open d use {Table}

  Serves-IsUnique :
      (local : LocalConfig) (table : Table) (rpki : RpkiValidator) (w : World Table)
      → Serves o doc d build describe local table rpki w
      → w.poisoned ≡ false
      → HasUniqueKeys same_key w.rib.loc_rib
  Serves-IsUnique local table rpki w s sound =
      Reaches-IsUnique d build table rpki w.rib
        (Serves-Reaches o doc d build describe local table rpki w s sound)

  -- In two worlds that the server comes to, with no task that has panicked with the lock in its hands,
  -- and with the same routes in the Loc-RIB: whatever the order in which the HashMaps give them, the
  -- answers to `show bgp rib`, `aspath` and `nexthop` are the same texts. Each is a header and behind
  -- it, in the order of their prefixes, one row for each route of the Loc-RIB, for each with the AS
  -- number in its path, or for each with the next hop, and nothing else; or it is a text that says
  -- that there are no such routes, or that the argument is not one.
  pub Serves-HasSameTables :
      (local : LocalConfig) (table : Table) (rpki : RpkiValidator) (v w : World Table)
      (argument : List ℕ)
      → Serves o doc d build describe local table rpki v
      → Serves o doc d build describe local table rpki w
      → v.poisoned ≡ false
      → w.poisoned ≡ false
      → ((k : PrefixKey) → get same_key k v.rib.loc_rib ≡ get same_key k w.rib.loc_rib)
      → HasSameTables v.rib w.rib argument × HasAllRows v.rib argument
  Serves-HasSameTables local table rpki v w argument s t sound_v sound_w same =
      let u = Serves-IsUnique local table rpki v s sound_v in
      (
        tables_same v.rib w.rib u (Serves-IsUnique local table rpki w t sound_w) same argument,
        tables-HasAllRows v.rib argument u,
      )
