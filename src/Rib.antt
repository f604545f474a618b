-- ===== src/Rib.antt =====
-- src/rib.rs: Adj-RIB-In, Loc-RIB and the operations on them. The dampening table is behind an
-- interface. Adj-RIB-Out is declared in the source and used nowhere.
pub mod Routes
pub mod Decision
pub mod Selection
pub mod Query
pub mod Fresh
pub mod Upkeep
pub mod Reach
pub mod Reachable
pub mod Announced
pub mod Withdrawn
pub mod Unique
mod Tests
use pathforge.Base.{
  ℕ, zero, suc, ◌+◌, List, [], ◌∷◌, ◌++◌, Option, none, some, Bool, true, false, not, ◌||◌, ◌==◌,
  length, map, if◌then◌else◌, and_then, Build, get, insert, remove, values, keys,
}
use pathforge.Attr.{PathAttributes}
use pathforge.Message.Prefix.{Prefix}
use pathforge.Rpki.{RpkiValidator, validate, should_reject}
use pathforge.Rib.Routes
use pathforge.Rib.Routes.{Route, PrefixKey, key_of, same_key}
use pathforge.Rib.Decision.{sort_routes, first}

-- What the RIB asks of src/dampening.rs. The answers depend on the clock, which the table reads.
pub record Dampening : Type 1 where
  pub Table : Type 0
  pub record_withdrawal : Table → ℕ → PrefixKey → Table
  -- Whether the route stays suppressed.
  pub check_advertisement : Table → ℕ → PrefixKey → Bool × Table
  pub remove_peer : Table → ℕ → Table

abbrev pub AdjRibIn : Type 0
AdjRibIn = List (PrefixKey × Route)

abbrev pub LocRib : Type 0
LocRib = List (PrefixKey × Route)

pub record Rib (Table : Type 0) : Type 0 where
  pub adj_rib_in : List (ℕ × AdjRibIn)
  pub loc_rib : LocRib
  pub dampening : Table
  pub rpki : RpkiValidator

-- `filter_map(|rib| rib.get(key))`, with what is done with one answer.
abbrev pub keep : Option Route → List Route → List Route
keep none rs = rs
keep (some r) rs = r ∷ rs

unfoldable pub candidates : PrefixKey → List AdjRibIn → List Route
candidates key [] = []
candidates key (rib ∷ ribs) = keep (get same_key key rib) (candidates key ribs)

-- `or_default`
abbrev pub or_default : Option AdjRibIn → AdjRibIn
or_default none = []
or_default (some rib) = rib

abbrev pub mark_stale : PrefixKey × Route → PrefixKey × Route
mark_stale (k, r) = (k, record r { stale = true })

-- The keys of the routes that are stale.
unfoldable pub stale_keys : AdjRibIn → List PrefixKey
stale_keys [] = []
stale_keys ((k, r) ∷ rib) = if r.stale then k ∷ stale_keys rib else stale_keys rib

unfoldable pub remove_all : List PrefixKey → AdjRibIn → AdjRibIn
remove_all [] rib = rib
remove_all (k ∷ ks) rib = remove_all ks (remove same_key k rib)

-- The peer's map goes with its last route.
unfoldable pub put_left : ℕ → AdjRibIn → List (ℕ × AdjRibIn) → List (ℕ × AdjRibIn)
put_left peer_addr [] adjs = remove ◌==◌ peer_addr adjs
put_left peer_addr (r ∷ rs) adjs = insert ◌==◌ peer_addr (r ∷ rs) adjs

module _ (d : Dampening) where
  open d use {Table, record_withdrawal, check_advertisement}

  -- `Rib::new`, with the dampening table and the validator that it is given.
  unfoldable pub new : Table → RpkiValidator → Rib Table
  new table rpki = record { adj_rib_in = []; loc_rib = []; dampening = table; rpki = rpki }

  unfoldable pub run_decision_process : Rib Table → PrefixKey → Rib Table
  run_decision_process rib key =
      elim (first (sort_routes (candidates key (values ◌==◌ rib.adj_rib_in)))) [
        | none ↦ record rib { loc_rib = remove same_key key rib.loc_rib }
        | some best ↦ record rib { loc_rib = insert same_key key best rib.loc_rib }
      ]

  unfoldable pub decide_all : Rib Table → List PrefixKey → Rib Table
  decide_all rib [] = rib
  decide_all rib (key ∷ ks) = decide_all (run_decision_process rib key) ks

  -- The loop that records the withdrawals.
  unfoldable pub record_all : Table → ℕ → List Prefix → Table
  record_all table peer [] = table
  record_all table peer (p ∷ ps) = record_all (record_withdrawal table peer (key_of p)) peer ps

  -- The loop over the NLRI: the dampening table, the peer's routes, and the keys that were put in.
  -- `clock` holds the readings of the clock for the routes made, the first for the first prefix.
  unfoldable pub announce_all :
      Build
      → RpkiValidator
      → ℕ
      → ℕ
      → PathAttributes
      → (ℕ → ℕ)
      → ℕ
      → Table
      → AdjRibIn
      → List Prefix
      → Option (Table × AdjRibIn × List PrefixKey)
  announce_all build rpki peer peer_as attrs clock i table adj_in [] = some (table, adj_in, [])
  announce_all build rpki peer peer_as attrs clock i table adj_in (p ∷ ps) =
      let key = key_of p in
      let (suppressed, table1) = check_advertisement table peer key in
      and_then (validate build rpki p.address p.prefix_len peer_as) λ rov.
        let left_out = suppressed || should_reject rpki rov in
        let route = record (Routes.new p attrs peer peer_as (clock i)) { rov_state = rov } in
        let adj_in1 = if left_out then adj_in else insert same_key key route adj_in in
        and_then (announce_all build rpki peer peer_as attrs clock (suc i) table1 adj_in1 ps)
          λ (table2, adj, affected).
            some (table2, adj, if left_out then affected else key ∷ affected)

  -- `none` is the panic of an overflow in the validation.
  unfoldable pub process_update :
      Build
      → (ℕ → ℕ)
      → Rib Table
      → ℕ
      → ℕ
      → List Prefix
      → PathAttributes
      → List Prefix
      → Option (Rib Table)
  process_update build clock rib peer_addr peer_as nlri attrs withdrawn =
      let table = record_all rib.dampening peer_addr withdrawn in
      let adj_in = or_default (get ◌==◌ peer_addr rib.adj_rib_in) in
      and_then (announce_all build rib.rpki peer_addr peer_as attrs clock 0 table adj_in nlri)
        λ (table1, adj, affected).
          let gone = map key_of withdrawn in
          let left = remove_all gone adj in
          let changed = record rib {
            dampening = table1;
            adj_rib_in = insert ◌==◌ peer_addr left rib.adj_rib_in;
          } in
          some (decide_all changed (affected ++ gone))

  unfoldable pub remove_peer : Rib Table → ℕ → Rib Table × List PrefixKey
  remove_peer rib peer_addr =
      let removed = keys same_key (or_default (get ◌==◌ peer_addr rib.adj_rib_in)) in
      let without = record rib { adj_rib_in = remove ◌==◌ peer_addr rib.adj_rib_in } in
      let decided = decide_all without removed in
      (record decided { dampening = d.remove_peer decided.dampening peer_addr }, removed)

  unfoldable pub mark_peer_stale : Rib Table → ℕ → Rib Table
  mark_peer_stale rib peer_addr = elim (get ◌==◌ peer_addr rib.adj_rib_in) [
    | none ↦ rib
    | some adj ↦ record rib {
      adj_rib_in = insert ◌==◌ peer_addr (map mark_stale adj) rib.adj_rib_in;
    }
  ]

  unfoldable pub remove_stale_for_peer : Rib Table → ℕ → Rib Table × List PrefixKey
  remove_stale_for_peer rib peer_addr = elim (get ◌==◌ peer_addr rib.adj_rib_in) [
    | none ↦ (rib, [])
    | some adj ↦
        let gone = stale_keys adj in
        let adjs = put_left peer_addr (remove_all gone adj) rib.adj_rib_in in
        (decide_all (record rib { adj_rib_in = adjs }) gone, gone)
  ]
