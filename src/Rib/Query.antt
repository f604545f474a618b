-- ===== src/Rib/Query.antt =====
-- The queries of src/rib.rs.
pub mod Longest
use pathforge.Base.{
  ℕ, suc, ◌+◌, List, [], ◌∷◌, Option, none, some, Bool, true, length, ltb, ◌==◌, if◌then◌else◌,
  and_then, Build, shr32, get, values, ◌-◌, overflow, u32,
}
use pathforge.Rib.{Rib, AdjRibIn, LocRib}
use pathforge.Rib.Routes.{Route, PrefixKey}

-- How many of one peer's routes are stale, and of all.
unfoldable pub stale_in : AdjRibIn → ℕ
stale_in [] = 0
stale_in ((k, r) ∷ rib) = if r.stale then suc (stale_in rib) else stale_in rib

unfoldable pub stale_sum : List AdjRibIn → ℕ
stale_sum [] = 0
stale_sum (rib ∷ ribs) = stale_in rib + stale_sum ribs

unfoldable pub route_sum : List AdjRibIn → ℕ
route_sum [] = 0
route_sum (rib ∷ ribs) = length rib + route_sum ribs

-- `32 - key.prefix_len as u32`
unfoldable pub shift_of : Build → ℕ → Option ℕ
shift_of build prefix_len =
    if ltb 32 prefix_len
    then overflow build (u32 (32 + 4294967296 - prefix_len))
    else some (32 - prefix_len)

-- The test of the filter.
unfoldable pub covers_addr : Build → ℕ → PrefixKey → Option Bool
covers_addr build addr_bits key =
    if key.prefix_len == 0
    then some true
    else and_then (shift_of build key.prefix_len) λ shift.
      and_then (shr32 build addr_bits shift)
        λ a. and_then (shr32 build key.address shift) λ b. some (a == b)

-- `max_by_key`, which takes the last of the largest.
abbrev pub longer : Option (PrefixKey × Route) → PrefixKey × Route → PrefixKey × Route
longer none entry = entry
longer (some best) entry = if ltb entry.0.prefix_len best.0.prefix_len then best else entry

unfoldable pub match_from :
    Build → ℕ → Option (PrefixKey × Route) → LocRib → Option (Option (PrefixKey × Route))
match_from build addr_bits best [] = some best
match_from build addr_bits best (entry ∷ rib) =
    and_then (covers_addr build addr_bits entry.0)
      λ hit. match_from build addr_bits (if hit then some (longer best entry) else best) rib

module _ {Table : Type 0} where
  unfoldable pub stale_route_count : Rib Table → ℕ
  stale_route_count rib = stale_sum (values ◌==◌ rib.adj_rib_in)

  unfoldable pub peer_routes : Rib Table → ℕ → Option AdjRibIn
  peer_routes rib peer_addr = get ◌==◌ peer_addr rib.adj_rib_in

  unfoldable pub prefix_count : Rib Table → ℕ
  prefix_count rib = length rib.loc_rib

  -- The outer `none` is the panic of an overflow.
  unfoldable pub longest_match : Build → Rib Table → ℕ → Option (Option (PrefixKey × Route))
  longest_match build rib addr_bits = match_from build addr_bits none rib.loc_rib

  unfoldable pub summary : Rib Table → ℕ × ℕ × ℕ
  summary rib = (length rib.adj_rib_in, route_sum (values ◌==◌ rib.adj_rib_in), length rib.loc_rib)
