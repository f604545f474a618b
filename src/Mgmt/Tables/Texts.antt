-- ===== src/Mgmt/Tables/Texts.antt =====
-- What the texts of the tables of src/mgmt.rs hold.
use pathforge.Base.{
  ℕ, ◌≡◌, refl, List, [], ◌∷◌, ◌++◌, Option, none, some, Bool, true, get, HasUniqueKeys, ◌∙◌,
}
use pathforge.Mgmt.Rows.{sort_entries, matching, lines_of, path_has, goes_to}
use pathforge.Mgmt.Rows.Same.{matching-HasUniqueKeys, get-matching, keep_if}
use pathforge.Mgmt.Rows.Sorted.{IsOrdered, sort_entries-IsOrdered, get-sort_entries}
use pathforge.Mgmt.Tables.{
  table, cmd_bgp_rib, cmd_bgp_rib_aspath, cmd_bgp_rib_nexthop, aspath_table, nexthop_table,
  rib_header, rib_row, aspath_row, nexthop_row,
}
use pathforge.Mgmt.Tables.Order.{of_sorted, table-sorted}
use pathforge.Policy.Text.{parse_addr, parse_uint}
use pathforge.Rib.{Rib, LocRib}
use pathforge.Rib.Routes.{Route, PrefixKey, same_key}
use pathforge.Text.{chars, show_number, show_addr, repeat}

-- A text that is the rows of the entries, one behind the other, and nothing else.
abbrev pub AreRows : (PrefixKey × Route → List ℕ) → LocRib → List ℕ → Type 0
AreRows row [] text = text ≡ []
AreRows row (e ∷ l) text = (rest : List ℕ) × (text ≡ row e ++ rest) × AreRows row l rest

-- The text for no entries, or a header and the rows.
abbrev pub IsText : List ℕ → List ℕ → (PrefixKey × Route → List ℕ) → LocRib → List ℕ → Type 0
IsText empty header row [] text = text ≡ empty
IsText empty header row (e ∷ l) text =
    (rows : List ℕ) × (text ≡ header ++ rows) × AreRows row (e ∷ l) rows

-- A table of the routes of a Loc-RIB that a test picks, in the order of their prefixes.
abbrev pub IsTable :
    List ℕ → List ℕ → (PrefixKey × Route → List ℕ) → (Route → Bool) → LocRib → List ℕ → Type 0
IsTable empty header row wanted loc_rib text =
    (entries : LocRib) × IsOrdered entries
    × ((k : PrefixKey) → get same_key k entries ≡ keep_if wanted (get same_key k loc_rib))
    × IsText empty header row entries text

lines_of-AreRows : (row : PrefixKey × Route → List ℕ) (l : LocRib) → AreRows row l (lines_of row l)
unfolding lines_of
lines_of-AreRows row [] = refl
lines_of-AreRows row (e ∷ l) = (lines_of row l, refl, lines_of-AreRows row l)

of_sorted-IsText :
    (empty header : List ℕ) (row : PrefixKey × Route → List ℕ) (l : LocRib)
    → IsText empty header row l (of_sorted empty header row l)
of_sorted-IsText empty header row [] = refl
of_sorted-IsText empty header row (e ∷ l) =
    (lines_of row (e ∷ l), refl, lines_of-AreRows row (e ∷ l))

table-IsText :
    (empty header : List ℕ) (row : PrefixKey × Route → List ℕ) (l : LocRib)
    → IsText empty header row (sort_entries l) (table empty header row l)
table-IsText empty header row l =
    rw (table-sorted empty header row l) (of_sorted-IsText empty header row (sort_entries l))

keep_all : (o : Option Route) → o ≡ keep_if (λ _. true) o
keep_all none = refl
keep_all (some r) = refl

-- The answer to an AS number: an error for one that is none, or the table of the routes with it.
abbrev pub IsAspathAnswer : List ℕ → LocRib → Option ℕ → List ℕ → Type 0
IsAspathAnswer asn_str loc_rib none text =
    text ≡ chars "Invalid AS number: '" ++ asn_str ++ chars "'\n"
IsAspathAnswer asn_str loc_rib (some asn) text =
    IsTable (chars "No routes with ASN " ++ show_number asn ++ chars " in AS_PATH.\n")
      (chars "Routes with ASN "
        ++ show_number asn
        ++ chars " in AS_PATH\n"
        ++ repeat 61 40
        ++ chars "\n")
      aspath_row (λ r. path_has asn r.attrs.as_path) loc_rib text

-- The same for a next hop.
abbrev pub IsNexthopAnswer : List ℕ → LocRib → Option ℕ → List ℕ → Type 0
IsNexthopAnswer ip_str loc_rib none text =
    text ≡ chars "Invalid IPv4 address: '" ++ ip_str ++ chars "'\n"
IsNexthopAnswer ip_str loc_rib (some target) text =
    IsTable (chars "No routes with next-hop " ++ show_addr target ++ chars ".\n")
      (chars "Routes via next-hop " ++ show_addr target ++ chars "\n" ++ repeat 61 40 ++ chars "\n")
      nexthop_row (λ r. goes_to target r.attrs.next_hop) loc_rib text

module _ (loc_rib : LocRib) (u : HasUniqueKeys same_key loc_rib) where
  whole-IsTable :
      (empty header : List ℕ) (row : PrefixKey × Route → List ℕ)
      → IsTable empty header row (λ _. true) loc_rib (table empty header row loc_rib)
  whole-IsTable empty header row = (
    sort_entries loc_rib,
    sort_entries-IsOrdered loc_rib u,
    λ k. get-sort_entries k loc_rib u ∙ keep_all (get same_key k loc_rib),
    table-IsText empty header row loc_rib,
  )

  matched-IsTable :
      (wanted : Route → Bool) (empty header : List ℕ) (row : PrefixKey × Route → List ℕ)
      → IsTable empty header row wanted loc_rib (table empty header row (matching wanted loc_rib))
  matched-IsTable wanted empty header row =
      let v = matching-HasUniqueKeys wanted loc_rib u in
      (
        sort_entries (matching wanted loc_rib),
        sort_entries-IsOrdered (matching wanted loc_rib) v,
        λ k. get-sort_entries k (matching wanted loc_rib) v ∙ get-matching wanted k loc_rib u,
        table-IsText empty header row (matching wanted loc_rib),
      )

  aspath-IsAspathAnswer :
      (s : List ℕ) (asn : Option ℕ) → IsAspathAnswer s loc_rib asn (aspath_table s loc_rib asn)
  aspath-IsAspathAnswer s none = refl
  aspath-IsAspathAnswer s (some asn) = matched-IsTable (λ r. path_has asn r.attrs.as_path) _ _ _

  nexthop-IsNexthopAnswer :
      (s : List ℕ) (target : Option ℕ)
      → IsNexthopAnswer s loc_rib target (nexthop_table s loc_rib target)
  nexthop-IsNexthopAnswer s none = refl
  nexthop-IsNexthopAnswer s (some target) =
      matched-IsTable (λ r. goes_to target r.attrs.next_hop) _ _ _

module _ {Table : Type 0} where
  -- Each of the three tables of a RIB has a row for every route that it is asked for, in the order of
  -- their prefixes, and no other row.
  abbrev pub HasAllRows : Rib Table → List ℕ → Type 0
  HasAllRows rib argument =
      IsTable (chars "Loc-RIB is empty.\n") rib_header rib_row (λ _. true) rib.loc_rib
        (cmd_bgp_rib rib)
      × IsAspathAnswer argument rib.loc_rib (parse_uint 4294967295 argument)
          (cmd_bgp_rib_aspath rib argument)
      × IsNexthopAnswer argument rib.loc_rib (parse_addr argument)
          (cmd_bgp_rib_nexthop rib argument)

  pub tables-HasAllRows :
      (rib : Rib Table) (argument : List ℕ)
      → HasUniqueKeys same_key rib.loc_rib
      → HasAllRows rib argument
  unfolding cmd_bgp_rib cmd_bgp_rib_aspath cmd_bgp_rib_nexthop
  tables-HasAllRows rib argument u = (
    whole-IsTable rib.loc_rib u _ _ _,
    aspath-IsAspathAnswer rib.loc_rib u argument (parse_uint 4294967295 argument),
    nexthop-IsNexthopAnswer rib.loc_rib u argument (parse_addr argument),
  )
