-- ===== src/Mgmt/Tables/Order.antt =====
-- The tables of src/mgmt.rs do not depend on the order in which the HashMap of the Loc-RIB is walked.
use pathforge.Base.{
  ℕ, ◌≡◌, refl, List, [], ◌∷◌, ◌++◌, Option, none, some, Bool, ap, ◌∙◌, sym, get, HasUniqueKeys,
  Bool-cases, inl, inr,
}
use pathforge.Mgmt.Rows.{sort_entries, matching, lines_of, place, path_has, goes_to, key_before}
use pathforge.Mgmt.Rows.Same.{sort_entries_eq, matching-HasUniqueKeys, get-matching, keep_if}
use pathforge.Mgmt.Tables.{
  table, cmd_bgp_rib, cmd_bgp_rib_aspath, cmd_bgp_rib_nexthop, aspath_table, nexthop_table,
  rib_header, rib_row, aspath_row, nexthop_row,
}
use pathforge.Policy.Text.{parse_addr, parse_uint}
use pathforge.Rib.{Rib, LocRib}
use pathforge.Rib.Routes.{Route, PrefixKey, same_key}
use pathforge.Text.{chars}

-- A table of sorted entries.
abbrev pub of_sorted : List ℕ → List ℕ → (PrefixKey × Route → List ℕ) → LocRib → List ℕ
of_sorted empty header row [] = empty
of_sorted empty header row (e ∷ l) = header ++ lines_of row (e ∷ l)

place-some :
    (empty header : List ℕ) (row : PrefixKey × Route → List ℕ) (e : PrefixKey × Route) (l : LocRib)
    → of_sorted empty header row (place e l) ≡ header ++ lines_of row (place e l)
unfolding place
place-some empty header row e [] = refl
place-some empty header row e (f ∷ l) = elim (Bool-cases (key_before f.0 e.0)) [
  | inl b ↦ rw b refl
  | inr b ↦ rw b refl
]

pub table-sorted :
    (empty header : List ℕ) (row : PrefixKey × Route → List ℕ) (l : LocRib)
    → table empty header row l ≡ of_sorted empty header row (sort_entries l)
unfolding table sort_entries
table-sorted empty header row [] = refl
table-sorted empty header row (e ∷ l) = sym (place-some empty header row e (sort_entries l))

-- Whether the same is found in two tables.
module _ (a b : LocRib) (u : HasUniqueKeys same_key a) (v : HasUniqueKeys same_key b)
    (same : (k : PrefixKey) → get same_key k a ≡ get same_key k b) where
  table_same :
      (empty header : List ℕ) (row : PrefixKey × Route → List ℕ)
      → table empty header row a ≡ table empty header row b
  table_same empty header row =
      table-sorted empty header row a
      ∙ ap (of_sorted empty header row) (sort_entries_eq a b u v same)
      ∙ sym (table-sorted empty header row b)

  matching_same :
      (p : Route → Bool) (k : PrefixKey)
      → get same_key k (matching p a) ≡ get same_key k (matching p b)
  matching_same p k = get-matching p k a u ∙ ap (keep_if p) (same k) ∙ sym (get-matching p k b v)

  matched_same :
      (p : Route → Bool) (empty header : List ℕ) (row : PrefixKey × Route → List ℕ)
      → table empty header row (matching p a) ≡ table empty header row (matching p b)
  matched_same p empty header row =
      table-sorted empty header row (matching p a)
      ∙ ap (of_sorted empty header row) (
          sort_entries_eq (matching p a) (matching p b) (matching-HasUniqueKeys p a u)
            (matching-HasUniqueKeys p b v) (matching_same p))
      ∙ sym (table-sorted empty header row (matching p b))

  aspath_same : (s : List ℕ) (asn : Option ℕ) → aspath_table s a asn ≡ aspath_table s b asn
  aspath_same s none = refl
  aspath_same s (some asn) = matched_same (λ r. path_has asn r.attrs.as_path) _ _ aspath_row

  nexthop_same :
      (s : List ℕ) (target : Option ℕ) → nexthop_table s a target ≡ nexthop_table s b target
  nexthop_same s none = refl
  nexthop_same s (some target) = matched_same (λ r. goes_to target r.attrs.next_hop) _ _ nexthop_row

-- Two RIBs with the same routes are shown the same way.
module _ {Table : Type 0} where
  -- In whatever order the HashMap of the Loc-RIB gives its entries, each of which has a key of its
  -- own, `show bgp rib`, `show bgp rib aspath` and `show bgp rib nexthop` answer with the same text.
  pub tables_same :
      (a b : Rib Table)
      → HasUniqueKeys same_key a.loc_rib
      → HasUniqueKeys same_key b.loc_rib
      → ((k : PrefixKey) → get same_key k a.loc_rib ≡ get same_key k b.loc_rib)
      → (argument : List ℕ)
      → (cmd_bgp_rib a ≡ cmd_bgp_rib b)
        × (cmd_bgp_rib_aspath a argument ≡ cmd_bgp_rib_aspath b argument)
        × (cmd_bgp_rib_nexthop a argument ≡ cmd_bgp_rib_nexthop b argument)
  unfolding cmd_bgp_rib cmd_bgp_rib_aspath cmd_bgp_rib_nexthop
  tables_same a b u v same argument = (
    table_same a.loc_rib b.loc_rib u v same (chars "Loc-RIB is empty.\n") rib_header rib_row,
    aspath_same a.loc_rib b.loc_rib u v same argument (parse_uint 4294967295 argument),
    nexthop_same a.loc_rib b.loc_rib u v same argument (parse_addr argument),
  )
