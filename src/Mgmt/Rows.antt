-- ===== src/Mgmt/Rows.antt =====
-- What the tables of src/mgmt.rs have in common: the entries of the Loc-RIB that are asked for, in the
-- order of their keys, and the parts of a row.
pub mod Sorted
pub mod Same
use pathforge.Base.{
  false, ℕ, List, [], ◌∷◌, ◌++◌, Option, none, some, Bool, ◌&&◌, ◌||◌, ◌==◌, ltb, map,
  if◌then◌else◌, holds,
}
use pathforge.Attr.{PathAttributes, AsPathSegment, as_numbers, is_nil}
use pathforge.Rib.{LocRib}
use pathforge.Rib.Decision.{unwrap_or}
use pathforge.Rib.Routes.{Route, PrefixKey}
use pathforge.Text.{chars, show_number, show_addr, join}
use pathforge.Text.Shown.{show_origin}

-- The order of `(k.address.octets(), k.prefix_len)`: octets compare as the number that they are.
abbrev pub key_before : PrefixKey → PrefixKey → Bool
key_before a b = ltb a.address b.address || a.address == b.address && ltb a.prefix_len b.prefix_len

-- `sort_by_key`, which is stable, as an insertion sort.
unfoldable pub place : PrefixKey × Route → LocRib → LocRib
place entry [] = entry ∷ []
place entry (e ∷ rest) =
    let later = place entry rest in if key_before e.0 entry.0 then e ∷ later else entry ∷ e ∷ rest

unfoldable pub sort_entries : LocRib → LocRib
sort_entries [] = []
sort_entries (e ∷ rest) = place e (sort_entries rest)

-- `filter`
unfoldable pub matching : (Route → Bool) → LocRib → LocRib
matching p [] = []
matching p (e ∷ rest) = let later = matching p rest in if p e.1 then e ∷ later else later

-- `any(|seg| seg.as_numbers().contains(&asn))`
unfoldable pub path_has : ℕ → List AsPathSegment → Bool
path_has asn [] = false
path_has asn (s ∷ ss) = holds ◌==◌ (as_numbers s) asn || path_has asn ss

abbrev pub goes_to : ℕ → Option ℕ → Bool
goes_to target none = false
goes_to target (some a) = a == target

-- The AS numbers of all segments, with a space between two.
unfoldable pub path_numbers : List AsPathSegment → List ℕ
path_numbers [] = []
path_numbers (s ∷ ss) = as_numbers s ++ path_numbers ss

unfoldable pub path_text : PathAttributes → List ℕ
path_text a = join (chars " ") (map show_number (path_numbers a.as_path))

-- A text for an empty one.
abbrev pub or_else : List ℕ → List ℕ → List ℕ
or_else s d = if is_nil s then d else s

abbrev pub next_hop_text : PathAttributes → List ℕ
next_hop_text a = elim a.next_hop [ none ↦ chars "-" | some nh ↦ show_addr nh ]

abbrev pub origin_text : PathAttributes → List ℕ
origin_text a = elim a.origin [ none ↦ chars "?" | some o ↦ show_origin o ]

abbrev pub local_pref_of : PathAttributes → ℕ
local_pref_of a = unwrap_or a.local_pref 100

-- The lines that a loop over the entries pushes.
unfoldable pub lines_of : (PrefixKey × Route → List ℕ) → LocRib → List ℕ
lines_of row [] = []
lines_of row (e ∷ rest) = row e ++ lines_of row rest
