-- ===== src/Rib/Decision.antt =====
-- The decision process of src/rib.rs: the comparison of two routes and the sort that it orders.
pub mod Order
pub mod Best
use Prim.Native.Nat.{compare, Ordering}
use pathforge.Base.{ℕ, List, [], ◌∷◌, Option, none, some, Bool, true, false, if◌then◌else◌}
use pathforge.Attr.{PathAttributes, Origin, origin_code, as_path_len}
use pathforge.Rib.Routes.{Route}

-- `Ordering::then`
abbrev pub then_by : Ordering → Ordering → Ordering
then_by Ordering.eq o = o
then_by Ordering.lt _ = Ordering.lt
then_by Ordering.gt _ = Ordering.gt

-- `unwrap_or`
abbrev pub unwrap_or : Option ℕ → ℕ → ℕ
unwrap_or none d = d
unwrap_or (some n) _ = n

abbrev pub origin_rank : Option Origin → ℕ
origin_rank none = 2
origin_rank (some x) = origin_code x

-- The closure given to `sort_by`. The third comparison is made only if the two before it are equal,
-- which makes no difference to the result.
unfoldable pub compare_routes : Route → Route → Ordering
compare_routes a b =
    let a_lp = unwrap_or a.attrs.local_pref 100 in
    let b_lp = unwrap_or b.attrs.local_pref 100 in
    then_by
      (then_by
        (then_by (then_by (compare b_lp a_lp) (compare (as_path_len a.attrs) (as_path_len b.attrs)))
          (compare (origin_rank a.attrs.origin) (origin_rank b.attrs.origin)))
        (compare (unwrap_or a.attrs.multi_exit_disc 0) (unwrap_or b.attrs.multi_exit_disc 0)))
      (compare a.received_at b.received_at)

-- `slice::sort_by`, which is stable: an insertion sort that puts equal elements in their order.
abbrev pub is_gt : Ordering → Bool
is_gt Ordering.gt = true
is_gt _ = false

unfoldable pub insert_by : Route → List Route → List Route
insert_by r [] = r ∷ []
insert_by r (s ∷ rest) =
    let later = insert_by r rest in if is_gt (compare_routes r s) then s ∷ later else r ∷ s ∷ rest

unfoldable pub sort_routes : List Route → List Route
sort_routes [] = []
sort_routes (r ∷ rs) = insert_by r (sort_routes rs)

-- `candidates[0]`, where there are candidates.
abbrev pub first : List Route → Option Route
first [] = none
first (r ∷ _) = some r
