-- ===== src/Rib/Decision/Order.antt =====
-- The comparison of routes is an order on them, up to routes that it calls equal.
use Prim.Native.Nat.{compare, Ordering, lt, eq, gt}
use pathforge.Base.{ℕ, ◌≡◌, ◌≢◌, arith}
use pathforge.Attr.{as_path_len}
use pathforge.Rib.Routes.{Route}
use pathforge.Rib.Decision.{then_by, unwrap_or, origin_rank, compare_routes}

-- The laws of a comparison.
pub record IsComparison {ℓ} {A : Type ℓ} (c : A → A → Ordering) : Type ℓ where
  pub flip_lt : (a b : A) → c a b ≡ lt → c b a ≡ gt
  pub flip_gt : (a b : A) → c a b ≡ gt → c b a ≡ lt
  pub flip_eq : (a b : A) → c a b ≡ eq → c b a ≡ eq
  pub trans_lt : (a b d : A) → c a b ≡ lt → c b d ≡ lt → c a d ≡ lt
  pub eq_left : (a b d : A) → c a b ≡ eq → c a d ≡ c b d
  pub eq_right : (a b d : A) → c b d ≡ eq → c a b ≡ c a d

module _ {ℓ} {A : Type ℓ} where
  pub ascending-IsComparison : (f : A → ℕ) → IsComparison (λ a b. compare (f a) (f b))
  ascending-IsComparison f = record {
    flip_lt = λ a b h. ground arith;
    flip_gt = λ a b h. ground arith;
    flip_eq = λ a b h. ground arith;
    trans_lt = λ a b d h k. ground arith;
    eq_left = λ a b d h. ground arith;
    eq_right = λ a b d h. ground arith;
  }

  pub descending-IsComparison : (f : A → ℕ) → IsComparison (λ a b. compare (f b) (f a))
  descending-IsComparison f = record {
    flip_lt = λ a b h. ground arith;
    flip_gt = λ a b h. ground arith;
    flip_eq = λ a b h. ground arith;
    trans_lt = λ a b d h k. ground arith;
    eq_left = λ a b d h. ground arith;
    eq_right = λ a b d h. ground arith;
  }

  pub then_by-IsComparison :
      (c d : A → A → Ordering)
      → IsComparison c
      → IsComparison d
      → IsComparison (λ a b. then_by (c a b) (d a b))
  then_by-IsComparison c d p q = record {
    flip_lt = λ a b h. ground (arith, h, p.flip_lt a b, p.flip_eq a b, q.flip_lt a b);
    flip_gt = λ a b h. ground (arith, h, p.flip_gt a b, p.flip_eq a b, q.flip_gt a b);
    flip_eq = λ a b h. ground (arith, h, p.flip_eq a b, q.flip_eq a b);
    trans_lt = λ a b e h k.
        ground (arith, h, k, p.trans_lt a b e, p.eq_left a b e, p.eq_right a b e, q.trans_lt a b e);
    eq_left = λ a b e h. ground (arith, h, p.eq_left a b e, q.eq_left a b e);
    eq_right = λ a b e h. ground (arith, h, p.eq_right a b e, q.eq_right a b e);
  }

pub compare_routes-IsComparison : IsComparison compare_routes
unfolding compare_routes
compare_routes-IsComparison =
    then_by-IsComparison _ _
      (then_by-IsComparison _ _
        (then_by-IsComparison _ _
          (then_by-IsComparison _ _ (descending-IsComparison λ r. unwrap_or r.attrs.local_pref 100)
            (ascending-IsComparison λ r. as_path_len r.attrs))
          (ascending-IsComparison λ r. origin_rank r.attrs.origin))
        (ascending-IsComparison λ r. unwrap_or r.attrs.multi_exit_disc 0))
      (ascending-IsComparison λ r. r.received_at)

-- `r` is not behind `s`.
abbrev pub IsAtLeast : Route → Route → Type 0
IsAtLeast r s = compare_routes r s ≢ gt

pub IsAtLeast-trans : (r s t : Route) → IsAtLeast r s → IsAtLeast s t → IsAtLeast r t
IsAtLeast-trans r s t h k =
    let p = compare_routes-IsComparison in
    ground (arith, h, k, p.trans_lt r s t, p.eq_left r s t, p.eq_right r s t)
