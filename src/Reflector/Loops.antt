-- ===== src/Reflector/Loops.antt =====
-- What a reflector makes of attributes that were reflected.
use pathforge.Base.{
  Bool, Option, none, List, [], ◌∷◌, ◌==◌, ◌||◌, ℕ, ◌≡◌, ◌⊎◌, true, arith, ◌↔◌, some,
}
use pathforge.Attr.{PathAttributes}
use pathforge.Reflector.{
  is_some_of, contains, RouteReflector, prepare_reflected_attrs, has_loop, has_cluster_loop,
  has_originator_loop, or_set,
}

-- An entry of a list.
abbrev pub IsIn : ℕ → List ℕ → Type 0
IsIn n [] = ⊥
IsIn n (m ∷ ms) = (n ≡ m) ⊎ IsIn n ms

contains_iff : (ms : List ℕ) (n : ℕ) → (contains ms n ≡ true) ↔ IsIn n ms
contains_iff [] n = ((λ e. absurd (cc)), λ h. absurd h)
contains_iff (m ∷ ms) n = let rest = contains_iff ms n in ground arith

-- Why reflected attributes are a loop for a router: it has the cluster of the reflector, or its
-- cluster stands in the list already, or the attributes name it as their originator already, or they
-- name none and the routes come from it.
abbrev pub IsLoopFor : RouteReflector → RouteReflector → PathAttributes → ℕ → Type 0
IsLoopFor other rr attrs originator =
    (rr.config.cluster_id ≡ other.config.cluster_id)
    ⊎ (IsIn other.config.cluster_id attrs.cluster_list
        ⊎ ((attrs.originator_id ≡ some other.router_id)
            ⊎ ((attrs.originator_id ≡ none) × (originator ≡ other.router_id))))

originator_iff :
    (o : Option ℕ) (originator r : ℕ)
    → (is_some_of (or_set o originator) r ≡ true) ↔ ((o ≡ some r) ⊎ ((o ≡ none) × (originator ≡ r)))
originator_iff none originator r = ground arith
originator_iff (some n) originator r = ground arith

any_iff :
    {A B : Type 0} (c k : ℕ) (b q : Bool)
    → (b ≡ true) ↔ A
    → (q ≡ true) ↔ B
    → (((c == k || b) || q) ≡ true) ↔ ((c ≡ k) ⊎ (A ⊎ B))
any_iff c k b q h g = ground arith

-- What is reflected by `rr` is a loop for `other` exactly if the two have the same cluster, or the
-- cluster of `other` stands in the cluster list already, or the attributes have the router of `other`
-- as their originator already, or they have no originator and the one that is given is the router of
-- `other`.
pub has_loop-prepare_iff :
    (rr other : RouteReflector) (attrs : PathAttributes) (originator : ℕ)
    → (has_loop other (prepare_reflected_attrs rr attrs originator) ≡ true)
      ↔ IsLoopFor other rr attrs originator
unfolding has_loop has_cluster_loop has_originator_loop prepare_reflected_attrs
has_loop-prepare_iff rr other attrs originator =
    any_iff rr.config.cluster_id other.config.cluster_id _ _
      (contains_iff attrs.cluster_list other.config.cluster_id)
      (originator_iff attrs.originator_id originator other.router_id)
