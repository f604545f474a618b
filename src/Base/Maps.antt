-- ===== src/Base/Maps.antt =====
-- A HashMap as a list of entries: each key stands once, and the order is the one in which the map is
-- iterated over.
use mathlib.Core.Path.{◌≡◌, refl, ap, ◌∙◌}
use mathlib.Core.Bool.{Bool, true, false, ◌||◌}
use mathlib.Core.Option.{Option, none, some}
use mathlib.Core.List.{List, [], ◌∷◌}
use mathlib.Core.Logic.{inl, inr}
use native.Mathlib.Omega.{arith}
use pathforge.Base.Tests.{if◌then◌else◌, Bool-cases}

-- A test of keys is equality.
pub record IsTest {ℓ} {K : Type ℓ} (same : K → K → Bool) : Type ℓ where
  pub to_eq : (j k : K) → same j k ≡ true → j ≡ k
  pub reflexive : (k : K) → same k k ≡ true

module _ {ℓ} {K : Type ℓ} (same : K → K → Bool) where
  same_sym : IsTest same → (j k : K) → same j k ≡ false → same k j ≡ false
  same_sym t j k n = elim (Bool-cases (same k j)) [
    | inl e ↦ let p : k ≡ j = t.to_eq k j e in rw p (rw p at n)
    | inr o ↦ o
  ]

  -- Whether a key is among the keys.
  abbrev pub holds : List K → K → Bool
  holds [] k = false
  holds (j ∷ ks) k = same j k || holds ks k

module _ {ℓ κ} {K : Type ℓ} {V : Type κ} (same : K → K → Bool) where
  abbrev pub get : K → List (K × V) → Option V
  get k [] = none
  get k ((j, v) ∷ m) = if same j k then some v else get k m

  -- In the place of the entry with this key, or as a new entry.
  abbrev pub insert : K → V → List (K × V) → List (K × V)
  insert k v [] = (k, v) ∷ []
  insert k v ((j, w) ∷ m) = if same j k then (k, v) ∷ m else (j, w) ∷ insert k v m

  abbrev pub remove : K → List (K × V) → List (K × V)
  remove k [] = []
  remove k ((j, v) ∷ m) = if same j k then remove k m else (j, v) ∷ remove k m

  abbrev pub values : List (K × V) → List V
  values [] = []
  values ((j, v) ∷ m) = v ∷ values m

  abbrev pub keys : List (K × V) → List K
  keys [] = []
  keys ((j, v) ∷ m) = j ∷ keys m

  -- What a lookup finds after a change: at the key itself, and at every other key.
  pub get-insert : IsTest same → (k : K) (v : V) (m : List (K × V)) → get k (insert k v m) ≡ some v
  get-insert t k v [] = rw (t.reflexive k) refl
  get-insert t k v ((j, w) ∷ m) = elim (Bool-cases (same j k)) [
    | inl e ↦ rw (e, t.reflexive k) refl
    | inr n ↦ rw (n, n) (get-insert t k v m)
  ]

  pub get-insert_other :
      IsTest same
      → (k j : K) (v : V) (m : List (K × V)) → same k j ≡ false
      → get j (insert k v m) ≡ get j m
  get-insert_other t k j v [] n = rw n refl
  get-insert_other t k j v ((i, w) ∷ m) n = elim (Bool-cases (same i k)) [
    | inl e ↦
        let p : i ≡ k = t.to_eq i k e in let q : same i j ≡ false = rw p n in rw (e, n, q) refl
    | inr o ↦ rw o (ap (λ r. if same i j then some w else r) (get-insert_other t k j v m n))
  ]

  pub get-remove : (k : K) (m : List (K × V)) → get k (remove k m) ≡ none
  get-remove k [] = refl
  get-remove k ((j, v) ∷ m) = elim (Bool-cases (same j k)) [
    | inl e ↦ rw e (get-remove k m)
    | inr n ↦ rw (n, n) (get-remove k m)
  ]

  pub get-remove_other :
      IsTest same → (k j : K) (m : List (K × V)) → same k j ≡ false → get j (remove k m) ≡ get j m
  get-remove_other t k j [] n = refl
  get-remove_other t k j ((i, w) ∷ m) n = elim (Bool-cases (same i k)) [
    | inl e ↦
        let p : i ≡ k = t.to_eq i k e in
        let q : same i j ≡ false = rw p n in rw (e, q) (get-remove_other t k j m n)
    | inr o ↦ rw o (ap (λ r. if same i j then some w else r) (get-remove_other t k j m n))
  ]

  -- Each key stands once.
  abbrev pub HasUniqueKeys : List (K × V) → Type κ
  HasUniqueKeys [] = Unit {κ}
  HasUniqueKeys ((k, v) ∷ m) = (get k m ≡ none) × HasUniqueKeys m

  pub insert-HasUniqueKeys :
      IsTest same
      → (k : K) (v : V) (m : List (K × V)) → HasUniqueKeys m
      → HasUniqueKeys (insert k v m)
  insert-HasUniqueKeys t k v [] u = (refl, tt)
  insert-HasUniqueKeys t k v ((j, w) ∷ m) u = elim (Bool-cases (same j k)) [
    | inl e ↦ let p : j ≡ k = t.to_eq j k e in rw e (rw (← p) u.0, u.1)
    | inr n ↦
        rw n (
          get-insert_other t k j v m (same_sym same t j k n) ∙ u.0,
          insert-HasUniqueKeys t k v m u.1,
        )
  ]

  pub get-tail :
      (i j : K) (w : V) (m : List (K × V))
      → get j ((i, w) ∷ m) ≡ none
      → (same i j ≡ false) × (get j m ≡ none)
  get-tail i j w m h = elim (Bool-cases (same i j)) [
    | inl e ↦ absurd (ground (arith, h, e))
    | inr n ↦ (n, ground (arith, h, n))
  ]

  get-remove-none : (k j : K) (m : List (K × V)) → get j m ≡ none → get j (remove k m) ≡ none
  get-remove-none k j [] h = refl
  get-remove-none k j ((i, w) ∷ m) h =
      let (n, rest) = get-tail i j w m h in
      elim (Bool-cases (same i k)) [
        | inl e ↦ rw e (get-remove-none k j m rest)
        | inr o ↦ rw (o, n) (get-remove-none k j m rest)
      ]

  pub remove-HasUniqueKeys :
      (k : K) (m : List (K × V)) → HasUniqueKeys m → HasUniqueKeys (remove k m)
  remove-HasUniqueKeys k [] u = tt
  remove-HasUniqueKeys k ((j, w) ∷ m) u = elim (Bool-cases (same j k)) [
    | inl e ↦ rw e (remove-HasUniqueKeys k m u.1)
    | inr n ↦ rw n (get-remove-none k j m u.0, remove-HasUniqueKeys k m u.1)
  ]

  pub get-keys : (m : List (K × V)) (k : K) → holds same (keys m) k ≡ false → get k m ≡ none
  get-keys [] k h = refl
  get-keys ((j, v) ∷ m) k h = elim (Bool-cases (same j k)) [
    | inl e ↦ absurd (ground (arith, h, e))
    | inr n ↦ rw n (get-keys m k (ground (arith, h, n)))
  ]

  pub remove_absent : (k : K) (m : List (K × V)) → get k m ≡ none → remove k m ≡ m
  remove_absent k [] h = refl
  remove_absent k ((j, v) ∷ m) h =
      let (n, rest) = get-tail j k v m h in rw n (ap (λ l. (j, v) ∷ l) (remove_absent k m rest))
