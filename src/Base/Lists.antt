-- ===== src/Base/Lists.antt =====
-- Lists measured and cut by native numbers, under the library's names.
use Prim.Native.Nat.{ℕ, zero, suc, ◌+◌, ◌-◌, ◌≤◌, min}
use mathlib.Core.Path.{◌≡◌, refl, ap, ◌∙◌}
use mathlib.Core.List.{List, [], ◌∷◌, ◌++◌}
use native.Mathlib.Omega.{arith}

module _ {ℓ} {A : Type ℓ} where
  abbrev pub length : List A → ℕ
  length [] = 0
  length (x ∷ xs) = suc (length xs)

  abbrev pub take : ℕ → List A → List A
  take zero xs = []
  take (suc n) [] = []
  take (suc n) (x ∷ xs) = x ∷ take n xs

  abbrev pub drop : ℕ → List A → List A
  drop zero xs = xs
  drop (suc n) [] = []
  drop (suc n) (x ∷ xs) = drop n xs

  abbrev pub replicate : ℕ → A → List A
  replicate zero a = []
  replicate (suc n) a = a ∷ replicate n a

  abbrev pub All {κ} : (A → Type κ) → List A → Type κ
  All P [] = Unit {κ}
  All P (x ∷ xs) = P x × All P xs

  pub length-append : (xs ys : List A) → length (xs ++ ys) ≡ length xs + length ys
  length-append [] ys = omega arith
  length-append (x ∷ xs) ys = omega (arith, length-append xs ys)

  pub length-take : (n : ℕ) (xs : List A) → length (take n xs) ≡ min n (length xs)
  length-take zero xs = omega arith
  length-take (suc n) [] = omega arith
  length-take (suc n) (x ∷ xs) = omega (arith, length-take n xs)

  pub length-drop : (n : ℕ) (xs : List A) → length (drop n xs) ≡ length xs - n
  length-drop zero xs = omega arith
  length-drop (suc n) [] = omega arith
  length-drop (suc n) (x ∷ xs) = omega (arith, length-drop n xs)

  pub take-length-append : (xs ys : List A) → take (length xs) (xs ++ ys) ≡ xs
  take-length-append [] ys = refl
  take-length-append (x ∷ xs) ys = ap (◌∷◌ x) (take-length-append xs ys)

  pub drop-length-append : (xs ys : List A) → drop (length xs) (xs ++ ys) ≡ ys
  drop-length-append [] ys = refl
  drop-length-append (x ∷ xs) ys = drop-length-append xs ys

  -- A list cut behind its first `n` elements.
  pub split_front :
      (n : ℕ) (s : List A)
      → n ≤ length s
      → (m : List A) × (t : List A) × (s ≡ m ++ t) × (length m ≡ n)
  split_front zero s h = ([], s, refl, refl)
  split_front (suc n) [] h = absurd (omega arith)
  split_front (suc n) (x ∷ s) h =
      let (m, t, e, l) = split_front n s (omega arith) in (x ∷ m, t, ap (◌∷◌ x) e, ap suc l)

  pub drop_past : (n : ℕ) (m t : List A) (k : ℕ) → length m ≡ n → drop (n + k) (m ++ t) ≡ drop k t
  drop_past zero [] t k h = ap (λ j. drop j t) (omega arith)
  drop_past zero (x ∷ m) t k h = absurd (omega arith)
  drop_past (suc n) [] t k h = absurd (omega arith)
  drop_past (suc n) (x ∷ m) t k h =
      let e : suc n + k ≡ suc (n + k) = omega arith in
      ap (λ j. drop j (x ∷ (m ++ t))) e ∙ drop_past n m t k (omega arith)

  pub take-append-drop : (n : ℕ) (xs : List A) → take n xs ++ drop n xs ≡ xs
  take-append-drop zero xs = refl
  take-append-drop (suc n) [] = refl
  take-append-drop (suc n) (x ∷ xs) = ap (◌∷◌ x) (take-append-drop n xs)

  -- Two ways to cut one list at the same place.
  pub append-cancel : (a m b c : List A) → length a ≡ length m → a ++ b ≡ m ++ c → (a ≡ m) × (b ≡ c)
  append-cancel [] [] b c l e = (refl, e)
  append-cancel [] (y ∷ m) b c l e = absurd (omega arith)
  append-cancel (x ∷ a) [] b c l e = absurd (omega arith)
  append-cancel (x ∷ a) (y ∷ m) b c l e =
      let (p, q) = append-cancel a m b c (omega arith) (cc) in (cc, q)

  pub All-back {κ} : (P : A → Type κ) (xs ys : List A) → All P (xs ++ ys) → All P ys
  All-back P [] ys h = h
  All-back P (x ∷ xs) ys h = All-back P xs ys h.1

  pub All-front {κ} : (P : A → Type κ) (xs ys : List A) → All P (xs ++ ys) → All P xs
  All-front P [] ys h = tt
  All-front P (x ∷ xs) ys h = (h.0, All-front P xs ys h.1)

  pub All-append {κ} : (P : A → Type κ) (xs ys : List A) → All P xs → All P ys → All P (xs ++ ys)
  All-append P [] ys h k = k
  All-append P (x ∷ xs) ys h k = (h.0, All-append P xs ys h.1 k)
