-- ===== src/Base/Outcomes.antt =====
-- What a call of a fallible Rust function comes to.
use mathlib.Core.Path.{◌≡◌, subst, refl}
use mathlib.Core.Bool.{Bool, true, false}
use pathforge.Base.Tests.{if◌then◌else◌}
use mathlib.Core.Option.{Option, none, some}

-- `ok` and `err` are Rust's `Result`; `panic` unwinds the task. `stuck` has no counterpart in the
-- program: a loop of the model has used up its fuel.
pub data Outcome {ℓ κ} (E : Type ℓ) (A : Type κ) : Type (ℓ ⊔ κ) where
  ok : A → Outcome E A
  err : E → Outcome E A
  panic : Outcome E A
  stuck : Outcome E A

-- The `?` operator between calls with one error type.
infixl 5 ◌>>=◌ ◌>>◌
abbrev pub ◌>>=◌ {ℓ κ μ} :
    {E : Type ℓ} {A : Type κ} {B : Type μ} → Outcome E A → (A → Outcome E B) → Outcome E B
ok a >>= f = f a
err e >>= f = err e
panic >>= f = panic
stuck >>= f = stuck

abbrev pub ◌>>◌ {ℓ κ} : {E : Type ℓ} {B : Type κ} → Outcome E (Unit {0}) → Outcome E B → Outcome E B
m >> k = m >>= λ _. k

-- `if test { return Err(e) }`
abbrev pub bail_if {ℓ} : {E : Type ℓ} → Bool → E → Outcome E (Unit {0})
bail_if true e = err e
bail_if false e = ok tt

-- A call that returns no `Result` and may panic.
abbrev pub call {ℓ κ} : {E : Type ℓ} {A : Type κ} → Option A → Outcome E A
call none = panic
call (some a) = ok a

-- `Option::and_then`; on calls that may panic, the second after the first.
abbrev pub and_then {ℓ κ} : {A : Type ℓ} {B : Type κ} → Option A → (A → Option B) → Option B
and_then none f = none
and_then (some a) f = f a

abbrev pub map_err {ℓ κ μ} :
    {E : Type ℓ} {F : Type κ} {A : Type μ} → (E → F) → Outcome E A → Outcome F A
map_err f (ok a) = ok a
map_err f (err e) = err (f e)
map_err f panic = panic
map_err f stuck = stuck

-- The call comes back to its caller: with an error, or with a value of which `P` holds.
abbrev pub Returns {ℓ κ} : {E : Type ℓ} {A : Type κ} → (A → Type 0) → Outcome E A → Type 0
Returns P (ok a) = P a
Returns P (err e) = Unit {0}
Returns P panic = ⊥
Returns P stuck = ⊥

module _ {ℓ κ} {E : Type ℓ} {A : Type κ} where
  pub Returns-bind {μ} :
      {B : Type μ} (P : A → Type 0) (Q : B → Type 0) (r : Outcome E A) (f : A → Outcome E B)
      → Returns P r
      → ((a : A) → P a → Returns Q (f a))
      → Returns Q (r >>= f)
  Returns-bind P Q (ok a) f h k = k a h
  Returns-bind P Q (err e) f h k = tt
  Returns-bind P Q panic f h k = h
  Returns-bind P Q stuck f h k = h

  pub Returns-ok : (P : A → Type 0) (r : Outcome E A) (a : A) → Returns P r → r ≡ ok a → P a
  Returns-ok P (ok b) a h e = subst P (cc) h
  Returns-ok P (err x) a h e = cc
  Returns-ok P panic a h e = cc
  Returns-ok P stuck a h e = cc

  pub Returns-mono :
      (P Q : A → Type 0) (r : Outcome E A) → Returns P r → ((a : A) → P a → Q a) → Returns Q r
  Returns-mono P Q (ok a) h k = k a h
  Returns-mono P Q (err e) h k = tt
  Returns-mono P Q panic h k = h
  Returns-mono P Q stuck h k = h

  pub Returns-if :
      (P : A → Type 0) (b : Bool) (x y : Outcome E A)
      → (b ≡ true → Returns P x)
      → (b ≡ false → Returns P y)
      → Returns P (if b then x else y)
  Returns-if P true x y h k = h refl
  Returns-if P false x y h k = k refl

  -- A call of which nothing is asked but that it comes back.
  abbrev pub ComesBack : Outcome E A → Type 0
  ComesBack r = Returns (λ _. Unit {0}) r
