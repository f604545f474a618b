-- ===== src/Bytes/Listed.antt =====
-- The interface of Bytes.antt over lists: its one value up to equality, which tests run.
use mathlib.Core.List.{append-nil}
use pathforge.Base.{
  refl, ◌∙◌, sym, ap, ◌≤◌, ◌≡◌, ◌+◌, arith, le→ltb, length-append, take-length-append,
  drop-length-append, ◌++◌, ℕ, List, [], ◌∷◌, Option, none, some, length, take, drop, be16, be32,
  ltb, if◌then◌else◌,
}

abbrev pub get_u8 : List ℕ → Option (ℕ × List ℕ)
get_u8 [] = none
get_u8 (a ∷ s) = some (a, s)

abbrev pub get_u16 : List ℕ → Option (ℕ × List ℕ)
get_u16 (a ∷ b ∷ s) = some (be16 a b, s)
get_u16 _ = none

abbrev pub get_u32 : List ℕ → Option (ℕ × List ℕ)
get_u32 (a ∷ b ∷ c ∷ d ∷ s) = some (be32 a b c d, s)
get_u32 _ = none

abbrev pub copy_to_bytes : List ℕ → ℕ → Option (List ℕ × List ℕ)
copy_to_bytes s n = if ltb (length s) n then none else some (take n s, drop n s)

abbrev pub advance : List ℕ → ℕ → Option (List ℕ)
advance s n = if ltb (length s) n then none else some (drop n s)

pub copy_to_bytes_lem :
    (s : List ℕ) (n : ℕ) → n ≤ length s → copy_to_bytes s n ≡ some (take n s, drop n s)
copy_to_bytes_lem s n h = rw (le→ltb (length s) n h)

pub copy_to_bytes_front :
    (m t : List ℕ) (n : ℕ) → length m ≡ n → copy_to_bytes (m ++ t) n ≡ some (m, t)
copy_to_bytes_front m t n h = rw (← h) (
    rw (
      length-append m t,
      le→ltb (length m + length t) (length m) (omega arith),
      take-length-append m t,
      drop-length-append m t,
    ))

pub copy_to_bytes_all : (s : List ℕ) → copy_to_bytes s (length s) ≡ some (s, [])
copy_to_bytes_all s =
    ap (λ t. copy_to_bytes t (length s)) (sym (append-nil s))
    ∙ copy_to_bytes_front s [] (length s) refl
