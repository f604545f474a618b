-- ===== src/Bytes.antt =====
-- The crate `bytes`, as far as src/message, src/attr.rs and src/mp.rs call it: an interface with
-- its documented behaviour.
pub mod Listed
use mathlib.Core.Path.{fun_ext}
use Listed
use pathforge.Base.{
  replicate, ℕ, zero, suc, ◌+◌, ◌*◌, ◌/◌, ◌%◌, ◌≤◌, ◌<◌, ◌≡◌, refl, ◌⊎◌, inl, inr, List, [], ◌∷◌,
  ◌++◌, Option, none, some, arith, length, take, drop, be16, be32, bytes16, bytes32, ltb,
  if◌then◌else◌, Bool-cases, ltb→lt, lt→ltb, le→ltb, subst, sym,
}

-- A buffer is the list of the bytes in it that are not yet read. A reader returns the buffer as it
-- leaves it; `none` is a panic. A writer appends.
pub record BytesCrate : Type 0 where
  pub remaining : List ℕ → ℕ
  pub get_u8 : List ℕ → Option (ℕ × List ℕ)
  pub get_u16 : List ℕ → Option (ℕ × List ℕ)
  pub get_u32 : List ℕ → Option (ℕ × List ℕ)
  pub copy_to_bytes : List ℕ → ℕ → Option (List ℕ × List ℕ)
  -- The bytes that fill a slice of the given length.
  pub copy_to_slice : List ℕ → ℕ → Option (List ℕ × List ℕ)
  pub advance : List ℕ → ℕ → Option (List ℕ)
  pub put_u8 : List ℕ → ℕ → List ℕ
  pub put_u16 : List ℕ → ℕ → List ℕ
  pub put_u32 : List ℕ → ℕ → List ℕ
  pub put_slice : List ℕ → List ℕ → List ℕ
  -- The content of another buffer, and a byte a number of times.
  pub put : List ℕ → List ℕ → List ℕ
  pub put_bytes : List ℕ → ℕ → ℕ → List ℕ

-- What the documentation of `Buf` and `BufMut` says: integers are big-endian, a reader takes what
-- it returns off the front and panics where too little is left, a writer to a `BytesMut` grows it.
pub record IsDocumented (o : BytesCrate) : Type 0 where
  pub remaining_lem : (s : List ℕ) → o.remaining s ≡ length s
  pub get_u8_lem : (a : ℕ) (s : List ℕ) → o.get_u8 (a ∷ s) ≡ some (a, s)
  pub get_u8_short : o.get_u8 [] ≡ none
  pub get_u16_lem : (a b : ℕ) (s : List ℕ) → o.get_u16 (a ∷ b ∷ s) ≡ some (be16 a b, s)
  pub get_u16_short : (s : List ℕ) → length s < 2 → o.get_u16 s ≡ none
  pub get_u32_lem :
      (a b c d : ℕ) (s : List ℕ) → o.get_u32 (a ∷ b ∷ c ∷ d ∷ s) ≡ some (be32 a b c d, s)
  pub get_u32_short : (s : List ℕ) → length s < 4 → o.get_u32 s ≡ none
  pub copy_lem :
      (s : List ℕ) (n : ℕ) → n ≤ length s → o.copy_to_bytes s n ≡ some (take n s, drop n s)
  pub copy_short : (s : List ℕ) (n : ℕ) → length s < n → o.copy_to_bytes s n ≡ none
  pub slice_lem :
      (s : List ℕ) (n : ℕ) → n ≤ length s → o.copy_to_slice s n ≡ some (take n s, drop n s)
  pub slice_short : (s : List ℕ) (n : ℕ) → length s < n → o.copy_to_slice s n ≡ none
  pub advance_lem : (s : List ℕ) (n : ℕ) → n ≤ length s → o.advance s n ≡ some (drop n s)
  pub advance_short : (s : List ℕ) (n : ℕ) → length s < n → o.advance s n ≡ none
  pub put_u8_lem : (s : List ℕ) (n : ℕ) → o.put_u8 s n ≡ s ++ (n ∷ [])
  pub put_u16_lem : (s : List ℕ) (n : ℕ) → o.put_u16 s n ≡ s ++ bytes16 n
  pub put_u32_lem : (s : List ℕ) (n : ℕ) → o.put_u32 s n ≡ s ++ bytes32 n
  pub put_slice_lem : (s t : List ℕ) → o.put_slice s t ≡ s ++ t
  pub put_lem : (s t : List ℕ) → o.put s t ≡ s ++ t
  pub put_bytes_lem : (s : List ℕ) (b n : ℕ) → o.put_bytes s b n ≡ s ++ replicate n b

-- One value of the interface, on which the laws hold and which runs.
abbrev pub listed : BytesCrate
listed = record {
  remaining = length;
  get_u8 = Listed.get_u8;
  get_u16 = Listed.get_u16;
  get_u32 = Listed.get_u32;
  copy_to_bytes = Listed.copy_to_bytes;
  copy_to_slice = Listed.copy_to_bytes;
  advance = Listed.advance;
  put_u8 = λ s n. s ++ (n ∷ []);
  put_u16 = λ s n. s ++ bytes16 n;
  put_u32 = λ s n. s ++ bytes32 n;
  put_slice = λ s t. s ++ t;
  put = λ s t. s ++ t;
  put_bytes = λ s b n. s ++ replicate n b;
}

-- The documentation fixes every operation.
pub listed_unique : (o : BytesCrate) → IsDocumented o → o ≡ listed
listed_unique o d = λ i. record {
  remaining = fun_ext d.remaining_lem i;
  get_u8 = fun_ext get_u8_eq i;
  get_u16 = fun_ext get_u16_eq i;
  get_u32 = fun_ext get_u32_eq i;
  copy_to_bytes = fun_ext (λ s. fun_ext (copy_eq s)) i;
  copy_to_slice = fun_ext (λ s. fun_ext (slice_eq s)) i;
  advance = fun_ext (λ s. fun_ext (advance_eq s)) i;
  put_u8 = fun_ext (λ s. fun_ext (d.put_u8_lem s)) i;
  put_u16 = fun_ext (λ s. fun_ext (d.put_u16_lem s)) i;
  put_u32 = fun_ext (λ s. fun_ext (d.put_u32_lem s)) i;
  put_slice = fun_ext (λ s. fun_ext (d.put_slice_lem s)) i;
  put = fun_ext (λ s. fun_ext (d.put_lem s)) i;
  put_bytes = fun_ext (λ s. fun_ext (λ b. fun_ext (d.put_bytes_lem s b))) i;
}
  where
    get_u8_eq : (s : List ℕ) → o.get_u8 s ≡ Listed.get_u8 s
    get_u8_eq [] = d.get_u8_short
    get_u8_eq (a ∷ s) = d.get_u8_lem a s

    get_u16_eq : (s : List ℕ) → o.get_u16 s ≡ Listed.get_u16 s
    get_u16_eq [] = d.get_u16_short [] (omega arith)
    get_u16_eq (a ∷ []) = d.get_u16_short (a ∷ []) (omega arith)
    get_u16_eq (a ∷ b ∷ s) = d.get_u16_lem a b s

    get_u32_eq : (s : List ℕ) → o.get_u32 s ≡ Listed.get_u32 s
    get_u32_eq [] = d.get_u32_short [] (omega arith)
    get_u32_eq (a ∷ []) = d.get_u32_short (a ∷ []) (omega arith)
    get_u32_eq (a ∷ b ∷ []) = d.get_u32_short (a ∷ b ∷ []) (omega arith)
    get_u32_eq (a ∷ b ∷ c ∷ []) = d.get_u32_short (a ∷ b ∷ c ∷ []) (omega arith)
    get_u32_eq (a ∷ b ∷ c ∷ e ∷ s) = d.get_u32_lem a b c e s

    copy_eq : (s : List ℕ) (n : ℕ) → o.copy_to_bytes s n ≡ Listed.copy_to_bytes s n
    copy_eq s n = elim (Bool-cases (ltb (length s) n)) [
      | inl short ↦ rw short (d.copy_short s n (ltb→lt _ _ short))
      | inr long ↦ rw long (d.copy_lem s n (ground arith))
    ]

    slice_eq : (s : List ℕ) (n : ℕ) → o.copy_to_slice s n ≡ Listed.copy_to_bytes s n
    slice_eq s n = elim (Bool-cases (ltb (length s) n)) [
      | inl short ↦ rw short (d.slice_short s n (ltb→lt _ _ short))
      | inr long ↦ rw long (d.slice_lem s n (ground arith))
    ]

    advance_eq : (s : List ℕ) (n : ℕ) → o.advance s n ≡ Listed.advance s n
    advance_eq s n = elim (Bool-cases (ltb (length s) n)) [
      | inl short ↦ rw short (d.advance_short s n (ltb→lt _ _ short))
      | inr long ↦ rw long (d.advance_lem s n (ground arith))
    ]

-- And `listed` meets it.
pub listed-IsDocumented : IsDocumented listed
listed-IsDocumented = record {
  remaining_lem = λ s. refl;
  get_u8_lem = λ a s. refl;
  get_u8_short = refl;
  get_u16_lem = λ a b s. refl;
  get_u16_short = get_u16_short;
  get_u32_lem = λ a b c d s. refl;
  get_u32_short = get_u32_short;
  copy_lem = λ s n h. rw (le→ltb (length s) n h);
  copy_short = λ s n h. rw (lt→ltb (length s) n h);
  slice_lem = λ s n h. rw (le→ltb (length s) n h);
  slice_short = λ s n h. rw (lt→ltb (length s) n h);
  advance_lem = λ s n h. rw (le→ltb (length s) n h);
  advance_short = λ s n h. rw (lt→ltb (length s) n h);
  put_u8_lem = λ s n. refl;
  put_u16_lem = λ s n. refl;
  put_u32_lem = λ s n. refl;
  put_slice_lem = λ s t. refl;
  put_lem = λ s t. refl;
  put_bytes_lem = λ s b n. refl;
}
  where
    get_u16_short : (s : List ℕ) → length s < 2 → Listed.get_u16 s ≡ none
    get_u16_short [] h = refl
    get_u16_short (a ∷ []) h = refl
    get_u16_short (a ∷ b ∷ s) h = absurd (omega arith)

    get_u32_short : (s : List ℕ) → length s < 4 → Listed.get_u32 s ≡ none
    get_u32_short [] h = refl
    get_u32_short (a ∷ []) h = refl
    get_u32_short (a ∷ b ∷ []) h = refl
    get_u32_short (a ∷ b ∷ c ∷ []) h = refl
    get_u32_short (a ∷ b ∷ c ∷ d ∷ s) h = absurd (omega arith)

-- What holds over `listed` holds over every crate that behaves as documented.
pub for_documented {ℓ} :
    (P : BytesCrate → Type ℓ) (o : BytesCrate) → IsDocumented o → P listed → P o
for_documented P o d h = subst P (sym (listed_unique o d)) h
