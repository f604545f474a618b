-- ===== src/Message/Header/RoundTrip.antt =====
-- Header.parse against Header.serialize.
use pathforge.Base.{
  Returns-ok, ◌↔◌, sym, ◌∙◌, drop, drop_past, subst, All, IsU8, Returns-mono, split_front, ltb, ap,
  true, ◌⊎◌, err, Bool-cases, inl, inr, ◌==◌, le→ltb, length-append, ◌+◌, Returns, ◌∷◌, length,
  be16, ℕ, ◌≤◌, ◌≡◌, refl, List, [], ◌++◌, ok, arith,
}
use pathforge.Bytes.Listed
use pathforge.Bytes.{BytesCrate, IsDocumented, for_documented, listed}
use pathforge.Message.{
  unknown_type, marker, MessageType, open_type, update, notification, keepalive, route_refresh,
  type_code, try_from, header_len, max_message_len,
}
use pathforge.Message.Header
use pathforge.Message.Header.{Header, bytes_eq}

try_from-type_code : (t : MessageType) → try_from (type_code t) ≡ ok t
unfolding try_from
try_from-type_code open_type = refl
try_from-type_code update = refl
try_from-type_code notification = refl
try_from-type_code keepalive = refl
try_from-type_code route_refresh = refl

pub listed_round_trip :
    (h : Header) (rest : List ℕ)
    → header_len ≤ h.total
    → h.total ≤ max_message_len
    → Header.parse listed (Header.serialize listed h [] ++ rest) ≡ ok (h, rest)
unfolding Header.parse Header.serialize
listed_round_trip h rest lo hi = ground (arith, try_from-type_code h.msg_type)

pub bytes_eq→eq : (s t : List ℕ) → bytes_eq s t ≡ true → s ≡ t
bytes_eq→eq [] [] e = refl
bytes_eq→eq [] (b ∷ t) e = cc
bytes_eq→eq (a ∷ s) [] e = cc
bytes_eq→eq (a ∷ s) (b ∷ t) e = ground (arith, bytes_eq→eq s t)

try_from_cases :
    (z : ℕ)
    → ((t : MessageType) × (try_from z ≡ ok t) × (type_code t ≡ z))
      ⊎ (try_from z ≡ err (unknown_type z))
unfolding try_from
try_from_cases z = elim (Bool-cases (z == 1)) [
  | inl e ↦ inl (open_type, ground arith, ground arith)
  | inr n1 ↦ elim (Bool-cases (z == 2)) [
    | inl e ↦ inl (update, ground arith, ground arith)
    | inr n2 ↦ elim (Bool-cases (z == 3)) [
      | inl e ↦ inl (notification, ground arith, ground arith)
      | inr n3 ↦ elim (Bool-cases (z == 4)) [
        | inl e ↦ inl (keepalive, ground arith, ground arith)
        | inr n4 ↦ elim (Bool-cases (z == 5)) [
          | inl e ↦ inl (route_refresh, ground arith, ground arith)
          | inr n5 ↦ inr (ground arith)
        ]
      ]
    ]
  ]
]

-- Read off the 19 bytes one by one.
listed_on_bytes :
    (m s : List ℕ) (x y z : ℕ)
    → length m ≡ 16
    → Returns
        (λ r.
          (r.1 ≡ s)
          × (header_len ≤ r.0.total)
          × (r.0.total ≤ max_message_len)
          × (m ≡ marker)
          × (r.0.total ≡ be16 x y)
          × (type_code r.0.msg_type ≡ z))
        (Header.parse listed (m ++ (x ∷ y ∷ z ∷ s)))
unfolding Header.parse
listed_on_bytes m s x y z h =
    rw (le→ltb (length (m ++ (x ∷ y ∷ z ∷ s))) 19 (omega (arith, length-append m (x ∷ y ∷ z ∷ s))))
      (rw (Listed.copy_to_bytes_front m (x ∷ y ∷ z ∷ s) 16 h)
        (ground (arith, try_from_cases z, bytes_eq→eq m marker)))

-- A header that `parse` returns is of an admissible length, and the buffer began with it.
abbrev pub IsHeaderOf : List ℕ → Header × List ℕ → Type 0
IsHeaderOf s (h, rest) =
    (header_len ≤ h.total)
    × (h.total ≤ max_message_len)
    × (length s ≡ header_len + length rest)
    × (rest ≡ drop header_len s)
    × (All IsU8 s → s ≡ Header.serialize listed h [] ++ rest)

headed :
    (m : List ℕ) (x y z : ℕ) (s : List ℕ) (r : Header × List ℕ)
    → length m ≡ 16
    → (r.1 ≡ s)
      × (header_len ≤ r.0.total)
      × (r.0.total ≤ max_message_len)
      × (m ≡ marker)
      × (r.0.total ≡ be16 x y)
      × (type_code r.0.msg_type ≡ z)
    → IsHeaderOf (m ++ (x ∷ y ∷ z ∷ s)) r
unfolding Header.serialize
headed m x y z s (h, rest) l (e, lo, hi, em, et, ez) = (
  lo,
  hi,
  omega (arith, length-append m (x ∷ y ∷ z ∷ s), ap length e),
  e ∙ sym (drop_past 16 m (x ∷ y ∷ z ∷ s) 3 l),
  λ b.
      let c : All IsU8 (marker ++ (x ∷ y ∷ z ∷ s)) =
        subst (λ k. All IsU8 (k ++ (x ∷ y ∷ z ∷ s))) em b in
      rw em (ground arith),
)

pub listed-IsHeaderOf : (s : List ℕ) → Returns (IsHeaderOf s) (Header.parse listed s)
listed-IsHeaderOf s = elim (Bool-cases (ltb (length s) 19)) [
  | inl short ↦ unfold Header.parse in rw short tt
  | inr long ↦ go (ground arith) (split_front 16 s (ground arith))
]
  where
    go :
        19 ≤ length s
        → ((m : List ℕ) × (t : List ℕ) × (s ≡ m ++ t) × (length m ≡ 16))
        → Returns (IsHeaderOf s) (Header.parse listed s)
    go k (m, [], e, l) = absurd (omega (arith, ap length e, length-append m []))
    go k (m, (x ∷ []), e, l) = absurd (omega (arith, ap length e, length-append m (x ∷ [])))
    go k (m, (x ∷ y ∷ []), e, l) = absurd (omega (arith, ap length e, length-append m (x ∷ y ∷ [])))
    go k (m, (x ∷ y ∷ z ∷ t), e, l) =
        rw e (Returns-mono _ _ _ (listed_on_bytes m t x y z l) (λ r. headed m x y z t r l))

-- `parse` returns a header and a rest exactly when the header's length field is between 19 and
-- 4096 and the buffer is the header as `serialize` writes it, followed by the rest.
pub parse_iff :
    (o : BytesCrate)
    → IsDocumented o
    → (s : List ℕ) (h : Header) (rest : List ℕ) → All IsU8 s
    → (Header.parse o s ≡ ok (h, rest)) ↔ (
        (header_len ≤ h.total)
        × (h.total ≤ max_message_len)
        × (s ≡ Header.serialize o h [] ++ rest))
parse_iff o d s h rest b =
    for_documented
      (λ c. (Header.parse c s ≡ ok (h, rest)) ↔ (
        (header_len ≤ h.total)
        × (h.total ≤ max_message_len)
        × (s ≡ Header.serialize c h [] ++ rest)))
      o d (forth, λ (lo, hi, e). rw e (listed_round_trip h rest lo hi))
  where
    forth :
        Header.parse listed s ≡ ok (h, rest)
        → (header_len ≤ h.total)
          × (h.total ≤ max_message_len)
          × (s ≡ Header.serialize listed h [] ++ rest)
    forth e =
        let (lo, hi, l, _, f) = Returns-ok (IsHeaderOf s) _ _ (listed-IsHeaderOf s) e in
        (lo, hi, f b)
