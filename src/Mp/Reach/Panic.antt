-- ===== src/Mp/Reach/Panic.antt =====
-- Where MpReachNlri::parse comes back and where it panics.
use pathforge.Base.{
  be32, take, drop, ℕ, zero, suc, ◌≤◌, ◌<◌, ◌≡◌, ◌⊎◌, inl, inr, refl, ◌∙◌, sym, ap, subst, List, [],
  ◌∷◌, ◌++◌, Outcome, ok, err, panic, stuck, ◌>>=◌, arith, length, length-append, split_front, ltb,
  ltb→lt, lt→ltb, le→ltb, Bool-cases, ComesBack, ◌↔◌, Returns-bind, be16, bytes32, length-drop,
}
use pathforge.Bytes.{BytesCrate, IsDocumented, listed, for_documented}
use mathlib.Core.List.{append-nil}
use pathforge.Bytes.Listed
use pathforge.Mp.{v4, v6, Afi, ipv4, ipv6, afi_from, Safi, safi_from, MpError, IpAddr}
use pathforge.Mp.Prefix.Wire.{parse_all-Returns}
use pathforge.Mp.Unreach.Wire.{afi_from-Returns, safi_from-Returns}
use pathforge.Mp.Reach
use pathforge.Mp.Reach.{MpReachNlri, read_v4, read_v6, read_next_hops, parse_nlri}

-- Known families, and next hops that take the buffer to its end: the SNPA byte is not there.
pub record IsCutOff (buf : List ℕ) : Type 0 where
  pub afi_hi : ℕ
  pub afi_lo : ℕ
  pub safi_byte : ℕ
  pub nh : List ℕ
  pub afi : Afi
  pub safi : Safi
  pub buf_eq : buf ≡ afi_hi ∷ afi_lo ∷ safi_byte ∷ length nh ∷ nh
  pub afi_eq : afi_from (be16 afi_hi afi_lo) ≡ ok afi
  pub safi_eq : safi_from safi_byte ≡ ok safi

-- The loops over the next hops have no error to return.
abbrev pub IsRead : Outcome MpError (List IpAddr) → Type 0
IsRead r = (nhs : List IpAddr) × (r ≡ ok nhs)

read_v4-IsRead : (fuel : ℕ) (buf : List ℕ) → length buf ≤ fuel → IsRead (read_v4 listed fuel buf)
unfolding read_v4
read_v4-IsRead zero [] h = ([], refl)
read_v4-IsRead zero (a ∷ s) h = absurd (omega arith)
read_v4-IsRead (suc fuel) (a ∷ b ∷ c ∷ d ∷ s) h =
    let (nhs, e) = read_v4-IsRead fuel s (omega arith) in
    (
      v4 (bytes32 (be32 a b c d)) ∷ nhs,
      rw (le→ltb (length (a ∷ b ∷ c ∷ d ∷ s)) 4 (omega arith), e) refl,
    )
read_v4-IsRead (suc fuel) _ h = ([], refl)

read_v6-IsRead : (fuel : ℕ) (buf : List ℕ) → length buf ≤ fuel → IsRead (read_v6 listed fuel buf)
unfolding read_v6
read_v6-IsRead zero [] h = ([], refl)
read_v6-IsRead zero (a ∷ s) h = absurd (omega arith)
read_v6-IsRead (suc fuel) buf h = elim (Bool-cases (ltb (length buf) 16)) [
  | inl short ↦ ([], rw short refl)
  | inr fits ↦
      let shorter : length (drop 16 buf) ≤ fuel = ground (arith, length-drop 16 buf) in
      let (nhs, e) = read_v6-IsRead fuel (drop 16 buf) shorter in
      (v6 (take 16 buf) ∷ nhs, rw fits (rw e refl))
]

pub read_next_hops-IsRead : (afi : Afi) (buf : List ℕ) → IsRead (read_next_hops listed afi buf)
unfolding read_next_hops
read_next_hops-IsRead ipv4 buf = read_v4-IsRead (length buf) buf (omega arith)
read_next_hops-IsRead ipv6 buf = read_v6-IsRead (length buf) buf (omega arith)

parse_nlri-Returns :
    (afi : Afi) (safi : Safi) (nhs : List IpAddr) (b : ℕ) (s : List ℕ)
    → ComesBack (parse_nlri listed afi safi nhs (b ∷ s))
unfolding parse_nlri
parse_nlri-Returns afi safi nhs b s =
    Returns-bind (λ _. Unit {0}) _ _ _ (parse_all-Returns afi (length s) s (omega arith)) λ _ _. tt

-- The parser as far as the next hops, which are there whole.
pub parse-next_hops :
    (hi lo b : ℕ) (nh rest : List ℕ)
    → Reach.parse listed (hi ∷ lo ∷ b ∷ length nh ∷ (nh ++ rest))
      ≡ afi_from (be16 hi lo) >>= λ afi. safi_from b >>= λ safi.
          read_next_hops listed afi nh >>= λ nhs. parse_nlri listed afi safi nhs rest
unfolding Reach.parse
parse-next_hops hi lo b nh rest =
    rw
      (
        le→ltb (length (hi ∷ lo ∷ b ∷ length nh ∷ (nh ++ rest))) 4 (omega arith),
        Listed.copy_to_bytes_front nh rest (length nh) refl,
        le→ltb (length (nh ++ rest)) (length nh) (omega (arith, length-append nh rest)),
      )
      refl

cut_panics :
    (hi lo b : ℕ) (nh : List ℕ) (afi : Afi) (safi : Safi)
    → afi_from (be16 hi lo) ≡ ok afi
    → safi_from b ≡ ok safi
    → Reach.parse listed (hi ∷ lo ∷ b ∷ length nh ∷ nh) ≡ panic
unfolding parse_nlri
cut_panics hi lo b nh afi safi ea es =
    let (nhs, er) = read_next_hops-IsRead afi nh in
    ap (λ s. Reach.parse listed (hi ∷ lo ∷ b ∷ length nh ∷ s)) (sym (append-nil nh))
    ∙ parse-next_hops hi lo b nh []
    ∙ rw (ea, es, er) refl

-- With all the bytes of the next hops there: whatever follows, the buffer is cut off or the call
-- comes back.
whole_outcome :
    (hi lo b : ℕ) (nh rest : List ℕ) (ra : Outcome MpError Afi) (rs : Outcome MpError Safi)
    → afi_from (be16 hi lo) ≡ ra
    → safi_from b ≡ rs
    → ComesBack ra
    → ComesBack rs
    → IsCutOff (hi ∷ lo ∷ b ∷ length nh ∷ (nh ++ rest))
      ⊎ ComesBack (
          ra >>= λ afi. rs >>= λ safi.
          read_next_hops listed afi nh >>= λ nhs. parse_nlri listed afi safi nhs rest)
whole_outcome hi lo b nh rest (err e) rs ea es h k = inr tt
whole_outcome hi lo b nh rest (ok afi) (err e) ea es h k = inr tt
whole_outcome hi lo b nh [] (ok afi) (ok safi) ea es h k = inl (record {
  afi_hi = hi;
  afi_lo = lo;
  safi_byte = b;
  nh = nh;
  afi = afi;
  safi = safi;
  buf_eq = ap (λ s. hi ∷ lo ∷ b ∷ length nh ∷ s) (append-nil nh);
  afi_eq = ea;
  safi_eq = es;
})
whole_outcome hi lo b nh (x ∷ rest) (ok afi) (ok safi) ea es h k =
    let (nhs, er) = read_next_hops-IsRead afi nh in
    inr (rw er (parse_nlri-Returns afi safi nhs x rest))
whole_outcome hi lo b nh rest panic rs ea es h k = absurd h
whole_outcome hi lo b nh rest stuck rs ea es h k = absurd h
whole_outcome hi lo b nh rest (ok afi) panic ea es h k = absurd k
whole_outcome hi lo b nh rest (ok afi) stuck ea es h k = absurd k

parse-missing :
    (hi lo b n : ℕ) (s : List ℕ)
    → length s < n
    → ComesBack (Reach.parse listed (hi ∷ lo ∷ b ∷ n ∷ s))
unfolding Reach.parse
parse-missing hi lo b n s h =
    rw (le→ltb (length (hi ∷ lo ∷ b ∷ n ∷ s)) 4 (omega arith), lt→ltb (length s) n h)
      (Returns-bind (λ _. Unit {0}) _ _ _ (afi_from-Returns (be16 hi lo))
        λ afi _. Returns-bind (λ _. Unit {0}) _ _ _ (safi_from-Returns b) λ safi _. tt)

long_outcome :
    (hi lo b n : ℕ) (s : List ℕ)
    → IsCutOff (hi ∷ lo ∷ b ∷ n ∷ s) ⊎ ComesBack (Reach.parse listed (hi ∷ lo ∷ b ∷ n ∷ s))
long_outcome hi lo b n s = elim (Bool-cases (ltb (length s) n)) [
  | inl short ↦ inr (parse-missing hi lo b n s (ltb→lt _ _ short))
  | inr fits ↦
      let (nh, rest, e, l) = split_front n s (ground arith) in
      subst (λ z. IsCutOff (hi ∷ lo ∷ b ∷ z) ⊎ ComesBack (Reach.parse listed (hi ∷ lo ∷ b ∷ z)))
        (ap (λ k. k ∷ (nh ++ rest)) l ∙ ap (λ t. n ∷ t) (sym e))
        (rw (parse-next_hops hi lo b nh rest) (
          whole_outcome hi lo b nh rest _ _ refl refl (afi_from-Returns (be16 hi lo))
            (safi_from-Returns b)))
]

listed_outcome : (buf : List ℕ) → IsCutOff buf ⊎ ComesBack (Reach.parse listed buf)
unfolding Reach.parse
listed_outcome [] = inr tt
listed_outcome (a ∷ []) = inr tt
listed_outcome (a ∷ b ∷ []) = inr tt
listed_outcome (a ∷ b ∷ c ∷ []) = inr tt
listed_outcome (a ∷ b ∷ c ∷ n ∷ s) = long_outcome a b c n s

listed_cut_off : (buf : List ℕ) → IsCutOff buf → Reach.parse listed buf ≡ panic
listed_cut_off buf c =
    ap (Reach.parse listed) c.buf_eq
    ∙ cut_panics c.afi_hi c.afi_lo c.safi_byte c.nh c.afi c.safi c.afi_eq c.safi_eq

-- A buffer that is cut off behind its next hops panics, and any other comes back.
abbrev pub PanicsCutOff : List ℕ → Outcome MpError MpReachNlri → Type 0
PanicsCutOff buf r = (IsCutOff buf ⊎ ComesBack r) × ((r ≡ panic) ↔ IsCutOff buf)

cut_off_iff :
    (buf : List ℕ) (r : Outcome MpError MpReachNlri)
    → (IsCutOff buf → r ≡ panic)
    → IsCutOff buf ⊎ ComesBack r
    → PanicsCutOff buf r
cut_off_iff buf r h (inl c) = (inl c, ((λ e. c), h))
cut_off_iff buf r h (inr b) = (inr b, ((λ e. absurd (subst ComesBack e b)), h))

-- The parser panics on a buffer exactly if the buffer is of a known family and ends with its next
-- hops; and every buffer is of that kind, or the call comes back with an error or a value.
pub parse-PanicsCutOff :
    (o : BytesCrate) → IsDocumented o → (buf : List ℕ) → PanicsCutOff buf (Reach.parse o buf)
parse-PanicsCutOff o d buf =
    for_documented (λ c. PanicsCutOff buf (Reach.parse c buf)) o d
      (cut_off_iff buf (Reach.parse listed buf) (listed_cut_off buf) (listed_outcome buf))
