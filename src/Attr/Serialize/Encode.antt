-- ===== src/Attr/Serialize/Encode.antt =====
-- What the writers of Attr/Serialize.antt append, as lists of bytes, and that the loops of
-- Attr/Parse.antt read those bytes back.
use mathlib.Core.List.{append_assoc, append-nil}
use pathforge.Base.{
  ℕ, zero, suc, ◌*◌, ◌≤◌, ◌<◌, ◌≡◌, refl, sym, ap, ◌∙◌, List, [], ◌∷◌, ◌++◌, ok, arith, length,
  length-append, All, bytes32, u8,
}
use pathforge.Bytes.{listed}
use pathforge.Attr.{AsPathSegment, as_set, as_sequence}
use pathforge.Attr.Parse.{read_asns, read_segment, read_segments, read_u32s, segment}
use pathforge.Attr.Serialize.{put_u32s, put_segment, put_segments}

-- A writer puts `bytes` behind what the buffer holds.
abbrev pub Writes : (List ℕ → List ℕ) → List ℕ → Type 0
Writes f bytes = (buf : List ℕ) → f buf ≡ buf ++ bytes

pub Writes-then :
    (f g : List ℕ → List ℕ) (xs ys : List ℕ)
    → Writes f xs
    → Writes g ys
    → Writes (λ buf. g (f buf)) (xs ++ ys)
Writes-then f g xs ys hf hg buf = hg (f buf) ∙ ap (λ b. b ++ ys) (hf buf) ∙ append_assoc buf xs ys

abbrev pub u32_bytes : List ℕ → List ℕ
u32_bytes [] = []
u32_bytes (n ∷ ns) = bytes32 n ++ u32_bytes ns

pub length-u32_bytes : (ns : List ℕ) → length (u32_bytes ns) ≡ length ns * 4
length-u32_bytes [] = omega arith
length-u32_bytes (n ∷ ns) = omega (arith, length-u32_bytes ns)

pub put_u32s-Writes : (ns : List ℕ) → Writes (λ buf. put_u32s listed buf ns) (u32_bytes ns)
unfolding put_u32s
put_u32s-Writes [] buf = sym (append-nil buf)
put_u32s-Writes (n ∷ ns) buf =
    put_u32s-Writes ns (buf ++ bytes32 n) ∙ append_assoc buf (bytes32 n) (u32_bytes ns)

pub read_u32s_bytes :
    (fuel : ℕ) (ns : List ℕ)
    → length (u32_bytes ns) ≤ fuel
    → read_u32s listed fuel (u32_bytes ns) ≡ ok ns
unfolding read_u32s
read_u32s_bytes zero [] h = refl
read_u32s_bytes zero (n ∷ ns) h = absurd (omega arith)
read_u32s_bytes (suc fuel) [] h = refl
read_u32s_bytes (suc fuel) (n ∷ ns) h = ground (arith, read_u32s_bytes fuel ns (omega arith))

pub read_asns_bytes :
    (ns rest : List ℕ) → read_asns listed (length ns) (u32_bytes ns ++ rest) ≡ ok (ns, rest)
unfolding read_asns
read_asns_bytes [] rest = refl
read_asns_bytes (n ∷ ns) rest = ground (arith, read_asns_bytes ns rest)

abbrev pub segment_code : AsPathSegment → ℕ
segment_code (as_set v) = 1
segment_code (as_sequence v) = 2

abbrev pub numbers : AsPathSegment → List ℕ
numbers (as_set v) = v
numbers (as_sequence v) = v

abbrev pub segment_bytes : AsPathSegment → List ℕ
segment_bytes s = segment_code s ∷ u8 (length (numbers s)) ∷ u32_bytes (numbers s)

abbrev pub segments_bytes : List AsPathSegment → List ℕ
segments_bytes [] = []
segments_bytes (s ∷ ss) = segment_bytes s ++ segments_bytes ss

-- The count of a segment's AS numbers fits its byte.
abbrev pub FitsSegment : AsPathSegment → Type 0
FitsSegment s = length (numbers s) < 256

put_segment-Writes :
    (s : AsPathSegment) → Writes (λ buf. put_segment listed buf s) (segment_bytes s)
unfolding put_segment
put_segment-Writes (as_set v) buf =
    put_u32s-Writes v ((buf ++ (1 ∷ [])) ++ (u8 (length v) ∷ []))
    ∙ append_assoc (buf ++ (1 ∷ [])) (u8 (length v) ∷ []) (u32_bytes v)
    ∙ append_assoc buf (1 ∷ []) (u8 (length v) ∷ u32_bytes v)
put_segment-Writes (as_sequence v) buf =
    put_u32s-Writes v ((buf ++ (2 ∷ [])) ++ (u8 (length v) ∷ []))
    ∙ append_assoc (buf ++ (2 ∷ [])) (u8 (length v) ∷ []) (u32_bytes v)
    ∙ append_assoc buf (2 ∷ []) (u8 (length v) ∷ u32_bytes v)

pub put_segments-Writes :
    (ss : List AsPathSegment) → Writes (λ buf. put_segments listed buf ss) (segments_bytes ss)
unfolding put_segments
put_segments-Writes [] buf = sym (append-nil buf)
put_segments-Writes (s ∷ ss) buf =
    put_segments-Writes ss (put_segment listed buf s)
    ∙ ap (λ b. b ++ segments_bytes ss) (put_segment-Writes s buf)
    ∙ append_assoc buf (segment_bytes s) (segments_bytes ss)

read_segment_bytes :
    (s : AsPathSegment) (rest : List ℕ)
    → FitsSegment s
    → read_segment listed (segment_bytes s ++ rest) ≡ ok (s, rest)
unfolding read_segment segment
read_segment_bytes (as_set v) rest h =
    ground (arith, read_asns_bytes v rest, length-append (u32_bytes v) rest, length-u32_bytes v)
read_segment_bytes (as_sequence v) rest h =
    ground (arith, read_asns_bytes v rest, length-append (u32_bytes v) rest, length-u32_bytes v)

pub read_segments_bytes :
    (fuel : ℕ) (ss : List AsPathSegment)
    → All FitsSegment ss
    → length (segments_bytes ss) ≤ fuel
    → read_segments listed fuel (segments_bytes ss) ≡ ok ss
unfolding read_segments
read_segments_bytes zero [] h f = refl
read_segments_bytes zero (s ∷ ss) h f = absurd (omega arith)
read_segments_bytes (suc fuel) [] h f = refl
read_segments_bytes (suc fuel) (s ∷ ss) h f = ground (
  arith,
  read_segment_bytes s (segments_bytes ss) h.0,
  read_segments_bytes fuel ss h.1
      (omega (arith, length-append (u32_bytes (numbers s)) (segments_bytes ss))),
)
