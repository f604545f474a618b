-- ===== src/Message/Frame/Split.antt =====
-- BgpMessage::parse cuts one message off a stream: on every buffer, on a whole message, and on a
-- message that has not arrived whole.
use mathlib.Core.List.{append_assoc}
use pathforge.Base.{
  ◌∷◌, split_front, append-cancel, length-append, ok, take-append-drop, ℕ, ◌+◌, ◌-◌, ◌≤◌, ◌≡◌, refl,
  sym, ap, ◌∙◌, inl, inr, List, [], ◌++◌, Option, none, some, arith, length, drop, All, IsU8, ltb,
  Returns, Returns-bind, Bool-cases, length-take, length-drop,
}
use pathforge.Bytes.{for_documented, IsDocumented, BytesCrate, listed}
use pathforge.Bytes.Listed
use pathforge.Message.{header_len, max_message_len}
use pathforge.Message.Header
use pathforge.Message.Header.{Header}
use pathforge.Message.Header.RoundTrip.{listed_round_trip, IsHeaderOf, listed-IsHeaderOf}
use pathforge.Message.Frame
use pathforge.Message.Frame.{BgpMessage}

-- What a call that returns did with the buffer: nothing, or it cut a whole message off.
abbrev pub IsSplit : BytesCrate → List ℕ → Option BgpMessage × List ℕ → Type 0
IsSplit o buf (none, rest) = rest ≡ buf
IsSplit o buf (some m, rest) =
    (header_len ≤ m.header.total)
    × (m.header.total ≤ max_message_len)
    × (m.header.total ≡ header_len + length m.body)
    × (All IsU8 buf → buf ≡ Header.serialize o m.header [] ++ (m.body ++ rest))

pub listed-IsSplit : (buf : List ℕ) → Returns (IsSplit listed buf) (Frame.parse listed buf)
unfolding Frame.parse
listed-IsSplit buf = elim (Bool-cases (ltb (length buf) header_len)) [
  | inl short ↦ rw short refl
  | inr long ↦ rw long (
      Returns-bind (IsHeaderOf buf) _ _ _ (listed-IsHeaderOf buf) λ (h, peek) (lo, hi, l, e, f).
        elim (Bool-cases (ltb (length buf) h.total)) [
          | inl wait ↦ rw wait refl
          | inr whole ↦
              rw
                (
                  whole,
                  Listed.copy_to_bytes_lem (drop header_len buf) (h.total - header_len)
                      (ground (arith, length-drop header_len buf)),
                )
                (
                  lo,
                  hi,
                  ground (
                    arith,
                    length-take (h.total - header_len) (drop header_len buf),
                    length-drop header_len buf,
                  ),
                  λ b.
                      f b
                      ∙ ap (◌++◌ (Header.serialize listed h []))
                          (e ∙ sym (take-append-drop (h.total - header_len) _)),
                )
        ])
]

-- On every buffer the call returns: it never panics. It asks for more data and leaves the buffer
-- as it was, or fails, or cuts off one message whose length field is between 19 and 4096 and counts
-- header and body; the buffer was that message followed by the new buffer.
pub parse-IsSplit :
    (o : BytesCrate) → IsDocumented o → (buf : List ℕ) → Returns (IsSplit o buf) (Frame.parse o buf)
parse-IsSplit o d buf =
    for_documented (λ c. Returns (IsSplit c buf) (Frame.parse c buf)) o d (listed-IsSplit buf)

-- The header and the body of a message that is to be sent.
abbrev pub IsWhole : Header → List ℕ → Type 0
IsWhole h body = (h.total ≡ header_len + length body) × (h.total ≤ max_message_len)

pub listed_whole :
    (h : Header) (body rest : List ℕ)
    → IsWhole h body
    → Frame.parse listed (Header.serialize listed h [] ++ (body ++ rest))
      ≡ ok (some (record { header = h; body = body }), rest)
unfolding Frame.parse
listed_whole h body rest (total, hi) = rw (listed_round_trip h (body ++ rest) (omega arith) hi) (
    unfold Header.serialize in
    ground (
      arith,
      length-append body rest,
      Listed.copy_to_bytes_front body rest (h.total - header_len) (omega arith),
    ))

-- A whole message at the front of the buffer is returned, and what follows it stays.
parse_whole :
    (o : BytesCrate)
    → IsDocumented o
    → (h : Header) (body rest : List ℕ) → IsWhole h body
    → Frame.parse o (Header.serialize o h [] ++ (body ++ rest))
      ≡ ok (some (record { header = h; body = body }), rest)
parse_whole o d h body rest w =
    for_documented
      (λ c.
        Frame.parse c (Header.serialize c h [] ++ (body ++ rest))
        ≡ ok (some (record { header = h; body = body }), rest))
      o d (listed_whole h body rest w)

-- The bytes of a message that has not arrived whole.
cut_header :
    (h : Header) (body front back : List ℕ)
    → Header.serialize listed h [] ++ body ≡ front ++ back
    → header_len ≤ length front
    → (tail : List ℕ) × (front ≡ Header.serialize listed h [] ++ tail)
      × (length tail + length back ≡ length body)
cut_header h body front back e long =
    let (m, t, em, l) = split_front header_len front long in
    let (p, q) =
      append-cancel (Header.serialize listed h []) m body (t ++ back)
        (unfold Header.serialize in omega arith)
        (e ∙ ap (λ f. f ++ back) em ∙ append_assoc m t back) in
    (t, em ∙ ap (λ k. k ++ t) (sym p), omega (arith, ap length q, length-append t back))

listed_part :
    (h : Header) (body front : List ℕ) (x : ℕ) (back : List ℕ)
    → IsWhole h body
    → Header.serialize listed h [] ++ body ≡ front ++ (x ∷ back)
    → Frame.parse listed front ≡ ok (none, front)
unfolding Frame.parse
listed_part h body front x back (total, hi) e = elim (Bool-cases (ltb (length front) header_len)) [
  | inl short ↦ rw short
  | inr long ↦
      let (tail, et, l) = cut_header h body front (x ∷ back) e (ground arith) in
      rw et
        (rw (listed_round_trip h tail (omega arith) hi) (unfold Header.serialize in ground arith))
]

-- While bytes of a message are still to come, the call asks for more and leaves the buffer as it is.
parse_part :
    (o : BytesCrate)
    → IsDocumented o
    → (h : Header) (body front : List ℕ) (x : ℕ) (back : List ℕ) → IsWhole h body
    → Header.serialize o h [] ++ body ≡ front ++ (x ∷ back)
    → Frame.parse o front ≡ ok (none, front)
parse_part o d h body front x back w =
    for_documented
      (λ c.
        Header.serialize c h [] ++ body ≡ front ++ (x ∷ back)
        → Frame.parse c front ≡ ok (none, front))
      o d (listed_part h body front x back w)
