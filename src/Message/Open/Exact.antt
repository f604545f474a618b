-- ===== src/Message/Open/Exact.antt =====
-- OpenMessage::parse on every body, and on the body that serialize writes.
use mathlib.Core.List.{append-nil}
use pathforge.Base.{
  ℕ, ◌+◌, ◌≤◌, ◌<◌, ◌≡◌, ap, List, [], ◌∷◌, ◌++◌, ok, arith, length, All, IsU8, Returns,
  Returns-bind, ComesBack, Returns-mono, Bool-cases, ltb, inl, inr, bytes16, bytes32, le→ltb,
}
use pathforge.Bytes.{BytesCrate, IsDocumented, listed, for_documented}
use pathforge.Message.{open_type}
use pathforge.Message.Header
use pathforge.Message.Delivery.{Delivers, listed_sent}
use pathforge.Message.Open
use pathforge.Message.Open.{OptionalParam, OpenMessage, parse_params, serialize_body}
use pathforge.Message.Open.Params.{
  encode, FitsByte, put_params-encode, parse_params-encode, AreParamsOf, listed-AreParamsOf,
}

-- The bytes in front of the parameters.
abbrev pub fixed : OpenMessage → List ℕ
fixed m = m.version ∷ (bytes16 m.my_as ++ bytes16 m.hold_time ++ bytes32 m.bgp_id)

-- The body holds the five fields, a length, the parameters' bytes and anything behind them. The
-- length is the count of the parameters' bytes, or one more.
abbrev pub IsOpenOf : List ℕ → OpenMessage → Type 0
IsOpenOf body m =
    (n : ℕ) × (tail : List ℕ) × (length (encode m.optional_params) ≤ n)
    × (n ≤ length (encode m.optional_params) + 1)
    × (body ≡ fixed m ++ (n ∷ (encode m.optional_params ++ tail)))

-- The same, with the bytes of the body known only if the body is one of bytes.
abbrev IsOpenIfBytes : List ℕ → OpenMessage → Type 0
IsOpenIfBytes body m =
    (n : ℕ) × (tail : List ℕ) × (length (encode m.optional_params) ≤ n)
    × (n ≤ length (encode m.optional_params) + 1)
    × (All IsU8 body → body ≡ fixed m ++ (n ∷ (encode m.optional_params ++ tail)))

listed-IsOpenIfBytes : (body : List ℕ) → Returns (IsOpenIfBytes body) (Open.parse listed body)
unfolding Open.parse
listed-IsOpenIfBytes (v ∷ a ∷ b ∷ c ∷ d ∷ e ∷ f ∷ g ∷ h ∷ n ∷ s) =
    rw (le→ltb (length (v ∷ a ∷ b ∷ c ∷ d ∷ e ∷ f ∷ g ∷ h ∷ n ∷ s)) 10 (omega arith))
      (elim (Bool-cases (ltb (length s) n)) [
        | inl short ↦ rw short tt
        | inr fits ↦ rw fits (
            Returns-bind (AreParamsOf s n) _ _ _
              (listed-AreParamsOf n s n (omega arith) (ground arith))
              λ ps (lo, lp, (tail, et)).
                (n, tail, lo, lp, λ bs. ground (arith, et bs.1.1.1.1.1.1.1.1.1.1)))
      ])
listed-IsOpenIfBytes _ = tt

-- On every body there is an answer.
pub parse-answers :
    (o : BytesCrate) → IsDocumented o → (body : List ℕ) → ComesBack (Open.parse o body)
parse-answers o d body =
    for_documented (λ c. ComesBack (Open.parse c body)) o d
      (Returns-mono (IsOpenIfBytes body) _ _ (listed-IsOpenIfBytes body) λ m h. tt)

-- A body of bytes is refused with an error or read; the call never panics, and its loop ends. What
-- it reads is what the body holds: the five fields, a length, the bytes of the parameters and
-- anything behind them, where the length is the count of the parameters' bytes or one more.
pub parse-IsOpenOf :
    (o : BytesCrate)
    → IsDocumented o
    → (body : List ℕ) → All IsU8 body
    → Returns (IsOpenOf body) (Open.parse o body)
parse-IsOpenOf o d body bytes =
    for_documented (λ c. Returns (IsOpenOf body) (Open.parse c body)) o d
      (Returns-mono (IsOpenIfBytes body) _ _ (listed-IsOpenIfBytes body)
        λ m (n, tail, lo, hi, e). (n, tail, lo, hi, e bytes))

-- The fields fit their types, and the parameters their length bytes.
pub record IsSendable (m : OpenMessage) : Type 0 where
  pub params_fit : All FitsByte m.optional_params
  pub total_fits : length (encode m.optional_params) < 256

serialize_body_lem :
    (m : OpenMessage)
    → IsSendable m
    → serialize_body listed m
      ≡ fixed m ++ (length (encode m.optional_params) ∷ encode m.optional_params)
unfolding serialize_body
serialize_body_lem m w =
    rw (put_params-encode m.optional_params [])
      (ap (λ n. fixed m ++ (n ∷ encode m.optional_params)) (omega (arith, w.total_fits)))

read_body :
    (m : OpenMessage)
    → IsSendable m
    → Open.parse listed (fixed m ++ (length (encode m.optional_params) ∷ encode m.optional_params))
      ≡ ok m
unfolding Open.parse
read_body m w =
    let ps : List OptionalParam = m.optional_params in
    let n : ℕ = length (encode ps) in
    let whole : parse_params listed n (encode ps ++ []) n ≡ ok ps =
      parse_params-encode n ps [] w.params_fit (omega arith) in
    ground (arith, rw (append-nil (encode ps)) at whole)

listed_open :
    (m : OpenMessage)
    → IsSendable m
    → Delivers listed open_type (Open.serialize listed m) (λ body. Open.parse listed body ≡ ok m)
listed_open m w =
    let params : List ℕ = encode m.optional_params in
    let body : List ℕ = fixed m ++ (length params ∷ params) in
    let wire : Open.serialize listed m
        ≡ Header.serialize listed (Header.new open_type (length body)) [] ++ body =
      unfold Open.serialize in
      ap (λ b. Header.serialize listed (Header.new open_type (length b)) [] ++ b)
        (serialize_body_lem m w) in
    (
      body,
      λ rest. listed_sent open_type _ body rest wire (omega (arith, w.total_fits)),
      read_body m w,
    )

-- An OPEN comes through whole if each parameter's value and the encoded parameters together are
-- shorter than 256 bytes.
pub open_delivered :
    (o : BytesCrate)
    → IsDocumented o
    → (m : OpenMessage) → IsSendable m
    → Delivers o open_type (Open.serialize o m) (λ body. Open.parse o body ≡ ok m)
open_delivered o d m w =
    for_documented
      (λ c. Delivers c open_type (Open.serialize c m) (λ body. Open.parse c body ≡ ok m)) o d
      (listed_open m w)
