-- ===== src/Message/Update/RoundTrip.antt =====
-- An UPDATE through serialize, the frame and parse.
use mathlib.Core.List.{append_assoc}
use Prim.Native.String.{String}
use pathforge.Base.{
  none, ℕ, ◌+◌, ◌≤◌, ◌≡◌, ◌∙◌, ap, refl, sym, List, [], ◌++◌, some, ok, arith, length,
  length-append, All, be16, bytes16, u16, le→ltb, ◌/◌, ◌%◌, ◌>>=◌,
}
use pathforge.Bytes.{BytesCrate, IsDocumented, listed, for_documented}
use pathforge.Bytes.Listed
use pathforge.Attr.{AttrError}
use pathforge.Attr.Serialize as AttrSerialize
use pathforge.Attr.Serialize.RoundTrip as AttrRoundTrip
use pathforge.Attr.Serialize.RoundTrip.{listed-parse-serialize}
use pathforge.Message.{update}
use pathforge.Message.Header
use pathforge.Message.Delivery.{Delivers, listed_sent, max_body_len}
use pathforge.Message.Prefix.{serialize_all}
use pathforge.Message.Prefix.Wire
use pathforge.Message.Prefix.Wire.{encode_all, serialize_all_lem, parse_all-encode}
use pathforge.Message.Update
use pathforge.Message.Update.{UpdateMessage, parse_rest, compose}
use pathforge.Message.Update.Panic.{parse-section}

abbrev pub attr_bytes : BytesCrate → UpdateMessage → List ℕ
attr_bytes o m = AttrSerialize.serialize o m.path_attributes

-- An UPDATE of IPv4 prefixes and attributes that come through, of a length that fits a message.
pub record IsSendable (o : BytesCrate) (m : UpdateMessage) : Type 0 where
  pub withdrawn : All Wire.IsSendable m.withdrawn_routes
  pub attributes : AttrRoundTrip.IsSendable m.path_attributes
  pub announced : All Wire.IsSendable m.nlri
  pub fits :
      4
        + length (encode_all m.withdrawn_routes)
        + length (attr_bytes o m)
        + length (encode_all m.nlri)
      ≤ max_body_len

abbrev body_of : List ℕ → List ℕ → List ℕ → List ℕ
body_of w a n = bytes16 (length w) ++ (w ++ (bytes16 (length a) ++ (a ++ n)))

compose_lem :
    (w a n : List ℕ)
    → 4 + length w + length a + length n ≤ max_body_len
    → compose listed w a n
      ≡ Header.serialize listed (Header.new update (length (body_of w a n))) [] ++ body_of w a n
unfolding compose
compose_lem w a n h =
    let lw : u16 (length w) ≡ length w = omega arith in
    let la : u16 (length a) ≡ length a = omega arith in
    let l : 2 + length w + 2 + length a + length n ≡ length (body_of w a n) =
      omega (arith, length-append w (bytes16 (length a) ++ (a ++ n)), length-append a n) in
    rw (lw, la, l) (simp append_assoc)

listed-serialize :
    (m : UpdateMessage)
    → IsSendable listed m
    → Update.serialize listed m
      ≡ some
          (compose listed (encode_all m.withdrawn_routes) (attr_bytes listed m) (encode_all m.nlri))
unfolding Update.serialize
listed-serialize m s =
    let a : List ℕ = attr_bytes listed m in
    ap
      (λ r. elim r [
        | none ↦ none
        | some w ↦ elim (serialize_all listed m.nlri []) [
          | none ↦ none
          | some n ↦ some (compose listed w a n)
        ]
      ])
      (serialize_all_lem m.withdrawn_routes [] s.withdrawn)
    ∙ ap
        (λ r. elim r [
          | none ↦ none
          | some n ↦ some (compose listed (encode_all m.withdrawn_routes) a n)
        ])
        (serialize_all_lem m.nlri [] s.announced)

parse_rest-encode :
    (describe : AttrError → String) (m : UpdateMessage)
    → IsSendable listed m
    → parse_rest listed describe m.withdrawn_routes
        (bytes16 (length (attr_bytes listed m)) ++ (attr_bytes listed m ++ encode_all m.nlri))
      ≡ ok m
unfolding parse_rest
parse_rest-encode describe m s =
    let a : List ℕ = attr_bytes listed m in
    let n : List ℕ = encode_all m.nlri in
    let e : be16 (length a / 256) (length a % 256) ≡ length a = omega arith in
    rw
      (
        Listed.copy_to_bytes_front a n (be16 (length a / 256) (length a % 256)) (sym e),
        le→ltb (length (a ++ n)) (be16 (length a / 256) (length a % 256))
            (omega (arith, length-append a n)),
        listed-parse-serialize m.path_attributes s.attributes,
        parse_all-encode (length n) m.nlri s.announced (omega arith),
      )
      refl

listed-parse :
    (describe : AttrError → String) (m : UpdateMessage)
    → IsSendable listed m
    → Update.parse listed describe
        (body_of (encode_all m.withdrawn_routes) (attr_bytes listed m) (encode_all m.nlri))
      ≡ ok m
listed-parse describe m s =
    let w : List ℕ = encode_all m.withdrawn_routes in
    let t : List ℕ =
      bytes16 (length (attr_bytes listed m)) ++ (attr_bytes listed m ++ encode_all m.nlri) in
    parse-section describe (length w / 256) (length w % 256) w t (omega arith) (omega arith)
    ∙ ap (λ r. r >>= λ routes. parse_rest listed describe routes t)
        (parse_all-encode (length w) m.withdrawn_routes s.withdrawn (omega arith))
    ∙ parse_rest-encode describe m s

listed_delivered :
    (describe : AttrError → String) (m : UpdateMessage)
    → IsSendable listed m
    → (wire : List ℕ) × (Update.serialize listed m ≡ some wire)
      × Delivers listed update wire (λ body. Update.parse listed describe body ≡ ok m)
listed_delivered describe m s =
    let w : List ℕ = encode_all m.withdrawn_routes in
    let a : List ℕ = attr_bytes listed m in
    let n : List ℕ = encode_all m.nlri in
    (
      _,
      listed-serialize m s,
      (
        body_of w a n,
        λ rest. listed_sent update _ (body_of w a n) rest (compose_lem w a n s.fits) (
            omega
              (arith, s.fits, length-append w (bytes16 (length a) ++ (a ++ n)), length-append a n)),
        listed-parse describe m s,
      ),
    )

-- An UPDATE is serialized without a panic, and the receiver gets the same withdrawn routes,
-- attributes and NLRI, in order, if each prefix has a length up to 32, an address of 32 bits and
-- zeros behind the octets that are sent, the body has at most 4077 bytes, and for the attributes:
-- each segment of the AS_PATH has at most 255 AS numbers, each value is shorter than 65536 bytes,
-- and each raw attribute has a flags byte, a type code that no field has, and the extended-length
-- flag exactly if its value is longer than 255 bytes.
pub update_delivered :
    (o : BytesCrate)
    → IsDocumented o
    → (describe : AttrError → String) (m : UpdateMessage) → IsSendable o m
    → (wire : List ℕ) × (Update.serialize o m ≡ some wire)
      × Delivers o update wire (λ body. Update.parse o describe body ≡ ok m)
update_delivered o d describe m =
    for_documented
      (λ c.
        IsSendable c m
        → (wire : List ℕ) × (Update.serialize c m ≡ some wire)
          × Delivers c update wire (λ body. Update.parse c describe body ≡ ok m))
      o d (listed_delivered describe m)
