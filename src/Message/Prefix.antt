-- ===== src/Message/Prefix.antt =====
-- struct Prefix of src/message/update.rs. An Ipv4Addr is the u32 that it converts to and from.
pub mod Wire
use pathforge.Base.{
  ℕ, zero, suc, ◌+◌, ◌/◌, List, [], ◌∷◌, Option, none, some, Outcome, ok, stuck, ◌>>=◌, ◌>>◌, call,
  bail_if, length, take, replicate, ltb, if◌then◌else◌, be32, bytes32,
}
use pathforge.Bytes.{BytesCrate}
use pathforge.Message.{MessageError, too_short}

pub record Prefix : Type 0 where
  pub prefix_len : ℕ
  pub address : ℕ

unfoldable pub new : ℕ → ℕ → Prefix
new address prefix_len = record { prefix_len = prefix_len; address = address }

-- `usize::div_ceil` by 8
abbrev pub octets_for : ℕ → ℕ
octets_for n = (n + 7) / 8

unfoldable pub encoded_len : Prefix → ℕ
encoded_len p = octets_for p.prefix_len

-- `Ipv4Addr::from` of an array of four octets. No other array is given to it.
abbrev pub address_from : List ℕ → ℕ
address_from (a ∷ b ∷ c ∷ d ∷ []) = be32 a b c d
address_from _ = 0

module _ (o : BytesCrate) where
  open o use {remaining, get_u8, put_u8, put_slice}

  -- The array of so many slots, its first `byte_len` slots read off the buffer, the others zero.
  -- It ends where the array or the count ends.
  unfoldable pub fill_array : {E : Type 0} → ℕ → ℕ → List ℕ → Outcome E (List ℕ × List ℕ)
  fill_array zero byte_len buf = ok ([], buf)
  fill_array (suc slots) zero buf = ok (replicate (suc slots) 0, buf)
  fill_array (suc slots) (suc byte_len) buf = do
    (b, buf1) ← call (get_u8 buf)
    (bs, buf2) ← fill_array slots byte_len buf1
    ok (b ∷ bs, buf2)

  unfoldable pub parse : List ℕ → Outcome MessageError (Prefix × List ℕ)
  parse buf = do
    bail_if (ltb (remaining buf) 1) (too_short 1 0)
    (prefix_len, buf1) ← call (get_u8 buf)
    bail_if (ltb (remaining buf1) (octets_for prefix_len))
        (too_short (octets_for prefix_len) (remaining buf1))
    (addr_bytes, buf2) ← fill_array 4 (octets_for prefix_len) buf1
    ok (record { prefix_len = prefix_len; address = address_from addr_bytes }, buf2)

  -- The slice `bytes[..byte_len]` of four octets panics where `byte_len` is larger.
  unfoldable pub serialize : Prefix → List ℕ → Option (List ℕ)
  serialize p buf =
      let buf1 = put_u8 buf p.prefix_len in
      let byte_len = encoded_len p in
      if ltb 4 byte_len then none else some (put_slice buf1 (take byte_len (bytes32 p.address)))

  -- `while buf.remaining() > 0 { push(Prefix::parse(buf)?) }`, a byte at least in a round
  unfoldable pub parse_all : ℕ → List ℕ → Outcome MessageError (List Prefix)
  parse_all zero buf = if ltb 0 (remaining buf) then stuck else ok []
  parse_all (suc fuel) buf =
      let round = do (p, buf1) ← parse buf; more ← parse_all fuel buf1; ok (p ∷ more)
      in if ltb 0 (remaining buf) then round else ok []

  -- `for prefix in … { prefix.serialize(&mut buf) }`
  unfoldable pub serialize_all : List Prefix → List ℕ → Option (List ℕ)
  serialize_all [] buf = some buf
  serialize_all (p ∷ ps) buf = elim (serialize p buf) [
    | none ↦ none
    | some buf1 ↦ serialize_all ps buf1
  ]
