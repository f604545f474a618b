-- ===== src/Message/Header.antt =====
-- struct Header of src/message/mod.rs, with new, parse and serialize.
pub mod RoundTrip
use pathforge.Base.{
  ℕ, ◌+◌, ◌≡◌, List, [], ◌∷◌, Bool, true, false, not, ◌&&◌, ◌||◌, Outcome, ok, err, ◌>>=◌, ◌>>◌,
  call, bail_if, ltb, ◌==◌, if◌then◌else◌, u16,
}
use pathforge.Bytes.{BytesCrate}
use pathforge.Message.{
  MessageType, MessageError, too_short, invalid_marker, invalid_length, type_code, try_from, marker,
  header_len, max_message_len,
}

pub record Header : Type 0 where
  -- The value of the length field: the whole message, header included.
  pub total : ℕ
  pub msg_type : MessageType

-- `==` of byte arrays.
abbrev pub bytes_eq : List ℕ → List ℕ → Bool
bytes_eq [] [] = true
bytes_eq (a ∷ s) (b ∷ t) = a == b && bytes_eq s t
bytes_eq _ _ = false

unfoldable pub new : MessageType → ℕ → Header
new msg_type body_len = record { total = u16 (header_len + body_len); msg_type = msg_type }

module _ (o : BytesCrate) where
  open o use {remaining, get_u8, get_u16, copy_to_slice, put_u8, put_u16, put_slice}

  -- A header off the front of the buffer, and what is left of it.
  unfoldable pub parse : List ℕ → Outcome MessageError (Header × List ℕ)
  parse buf = do
    bail_if (ltb (remaining buf) header_len) (too_short header_len (remaining buf))
    (found, buf1) ← call (copy_to_slice buf 16)
    bail_if (not (bytes_eq found marker)) invalid_marker
    (total, buf2) ← call (get_u16 buf1)
    bail_if (ltb total header_len || ltb max_message_len total) (invalid_length total)
    (type_byte, buf3) ← call (get_u8 buf2)
    msg_type ← try_from type_byte
    ok (record { total = total; msg_type = msg_type }, buf3)

  unfoldable pub serialize : Header → List ℕ → List ℕ
  serialize h buf = put_u8 (put_u16 (put_slice buf marker) h.total) (type_code h.msg_type)
