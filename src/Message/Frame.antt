-- ===== src/Message/Frame.antt =====
-- struct BgpMessage of src/message/mod.rs: one message off a buffer that grows by reads.
pub mod Split
use pathforge.Base.{ℕ, ◌-◌, List, Option, none, some, Outcome, ok, ◌>>=◌, call, ltb, if◌then◌else◌}
use pathforge.Bytes.{BytesCrate}
use pathforge.Message.{MessageError, header_len}
use pathforge.Message.Header
use pathforge.Message.Header.{Header}

pub record BgpMessage : Type 0 where
  pub header : Header
  pub body : List ℕ

module _ (o : BytesCrate) where
  open o use {remaining, copy_to_bytes, advance}

  -- The buffer as the call leaves it, and a message if a whole one is there. The header is read
  -- through a second view, so an error leaves the buffer alone.
  unfoldable pub parse : List ℕ → Outcome MessageError (Option BgpMessage × List ℕ)
  parse buf = if ltb (remaining buf) header_len then ok (none, buf) else do
    (header, peek) ← Header.parse o buf
    if ltb (remaining buf) header.total then ok (none, buf) else do
      buf1 ← call (advance buf header_len)
      (body, buf2) ← call (copy_to_bytes buf1 (header.total - header_len))
      ok (some (record { header = header; body = body }), buf2)
