-- ===== src/Message/Keepalive.antt =====
-- src/message/keepalive.rs: the message is its header, so the struct has no field.
use pathforge.Base.{List, [], ℕ}
use pathforge.Bytes.{BytesCrate}
use pathforge.Message.{keepalive}
use pathforge.Message.Header

unfoldable pub serialize : BytesCrate → List ℕ
serialize o = Header.serialize o (Header.new keepalive 0) []
