-- ===== src/Message/Notification.antt =====
-- src/message/notification.rs
use pathforge.Base.{ℕ, ◌+◌, List, [], Outcome, ok, ◌>>=◌, ◌>>◌, call, bail_if, ltb, length}
use pathforge.Bytes.{BytesCrate}
use pathforge.Message.{MessageError, too_short, notification}
use pathforge.Message.Header

pub data ErrorCode : Type 0 where
  message_header_error open_message_error update_message_error : ErrorCode
  hold_timer_expired_error finite_state_machine_error cease_error : ErrorCode

-- `error_code as u8`
abbrev pub code : ErrorCode → ℕ
code message_header_error = 1
code open_message_error = 2
code update_message_error = 3
code hold_timer_expired_error = 4
code finite_state_machine_error = 5
code cease_error = 6

pub record NotificationMessage : Type 0 where
  pub error_code : ℕ
  pub error_subcode : ℕ
  pub payload : List ℕ

unfoldable pub new : ErrorCode → ℕ → NotificationMessage
new error_code error_subcode = record {
  error_code = code error_code;
  error_subcode = error_subcode;
  payload = [];
}

unfoldable pub cease : NotificationMessage
unfolding new
cease = new cease_error 0

unfoldable pub hold_timer_expired : NotificationMessage
unfolding new
hold_timer_expired = new hold_timer_expired_error 0

module _ (o : BytesCrate) where
  open o use {remaining, get_u8, copy_to_slice, put_u8, put_slice}

  unfoldable pub parse : List ℕ → Outcome MessageError NotificationMessage
  parse body = do
    bail_if (ltb (remaining body) 2) (too_short 2 (remaining body))
    (error_code, body1) ← call (get_u8 body)
    (error_subcode, body2) ← call (get_u8 body1)
    (payload, _) ← call (copy_to_slice body2 (remaining body2))
    ok (record { error_code = error_code; error_subcode = error_subcode; payload = payload })

  -- Header and body.
  unfoldable pub serialize : NotificationMessage → List ℕ
  serialize m =
      let hdr = Header.new notification (2 + length m.payload) in
      put_slice (put_u8 (put_u8 (Header.serialize o hdr []) m.error_code) m.error_subcode) m.payload
