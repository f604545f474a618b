-- ===== src/Message/Delivery.antt =====
-- What the receiver of a serialized message makes of it: BgpMessage::parse takes the message off the
-- stream, and the parser of its type reads the body. One theorem for each message that has both.
use mathlib.Core.List.{append-nil, append_assoc}
use pathforge.Base.{
  ◌%◌, ◌/◌, sym, ℕ, ◌≤◌, ◌≡◌, refl, ap, ◌∙◌, List, [], ◌∷◌, ◌++◌, some, ok, arith, length,
}
use pathforge.Bytes.{BytesCrate, IsDocumented, listed, for_documented}
use pathforge.Bytes.Listed
use pathforge.Message.{MessageType, notification, keepalive, route_refresh}
use pathforge.Message.Header
use pathforge.Message.Header.{Header}
use pathforge.Message.Frame
use pathforge.Message.Frame.{BgpMessage}
use pathforge.Message.Frame.Split.{listed_whole}
use pathforge.Message.Notification
use pathforge.Message.Notification.{NotificationMessage}
use pathforge.Message.Keepalive
use pathforge.Message.RouteRefresh
use pathforge.Message.RouteRefresh.{RouteRefresh}

-- The longest body that fits a message.
abbrev pub max_body_len : ℕ
max_body_len = 4077

abbrev pub message : MessageType → List ℕ → BgpMessage
message t body = record { header = Header.new t (length body); body = body }

-- `wire` is one message of type `t`, and its body is one of which `P` holds.
abbrev pub Delivers : BytesCrate → MessageType → List ℕ → (List ℕ → Type 0) → Type 0
Delivers o t wire P =
    (body : List ℕ) × ((rest : List ℕ)
      → Frame.parse o (wire ++ rest) ≡ ok (some (message t body), rest))
    × P body

pub listed_sent :
    (t : MessageType) (wire body rest : List ℕ)
    → wire ≡ Header.serialize listed (Header.new t (length body)) [] ++ body
    → length body ≤ max_body_len
    → Frame.parse listed (wire ++ rest) ≡ ok (some (message t body), rest)
listed_sent t wire body rest e fits =
    ap (λ s. Frame.parse listed s) (ap (λ w. w ++ rest) e ∙ append_assoc _ body rest)
    ∙ listed_whole (Header.new t (length body)) body rest (unfold Header.new in omega arith)

listed_notification :
    (m : NotificationMessage)
    → length m.payload ≤ 4075
    → Delivers listed notification
        (Notification.serialize listed m)
        (λ body. Notification.parse listed body ≡ ok m)
unfolding Notification.parse
listed_notification m fits =
    let body : List ℕ = m.error_code ∷ m.error_subcode ∷ m.payload in
    (
      body,
      λ rest.
          listed_sent notification _ body rest
            (unfold Notification.serialize Header.serialize Header.new in ground arith)
            (omega arith),
      ground (arith, Listed.copy_to_bytes_all m.payload),
    )

-- A NOTIFICATION with at most 4075 bytes of data comes through whole.
notification_delivered :
    (o : BytesCrate)
    → IsDocumented o
    → (m : NotificationMessage) → length m.payload ≤ 4075
    → Delivers o notification
        (Notification.serialize o m)
        (λ body. Notification.parse o body ≡ ok m)
notification_delivered o d m fits =
    for_documented
      (λ c.
        Delivers c notification (Notification.serialize c m)
          (λ body. Notification.parse c body ≡ ok m))
      o d (listed_notification m fits)

listed_keepalive : Delivers listed keepalive (Keepalive.serialize listed) (λ body. body ≡ [])
listed_keepalive = (
  [],
  λ rest.
      listed_sent keepalive _ [] rest (unfold Keepalive.serialize in sym (append-nil _))
        (omega arith),
  refl,
)

-- A KEEPALIVE comes through as a header with no body.
keepalive_delivered :
    (o : BytesCrate)
    → IsDocumented o
    → Delivers o keepalive (Keepalive.serialize o) (λ body. body ≡ [])
keepalive_delivered o d =
    for_documented (λ c. Delivers c keepalive (Keepalive.serialize c) (λ body. body ≡ [])) o d
      listed_keepalive

listed_route_refresh :
    (m : RouteRefresh)
    → Delivers listed route_refresh
        (RouteRefresh.serialize listed m)
        (λ body. RouteRefresh.parse body ≡ some m)
unfolding RouteRefresh.parse
listed_route_refresh m =
    let body : List ℕ = (m.afi / 256) ∷ (m.afi % 256) ∷ 0 ∷ m.safi ∷ [] in
    (
      body,
      λ rest.
          listed_sent route_refresh _ body rest
            (unfold RouteRefresh.serialize Header.serialize Header.new in refl) (omega arith),
      ground arith,
    )

-- A ROUTE-REFRESH comes through whole; its header, written by hand, is the one of the other
-- messages.
route_refresh_delivered :
    (o : BytesCrate)
    → IsDocumented o
    → (m : RouteRefresh)
    → Delivers o route_refresh
        (RouteRefresh.serialize o m)
        (λ body. RouteRefresh.parse body ≡ some m)
route_refresh_delivered o d m =
    for_documented
      (λ c.
        Delivers c route_refresh (RouteRefresh.serialize c m)
          (λ body. RouteRefresh.parse body ≡ some m))
      o d (listed_route_refresh m)
