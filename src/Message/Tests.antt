-- ===== src/Message/Tests.antt =====
-- Runs of the message parsers over `listed`, and the theorems at concrete inputs.
use pathforge.Base.{◌≤◌, ℕ, ◌≡◌, refl, List, [], ◌∷◌, ◌++◌, ok, arith, Returns, ◌↔◌}
use pathforge.Bytes.{listed, listed-IsDocumented}
use pathforge.Message.{keepalive, open_type, marker, header_len, max_message_len}
use pathforge.Message.Header
use pathforge.Message.Header.{Header}
use pathforge.Message.Header.RoundTrip.{parse_iff}
use pathforge.Message.Frame
use pathforge.Message.Frame.Split.{IsSplit, parse-IsSplit}
use pathforge.Message.Open
use pathforge.Message.Open.{OpenMessage}
use pathforge.Message.Open.Exact.{IsOpenOf, parse-IsOpenOf, open_delivered}
use pathforge.Message.Delivery.{Delivers}

abbrev keepalive_header : Header
keepalive_header = record { total = 19; msg_type = keepalive }

abbrev keepalive_bytes : List ℕ
keepalive_bytes = marker ++ (0 ∷ 19 ∷ 4 ∷ [])

abbrev small_open : OpenMessage
small_open = record {
  version = 4;
  my_as = 65001;
  hold_time = 90;
  bgp_id = 167772161;
  optional_params = record { param_type = 2; value = 65 ∷ 4 ∷ 0 ∷ 0 ∷ 253 ∷ 233 ∷ [] } ∷ [];
}

-- The OPEN of the test suite: 10 bytes of body and one parameter of 8 bytes.
small_open_body :
    Open.serialize_body listed small_open
    ≡ 4 ∷ 253 ∷ 233 ∷ 0 ∷ 90 ∷ 10 ∷ 0 ∷ 0 ∷ 1 ∷ 8 ∷ 2 ∷ 6 ∷ 65 ∷ 4 ∷ 0 ∷ 0 ∷ 253 ∷ 233 ∷ []
unfolding Open.serialize_body
small_open_body = refl

parse_iff_example : (Header.parse listed keepalive_bytes ≡ ok (keepalive_header, [])) ↔ (
    (header_len ≤ keepalive_header.total)
    × (keepalive_header.total ≤ max_message_len)
    × (keepalive_bytes ≡ Header.serialize listed keepalive_header [] ++ []))
parse_iff_example =
    parse_iff listed listed-IsDocumented keepalive_bytes keepalive_header [] (omega arith)

parse-IsSplit_example :
    Returns (IsSplit listed keepalive_bytes) (Frame.parse listed keepalive_bytes)
parse-IsSplit_example = parse-IsSplit listed listed-IsDocumented keepalive_bytes

-- The same with an odd byte that the length counts, and a byte behind.
abbrev odd_open_body : List ℕ
odd_open_body =
    4 ∷ 253 ∷ 233 ∷ 0 ∷ 90 ∷ 10 ∷ 0 ∷ 0 ∷ 1 ∷ 9 ∷ 2 ∷ 6 ∷ 65 ∷ 4 ∷ 0 ∷ 0 ∷ 253 ∷ 233 ∷ 2 ∷ 7 ∷ []

odd_open-parse : Open.parse listed odd_open_body ≡ ok small_open
unfolding Open.parse Open.parse_params Open.read_param Open.sub_len
odd_open-parse = refl

parse-IsOpenOf_example : Returns (IsOpenOf odd_open_body) (Open.parse listed odd_open_body)
parse-IsOpenOf_example = parse-IsOpenOf listed listed-IsDocumented odd_open_body (omega arith)

open_delivered_example :
    Delivers listed open_type
      (Open.serialize listed small_open)
      (λ body. Open.parse listed body ≡ ok small_open)
open_delivered_example = open_delivered listed listed-IsDocumented small_open (omega arith)
