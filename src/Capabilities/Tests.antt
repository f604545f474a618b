-- ===== src/Capabilities/Tests.antt =====
-- The theorems on capabilities at concrete inputs.
use pathforge.Base.{[], ◌∷◌, ◌≡◌, ◌<◌, List, ℕ, length, All, ok, arith}
use pathforge.Capabilities.{
  Capability, multi_protocol, route_refresh, four_octet_asn, graceful_restart, all_bytes, to_bytes,
  value_bytes, parse_optional_params, parse_from_open_params, build_capabilities,
  new_with_capabilities,
}
use pathforge.Capabilities.Walk.{IsParsed, parse_optional_params-IsParsed}
use pathforge.Capabilities.RoundTrip.{IsSendable, parse-build_capabilities}

-- Those that a session announces.
abbrev local_caps : List Capability
local_caps = four_octet_asn 65001 ∷ route_refresh ∷ multi_protocol 1 1 ∷ graceful_restart 120 0 ∷ []

local_caps-IsSendable : All IsSendable local_caps
unfolding IsSendable
local_caps-IsSendable =
    (omega arith, (tt, ((omega arith, omega arith), ((omega arith, omega arith), tt))))

local_caps_fit : length (all_bytes local_caps) < 254
unfolding all_bytes to_bytes value_bytes
local_caps_fit = omega arith

parse_optional_params-IsParsed_example : IsParsed (parse_optional_params (2 ∷ 6 ∷ 65 ∷ 200 ∷ []))
parse_optional_params-IsParsed_example = parse_optional_params-IsParsed (2 ∷ 6 ∷ 65 ∷ 200 ∷ [])

parse-build_capabilities_example :
    (parse_from_open_params (new_with_capabilities 65001 90 1 local_caps).optional_params
      ≡ ok local_caps)
    × ((s : List ℕ) × (build_capabilities local_caps ≡ length s ∷ s)
        × (parse_optional_params s ≡ ok local_caps))
parse-build_capabilities_example =
    parse-build_capabilities 65001 90 1 local_caps local_caps-IsSendable local_caps_fit
