-- ===== src/Policy.antt =====
-- src/policy.rs: prefix lists and community lists. What cannot overflow
-- is written without a panic; `none` is the panic of `is_subnet` on a length above 32.
pub mod Text
pub mod FirstMatch
pub mod Subnet
mod Tests
use pathforge.Base.{
  ℕ, ◌-◌, ◌*◌, ◌≡◌, List, [], ◌∷◌, Option, none, some, Bool, true, false, not, ◌&&◌, ◌||◌, ◌==◌,
  ltb, leb, if◌then◌else◌, and_then, bit_and, holds, Build, sub8, shl32,
}
use pathforge.Attr.{PathAttributes, Community}
use pathforge.Config.{
  PolicyConfig, PrefixList, PrefixListEntry, CommunityList, FilterAction, permit, deny,
}
use pathforge.Message.Header.{bytes_eq}
use pathforge.Message.Prefix.{Prefix}
use pathforge.Policy.Text.{parse_prefix, parse_community_str}

-- `mask` is `!((1u32 << (32 - net_len)) - 1)`.
unfoldable pub is_subnet : Build → ℕ → ℕ → ℕ → ℕ → Option Bool
is_subnet build test_addr test_len net_addr net_len =
    if ltb test_len net_len
    then some false
    else if net_len == 0
    then some true
    else and_then (sub8 build 32 net_len) λ bits. and_then (shl32 build 1 bits) λ bit.
      let mask = 4294967295 - (bit - 1) in some (bit_and net_addr mask == bit_and test_addr mask)

-- `map(..).unwrap_or(true)` on the bounds, and the exact length without any.
abbrev pub at_least : Option ℕ → ℕ → Bool
at_least none len = true
at_least (some ge) len = leb ge len

abbrev pub at_most : Option ℕ → ℕ → Bool
at_most none len = true
at_most (some le) len = leb len le

abbrev pub is_exact : Option ℕ → Option ℕ → ℕ → ℕ → Bool
is_exact none none len net_len = len == net_len
is_exact _ _ len net_len = true

abbrev pub matches_parsed : Build → PrefixListEntry → Prefix → Option (ℕ × ℕ) → Option Bool
matches_parsed build entry prefix none = some false
matches_parsed build entry prefix (some (net_addr, net_len)) =
    let len = prefix.prefix_len in
    and_then (is_subnet build prefix.address len net_addr net_len) λ inside. some (
      inside
      && (at_least entry.ge len
          && (at_most entry.le len && is_exact entry.ge entry.le len net_len)))

unfoldable pub matches_entry : Build → PrefixListEntry → Prefix → Option Bool
matches_entry build entry prefix = matches_parsed build entry prefix (parse_prefix entry.prefix)

abbrev pub is_permit : FilterAction → Bool
is_permit permit = true
is_permit deny = false

unfoldable pub evaluate_prefix_list : Build → List PrefixListEntry → Prefix → Option Bool
evaluate_prefix_list build [] prefix = some false
evaluate_prefix_list build (entry ∷ entries) prefix =
    let rest = evaluate_prefix_list build entries prefix in
    and_then (matches_entry build entry prefix)
      λ hit. if hit then some (is_permit entry.action) else rest

-- `iter().find(..)` by name
unfoldable pub find_list : List ℕ → List PrefixList → Option PrefixList
find_list name [] = none
find_list name (l ∷ ls) = if bytes_eq l.name name then some l else find_list name ls

abbrev pub evaluate_found : Build → Option PrefixList → Prefix → Option Bool
evaluate_found build none prefix = some true
evaluate_found build (some l) prefix = evaluate_prefix_list build l.entries prefix

-- The attributes are passed on and not looked at.
unfoldable pub apply : Build → PolicyConfig → List ℕ → Prefix → PathAttributes → Option Bool
apply build policy policy_name prefix attrs =
    evaluate_found build (find_list policy_name policy.prefix_lists) prefix

-- `Vec::contains` on the community, if the text is one.
abbrev pub has_parsed : PathAttributes → Option Community → Bool
has_parsed attrs none = false
has_parsed attrs (some c) = holds ◌==◌ attrs.communities c

unfoldable pub has_community : PathAttributes → List ℕ → Bool
has_community attrs community_str = has_parsed attrs (parse_community_str community_str)

-- `any`
unfoldable pub has_any : PathAttributes → List (List ℕ) → Bool
has_any attrs [] = false
has_any attrs (c ∷ cs) = has_community attrs c || has_any attrs cs

-- `iter().find(..)` by name, and what is asked of the list.
unfoldable pub any_listed : PathAttributes → List ℕ → List CommunityList → Bool
any_listed attrs name [] = false
any_listed attrs name (l ∷ ls) =
    if bytes_eq l.name name then has_any attrs l.communities else any_listed attrs name ls

unfoldable pub matches_community_list : PolicyConfig → List ℕ → PathAttributes → Bool
matches_community_list policy list_name attrs = any_listed attrs list_name policy.community_lists
