-- ===== src/Rpki.antt =====
-- src/rpki.rs: the table of ROAs and the validation of a route's origin. A call of which the
-- arithmetic overflows panics or wraps with the build; `none` is the panic.
pub mod Origin
mod Tests
use pathforge.Base.{
  and_then, ℕ, ◌≡◌, List, [], ◌∷◌, ◌++◌, Option, none, some, Bool, true, false, ◌&&◌, ◌||◌, ltb,
  ◌==◌, if◌then◌else◌, Build, sub8, shr32, shl32,
}

pub record Roa : Type 0 where
  pub prefix : ℕ
  pub prefix_len : ℕ
  pub max_length : ℕ
  pub origin_as : ℕ

unfoldable pub new_roa : ℕ → ℕ → ℕ → ℕ → Roa
new_roa prefix prefix_len max_length origin_as = record {
  prefix = prefix;
  prefix_len = prefix_len;
  max_length = max_length;
  origin_as = origin_as;
}

pub data RovState : Type 0 where
  valid invalid not_found : RovState

pub data RpkiMode : Type 0 where
  disabled loose strict : RpkiMode

pub record RpkiValidator : Type 0 where
  pub mode : RpkiMode
  pub roas : List Roa

unfoldable pub new : RpkiMode → RpkiValidator
new mode = record { mode = mode; roas = [] }

-- `Vec::push`
unfoldable pub add_roa : RpkiValidator → Roa → RpkiValidator
add_roa v roa = record v { roas = v.roas ++ (roa ∷ []) }

-- `x >> bits << bits`
unfoldable pub network : Build → ℕ → ℕ → Option ℕ
network build x bits = and_then (shr32 build x bits) λ y. shl32 build y bits

unfoldable pub covers : Build → Roa → ℕ → ℕ → Option Bool
covers build roa addr len =
    if ltb len roa.prefix_len || ltb roa.max_length len
    then some false
    else and_then (sub8 build 32 roa.prefix_len) λ bits.
      and_then (network build roa.prefix bits)
        λ roa_net. and_then (network build addr bits) λ addr_net. some (roa_net == addr_net)

-- `filter`: the first panic is the panic of the call.
unfoldable pub covering : Build → List Roa → ℕ → ℕ → Option (List Roa)
covering build [] addr len = some []
covering build (roa ∷ roas) addr len =
    let rest = covering build roas addr len in
    and_then (covers build roa addr len)
      λ hit. and_then rest λ found. some (if hit then roa ∷ found else found)

-- `any(|r| r.origin_as == origin_as)`
unfoldable pub any_origin : List Roa → ℕ → Bool
any_origin [] origin_as = false
any_origin (roa ∷ roas) origin_as = roa.origin_as == origin_as || any_origin roas origin_as

-- From the covering ROAs to the state of the route.
unfoldable pub judge : List Roa → ℕ → RovState
judge [] origin_as = not_found
judge (roa ∷ roas) origin_as = if any_origin (roa ∷ roas) origin_as then valid else invalid

abbrev pub is_disabled : RpkiMode → Bool
is_disabled disabled = true
is_disabled _ = false

unfoldable pub validate : Build → RpkiValidator → ℕ → ℕ → ℕ → Option RovState
validate build v prefix prefix_len origin_as =
    if is_disabled v.mode
    then some not_found
    else and_then (covering build v.roas prefix prefix_len) λ found. some (judge found origin_as)

unfoldable pub should_reject : RpkiValidator → RovState → Bool
should_reject v state = elim v.mode [
  | strict ↦ elim state [ invalid ↦ true | _ ↦ false ]
  | _ ↦ false
]
