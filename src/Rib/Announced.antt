-- ===== src/Rib/Announced.antt =====
-- What an UPDATE does to the routes that src/rib.rs has of the peer, prefix by prefix.
use pathforge.Base.{
  ◌==◌, ℕ, ◌≡◌, ◌⊎◌, List, [], ◌∷◌, ◌++◌, Option, some, Bool, true, false, if◌then◌else◌, All,
  IsU32, Build, get, insert,
}
use pathforge.Attr.{PathAttributes}
use pathforge.Message.Prefix.{Prefix}
use pathforge.Rib.{or_default, Rib, Dampening, AdjRibIn, announce_all}
use pathforge.Rib.Routes
use pathforge.Rib.Routes.{Route, PrefixKey, key_of, same_key}
use pathforge.Rpki.{RpkiValidator, RovState, validate, strict, invalid}
use pathforge.Rpki.Origin.{IsUsual}

-- No prefix of a list has the key.
abbrev pub NoneHas : PrefixKey → List Prefix → Type 0
NoneHas key ps = All (λ q. same_key (key_of q) key ≡ false) ps

abbrev pub HasAddress : Prefix → Type 0
HasAddress q = IsU32 q.address

-- The validation rejects what is invalid, if its mode is strict.
abbrev pub IsRejected : RpkiValidator → RovState → Type 0
IsRejected rpki rov = (rpki.mode ≡ strict) × (rov ≡ invalid)

abbrev Judges : Bool → Type 0 → Type 0
Judges b P = ((b ≡ true) × P) ⊎ ((b ≡ false) × (¬ P))

module _ (d : Dampening) where
  open d use {Table, check_advertisement}

  -- The dampening table once it was asked about some prefixes.
  abbrev pub asked : Table → ℕ → List Prefix → Table
  asked table peer [] = table
  asked table peer (q ∷ qs) = asked (check_advertisement table peer (key_of q)).1 peer qs

  -- What becomes of an entry when its prefix is announced: the new route is taken if neither the
  -- dampening table holds it back nor the validation rejects it; else the entry stays.
  abbrev pub IsAnnounced :
      RpkiValidator → RovState → Bool → Route → Option Route → Option Route → Type 0
  IsAnnounced rpki rov suppressed route old new =
      ((suppressed ≡ false)
        × (¬ IsRejected rpki rov)
        × (new ≡ some (record route { rov_state = rov })))
      ⊎ (((suppressed ≡ true) ⊎ IsRejected rpki rov) × (new ≡ old))

  -- The entries after a prefix was looked at.
  abbrev put_unless : Bool → PrefixKey → Route → AdjRibIn → AdjRibIn
  put_unless left_out key route adj = if left_out then adj else insert same_key key route adj

  module _ (build : Build) (rpki : RpkiValidator) (usual : All IsUsual rpki.roas) (peer peer_as : ℕ)
      (attrs : PathAttributes) (clock : ℕ → ℕ) where
    -- Prefixes with other keys are taken or left out, and the entry stays.
    abbrev Passes : ℕ → Table → AdjRibIn → List Prefix → PrefixKey → Type 0
    Passes i table adj ps key =
        (t : Table) × (a : AdjRibIn) × (ks : List PrefixKey) × (announce_all d build rpki peer
            peer_as attrs clock i table adj ps
          ≡ some (t, a, ks))
        × (get same_key key a ≡ get same_key key adj)

    -- What the loop leaves at the key of a prefix, whose route is made at the reading `j`.
    abbrev Leaves : ℕ → ℕ → Table → AdjRibIn → List Prefix → Prefix → List Prefix → Type 0
    Leaves i j table adj before p behind =
        (t : Table) × (a : AdjRibIn) × (ks : List PrefixKey) × (announce_all d build rpki peer
            peer_as attrs clock i table adj (before ++ (p ∷ behind))
          ≡ some (t, a, ks))
        × ((rov : RovState) × (validate build rpki p.address p.prefix_len peer_as ≡ some rov)
            × IsAnnounced rpki rov (check_advertisement (asked table peer before) peer (key_of p)).0
                (Routes.new p attrs peer peer_as (clock j)) (get same_key (key_of p) adj)
                (get same_key (key_of p) a))

  -- The routes that a RIB has of a peer, at a key.
  abbrev pub route_of : Rib Table → ℕ → PrefixKey → Option Route
  route_of rib peer key = get same_key key (or_default (get ◌==◌ peer rib.adj_rib_in))
