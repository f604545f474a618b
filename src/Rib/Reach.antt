-- ===== src/Rib/Reach.antt =====
-- The states that the RIB of src/rib.rs comes to by its operations, in whatever order.
use pathforge.Base.{
  ℕ, suc, ◌≡◌, inl, inr, refl, ◌∙◌, sym, ap, List, [], ◌∷◌, ◌++◌, map, Option, none, some, Bool,
  true, false, Bool-cases, Option-cases, arith, get, insert, remove, keys, holds,
  insert-HasUniqueKeys, remove-HasUniqueKeys, get-insert_other, get-keys, ◌==◌, if◌then◌else◌,
  Build, and_then,
}
use pathforge.Attr.{PathAttributes}
use pathforge.Message.Prefix.{Prefix}
use pathforge.Rpki.{RpkiValidator, validate}
use pathforge.Rib.{
  put_left, Dampening, Rib, AdjRibIn, decide_all, remove_all, announce_all, process_update,
  remove_peer, mark_peer_stale, remove_stale_for_peer, mark_stale, stale_keys, or_default,
}
use pathforge.Rib.Routes.{Route, PrefixKey, same_key, key_of}
use pathforge.Rib.Selection.{same_key-IsTest, decide_all-adj, number-IsTest}
use pathforge.Rib.Fresh.{fresh_of, offers-insert, offers-remove}
use pathforge.Rib.Upkeep.{IsConsistent, redecide, get-remove_all}

holds-append :
    (ks js : List PrefixKey) (k : PrefixKey)
    → holds same_key (ks ++ js) k ≡ false
    → (holds same_key ks k ≡ false) × (holds same_key js k ≡ false)
holds-append [] js k h = (refl, h)
holds-append (i ∷ ks) js k h = elim (Bool-cases (same_key i k)) [
  | inl t ↦ absurd (ground (arith, h, t))
  | inr f ↦ let (a, b) = holds-append ks js k (rw f at h) in (rw f a, b)
]

get-mark_stale :
    (rib : AdjRibIn) (j : PrefixKey)
    → fresh_of (get same_key j (map mark_stale rib)) ≡ fresh_of (get same_key j rib)
get-mark_stale [] j = refl
get-mark_stale ((k, r) ∷ rib) j = elim (Bool-cases (same_key k j)) [
  | inl t ↦ rw t refl
  | inr f ↦ rw f (get-mark_stale rib j)
]

module _ (d : Dampening) where
  open d use {Table, check_advertisement}

  -- Of the routes that the loop over the NLRI had, those at other keys than it reports are left.
  abbrev Kept : AdjRibIn → Option (Table × AdjRibIn × List PrefixKey) → Type 0
  Kept adj none = Unit {0}
  Kept adj (some (t, after, affected)) =
      (j : PrefixKey)
      → holds same_key affected j ≡ false
      → get same_key j after ≡ get same_key j adj

  Kept-step :
      (left_out : Bool) (key : PrefixKey) (route : Route) (adj : AdjRibIn)
      (r : Option (Table × AdjRibIn × List PrefixKey))
      → Kept (if left_out then adj else insert same_key key route adj) r
      → Kept adj (
          and_then r
            λ (t, after, affected). some (t, after, if left_out then affected else key ∷ affected))
  Kept-step left_out key route adj none k = tt
  Kept-step true key route adj (some (t, after, affected)) k = k
  Kept-step false key route adj (some (t, after, affected)) k = λ j h.
      elim (Bool-cases (same_key key j)) [
        | inl e ↦ absurd (ground (arith, h, e))
        | inr n ↦ k j (rw n at h) ∙ get-insert_other same_key same_key-IsTest key j route adj n
      ]

  announce_all-Kept :
      (build : Build) (rpki : RpkiValidator) (peer peer_as : ℕ) (attrs : PathAttributes)
      (clock : ℕ → ℕ) (i : ℕ) (table : Table) (adj : AdjRibIn) (ps : List Prefix)
      → Kept adj (announce_all d build rpki peer peer_as attrs clock i table adj ps)
  unfolding announce_all
  announce_all-Kept build rpki peer peer_as attrs clock i table adj [] = λ j _. refl
  announce_all-Kept build rpki peer peer_as attrs clock i table adj (p ∷ ps) =
      elim (Option-cases (validate build rpki p.address p.prefix_len peer_as)) [
        | inl e ↦ rw e tt
        | inr (rov, e) ↦ rw e (
            Kept-step _ (key_of p) _ adj _
              (announce_all-Kept build rpki peer peer_as attrs clock (suc i) _ _ ps))
      ]

  abbrev pub EndsConsistent : Option (Rib Table) → Type 0
  EndsConsistent none = Unit {0}
  EndsConsistent (some rib) = IsConsistent d rib

  -- A peer's map is replaced, and the keys at which it changed are decided anew.
  replaced-IsConsistent :
      (rib : Rib Table) (peer : ℕ) (left : AdjRibIn) (table : Table) (ks : List PrefixKey)
      → IsConsistent d rib
      → ((j : PrefixKey)
          → holds same_key ks j ≡ false
          → fresh_of (get same_key j left)
            ≡ fresh_of (get same_key j (or_default (get ◌==◌ peer rib.adj_rib_in))))
      → IsConsistent d (
          decide_all d
            (record rib { adj_rib_in = insert ◌==◌ peer left rib.adj_rib_in; dampening = table })
            ks)
  replaced-IsConsistent rib peer left table ks w kept = record {
    unique =
        rw
          (decide_all-adj d ks
            (record rib { adj_rib_in = insert ◌==◌ peer left rib.adj_rib_in; dampening = table }))
          (insert-HasUniqueKeys ◌==◌ number-IsTest peer left rib.adj_rib_in w.unique);
    decided =
        redecide d rib (insert ◌==◌ peer left rib.adj_rib_in) table ks
          (λ j h. offers-insert j peer left rib.adj_rib_in (kept j h)) w.decided;
  }

  -- A peer's map goes, with the keys that were in it decided anew.
  removed-IsConsistent :
      (rib : Rib Table) (peer : ℕ) (table : Table) (ks : List PrefixKey)
      → IsConsistent d rib
      → ((j : PrefixKey)
          → holds same_key ks j ≡ false
          → get same_key j (or_default (get ◌==◌ peer rib.adj_rib_in)) ≡ none)
      → IsConsistent d (
          decide_all d
            (record rib { adj_rib_in = remove ◌==◌ peer rib.adj_rib_in; dampening = table })
            ks)
  removed-IsConsistent rib peer table ks w gone = record {
    unique =
        rw
          (decide_all-adj d ks
            (record rib { adj_rib_in = remove ◌==◌ peer rib.adj_rib_in; dampening = table }))
          (remove-HasUniqueKeys ◌==◌ peer rib.adj_rib_in w.unique);
    decided =
        redecide d rib (remove ◌==◌ peer rib.adj_rib_in) table ks
          (λ j h. offers-remove j peer rib.adj_rib_in w.unique (gone j h)) w.decided;
  }

  update_step :
      (rib : Rib Table) (peer : ℕ) (gone : List PrefixKey)
      (r : Option (Table × AdjRibIn × List PrefixKey))
      → IsConsistent d rib
      → Kept (or_default (get ◌==◌ peer rib.adj_rib_in)) r
      → EndsConsistent (
          and_then r λ (t, after, affected). some (
            decide_all d
              (record rib {
                dampening = t;
                adj_rib_in = insert ◌==◌ peer (remove_all gone after) rib.adj_rib_in;
              })
              (affected ++ gone)))
  update_step rib peer gone none w k = tt
  update_step rib peer gone (some (t, after, affected)) w k =
      replaced-IsConsistent rib peer (remove_all gone after) t (affected ++ gone) w λ j h.
        let (a, b) = holds-append affected gone j h in
        ap fresh_of (get-remove_all gone after j b ∙ k j a)

  pub process_update-EndsConsistent :
      (build : Build) (clock : ℕ → ℕ) (rib : Rib Table) (peer peer_as : ℕ) (nlri : List Prefix)
      (attrs : PathAttributes) (withdrawn : List Prefix)
      → IsConsistent d rib
      → EndsConsistent (process_update d build clock rib peer peer_as nlri attrs withdrawn)
  unfolding process_update
  process_update-EndsConsistent build clock rib peer peer_as nlri attrs withdrawn w =
      update_step rib peer (map key_of withdrawn) _ w
        (announce_all-Kept build rib.rpki peer peer_as attrs clock 0 _ _ nlri)

  pub remove_peer-IsConsistent :
      (rib : Rib Table) (peer : ℕ) → IsConsistent d rib → IsConsistent d (remove_peer d rib peer).0
  unfolding remove_peer
  remove_peer-IsConsistent rib peer w =
      let adj = or_default (get ◌==◌ peer rib.adj_rib_in) in
      let after =
        removed-IsConsistent rib peer rib.dampening (keys same_key adj) w
          λ j h. get-keys same_key adj j h in
      record { unique = after.unique; decided = after.decided }

  pub mark_found :
      (rib : Rib Table) (peer : ℕ) (found : Option AdjRibIn)
      → get ◌==◌ peer rib.adj_rib_in ≡ found
      → mark_peer_stale d rib peer ≡ elim found as (λ _. Rib Table) [
        | none ↦ rib
        | some adj ↦ record rib {
          adj_rib_in = insert ◌==◌ peer (map mark_stale adj) rib.adj_rib_in;
        }
      ]
  unfolding mark_peer_stale
  mark_found rib peer found e =
      ap
        (λ f. elim f as (λ _. Rib Table) [
          | none ↦ rib
          | some adj ↦ record rib {
            adj_rib_in = insert ◌==◌ peer (map mark_stale adj) rib.adj_rib_in;
          }
        ])
        e

  pub mark_peer_stale-IsConsistent :
      (rib : Rib Table) (peer : ℕ)
      → IsConsistent d rib
      → IsConsistent d (mark_peer_stale d rib peer)
  unfolding decide_all
  mark_peer_stale-IsConsistent rib peer w = elim (Option-cases (get ◌==◌ peer rib.adj_rib_in)) [
    | inl e ↦ rw (mark_found rib peer none e) w
    | inr (adj, e) ↦ rw (mark_found rib peer (some adj) e) (
        replaced-IsConsistent rib peer (map mark_stale adj) rib.dampening [] w
          λ j _. rw e (get-mark_stale adj j))
  ]

  pub purge_found :
      (rib : Rib Table) (peer : ℕ) (found : Option AdjRibIn)
      → get ◌==◌ peer rib.adj_rib_in ≡ found
      → remove_stale_for_peer d rib peer ≡ elim found as (λ _. Rib Table × List PrefixKey) [
        | none ↦ (rib, [])
        | some adj ↦
            let gone = stale_keys adj in
            let adjs = put_left peer (remove_all gone adj) rib.adj_rib_in in
            (decide_all d (record rib { adj_rib_in = adjs }) gone, gone)
      ]
  unfolding remove_stale_for_peer
  purge_found rib peer found e =
      ap
        (λ f. elim f as (λ _. Rib Table × List PrefixKey) [
          | none ↦ (rib, [])
          | some adj ↦
              let gone = stale_keys adj in
              let adjs = put_left peer (remove_all gone adj) rib.adj_rib_in in
              (decide_all d (record rib { adj_rib_in = adjs }) gone, gone)
        ])
        e

  put_left-IsConsistent :
      (rib : Rib Table) (peer : ℕ) (left : AdjRibIn) (ks : List PrefixKey)
      → IsConsistent d rib
      → ((j : PrefixKey)
          → holds same_key ks j ≡ false
          → get same_key j left ≡ get same_key j (or_default (get ◌==◌ peer rib.adj_rib_in)))
      → IsConsistent d
          (decide_all d (record rib { adj_rib_in = put_left peer left rib.adj_rib_in }) ks)
  unfolding put_left
  put_left-IsConsistent rib peer [] ks w kept =
      removed-IsConsistent rib peer rib.dampening ks w λ j h. sym (kept j h)
  put_left-IsConsistent rib peer (r ∷ rs) ks w kept =
      replaced-IsConsistent rib peer (r ∷ rs) rib.dampening ks w λ j h. ap fresh_of (kept j h)

  pub remove_stale_for_peer-IsConsistent :
      (rib : Rib Table) (peer : ℕ)
      → IsConsistent d rib
      → IsConsistent d (remove_stale_for_peer d rib peer).0
  remove_stale_for_peer-IsConsistent rib peer w =
      elim (Option-cases (get ◌==◌ peer rib.adj_rib_in)) [
        | inl e ↦ rw (purge_found rib peer none e) w
        | inr (adj, e) ↦ rw (purge_found rib peer (some adj) e) (
            put_left-IsConsistent rib peer (remove_all (stale_keys adj) adj) (stale_keys adj) w
              λ j h. get-remove_all (stale_keys adj) adj j h ∙ rw e refl)
      ]
