-- ===== src/Policy/FirstMatch.antt =====
-- PolicyEngine::apply of src/policy.rs: the first entry that matches decides.
use pathforge.Base.{◌≡◌, List, ◌∷◌, Option, none, some, true, false, Build}
use pathforge.Config.{PrefixList, PrefixListEntry, permit}
use pathforge.Message.Prefix.{Prefix}
use pathforge.Policy.{matches_entry}

module _ (build : Build) (prefix : Prefix) where
  -- The first of the entries that matches, no earlier one panicking.
  pub data IsFirst (x : PrefixListEntry) : List PrefixListEntry → Type 0 where
    here :
        {entries : List PrefixListEntry}
        → matches_entry build x prefix ≡ some true
        → IsFirst x (x ∷ entries)
    there :
        {entry : PrefixListEntry} {entries : List PrefixListEntry}
        → matches_entry build entry prefix ≡ some false
        → IsFirst x entries
        → IsFirst x (entry ∷ entries)

  -- An entry that permits is the first to match.
  abbrev pub IsPermitted : List PrefixListEntry → Type 0
  IsPermitted entries = (x : PrefixListEntry) × IsFirst x entries × (x.action ≡ permit)

  -- What a policy says of the prefix: there is no list of its name, or the list found permits.
  abbrev pub IsAccepted : Option PrefixList → Type 0
  IsAccepted none = Unit {0}
  IsAccepted (some l) = IsPermitted l.entries
