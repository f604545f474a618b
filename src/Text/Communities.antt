-- ===== src/Text/Communities.antt =====
-- Communities that are printed are read back.
use pathforge.Base.{
  subst, Bool-cases, inl, inr, ==_iff, and_then, Option, sym, bit_or, bit_or-halves, IsU16, IsU32,
  ◌*◌, ◌+◌, ap, ◌∙◌, ℕ, ◌≡◌, refl, List, [], ◌∷◌, ◌++◌, some, false, arith, ◌==◌, All,
}
use pathforge.Attr.{
  no_export, no_advertise, no_export_subconfed, community_asn, community_value, Community,
}
use pathforge.Text.Shown.{show_community}
use pathforge.Text.{chars, show_number}
use pathforge.Policy.Text.{parse_community_str, parse_uint, split_once}
use pathforge.Text.Digits.{show_number-first, show_number-All, parse_uint-show_number, IsDigit}
use pathforge.Text.Parses.{Lacks, split_once-Lacks}

colon-Lacks : (s : List ℕ) → All IsDigit s → Lacks 58 s
colon-Lacks [] d = tt
colon-Lacks (c ∷ s) d = (ground (arith, d.0), colon-Lacks s d.1)

-- A text that starts with a digit is not the name of a community.
asn_and_value : List ℕ → Option Community
asn_and_value s = and_then (split_once 58 s) λ (asn_str, val_str).
    and_then (parse_uint 65535 asn_str)
      λ asn. and_then (parse_uint 65535 val_str) λ val. some (bit_or (asn * 65536) val)

unnamed : (c : ℕ) (s : List ℕ) → IsDigit c → parse_community_str (c ∷ s) ≡ asn_and_value (c ∷ s)
unfolding parse_community_str asn_and_value
unnamed c s d = let letter : (c == 110) ≡ false = ground (arith, d) in rw letter refl

parse_community_parts :
    (asn value : ℕ)
    → IsU16 asn
    → IsU16 value
    → parse_community_str (show_number asn ++ 58 ∷ show_number value) ≡ some (asn * 65536 + value)
unfolding asn_and_value
parse_community_parts asn value a v =
    let (c, s, e, d) = show_number-first asn in
    let text = λ (front : List ℕ). front ++ 58 ∷ show_number value in
    ap (λ front. parse_community_str (text front)) e
    ∙ unnamed c (s ++ 58 ∷ show_number value) d
    ∙ ap (λ front. asn_and_value (text front)) (sym e)
    ∙ rw
        (
          split_once-Lacks 58 (show_number asn) (show_number value)
              (colon-Lacks (show_number asn) (show_number-All asn)),
          parse_uint-show_number 65535 asn (omega arith) (omega arith),
          parse_uint-show_number 65535 value (omega arith) (omega arith),
        )
        (ap some (bit_or-halves asn value v))

abbrev IsReadBack : Community → Type 0
IsReadBack c = parse_community_str (show_community c) ≡ some c

names-IsReadBack : IsReadBack no_export × (IsReadBack no_advertise × IsReadBack no_export_subconfed)
unfolding parse_community_str show_community chars
names-IsReadBack = (refl, (refl, refl))

show_unnamed :
    (c : Community)
    → (c == no_export) ≡ false
    → (c == no_advertise) ≡ false
    → (c == no_export_subconfed) ≡ false
    → show_community c ≡ show_number (community_asn c) ++ 58 ∷ show_number (community_value c)
unfolding show_community
show_unnamed c x y z = rw (x, y, z) refl

halves_back : (c : Community) → IsU32 c → community_asn c * 65536 + community_value c ≡ c
unfolding community_asn community_value
halves_back c h = omega arith

halves-IsU16 : (c : Community) → IsU16 (community_asn c) × IsU16 (community_value c)
unfolding community_asn community_value
halves-IsU16 c = (omega arith, omega arith)

-- Any community is read back from its text, the well-known ones from their names.
pub parse_community_str-show_community :
    (c : Community) → IsU32 c → parse_community_str (show_community c) ≡ some c
parse_community_str-show_community c h = elim (Bool-cases (c == no_export)) [
  | inl e ↦ subst IsReadBack (sym ((==_iff c no_export).0 e)) names-IsReadBack.0
  | inr x ↦ elim (Bool-cases (c == no_advertise)) [
    | inl e ↦ subst IsReadBack (sym ((==_iff c no_advertise).0 e)) names-IsReadBack.1.0
    | inr y ↦ elim (Bool-cases (c == no_export_subconfed)) [
      | inl e ↦ subst IsReadBack (sym ((==_iff c no_export_subconfed).0 e)) names-IsReadBack.1.1
      | inr z ↦
          let (a, v) = halves-IsU16 c in
          ap parse_community_str (show_unnamed c x y z)
          ∙ parse_community_parts (community_asn c) (community_value c) a v
          ∙ ap some (halves_back c h)
    ]
  ]
]
