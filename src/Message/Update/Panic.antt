-- ===== src/Message/Update/Panic.antt =====
-- Where UpdateMessage::parse comes back and where it panics.
use pathforge.Message.Update.{MessageError, parse_rest, UpdateMessage}
use Prim.Native.String.{String}
use pathforge.Base.{
  ◌>>=◌, subst, lt→ltb, ltb→lt, map_err, Returns-mono, ◌∙◌, ap, ℕ, ◌+◌, ◌≤◌, ◌<◌, ◌≡◌, ◌⊎◌, inl,
  inr, refl, List, [], ◌∷◌, ◌++◌, Outcome, ok, err, panic, stuck, arith, length, length-append,
  take, drop, ltb, le→ltb, Bool-cases, ComesBack, Returns-bind, be16, sym, split_front,
}
use pathforge.Bytes.{BytesCrate, IsDocumented, listed, for_documented}
use pathforge.Bytes.Listed
use pathforge.Attr.Parse as AttrParse
use pathforge.Attr.Parse.Total.{listed-KeepsUnknown, KeepsUnknown}
use pathforge.Attr.{parse_error, PathAttributes, AttrError}
use pathforge.Message.Prefix.{Prefix, parse_all}
use pathforge.Message.Prefix.Wire.{parse_all-Returns}
use pathforge.Message.Update
use pathforge.Message.{MessageError, parse_error}

-- The body ends before the length of the attributes: a withdrawn section that parses takes all of
-- the body but one byte or none.
pub record IsCutShort (o : BytesCrate) (body : List ℕ) : Type 0 where
  pub hi : ℕ
  pub lo : ℕ
  pub section : List ℕ
  pub tail : List ℕ
  pub routes : List Prefix
  pub body_eq : body ≡ hi ∷ lo ∷ (section ++ tail)
  pub long_enough : 4 ≤ length body
  pub section_len : length section ≡ be16 hi lo
  pub section_parses : parse_all o (length section) section ≡ ok routes
  pub tail_short : length tail < 2

parse_rest-short :
    (describe : AttrError → String) (ps : List Prefix) (tail : List ℕ)
    → length tail < 2
    → parse_rest listed describe ps tail ≡ panic
unfolding parse_rest
parse_rest-short describe ps [] h = refl
parse_rest-short describe ps (x ∷ []) h = refl
parse_rest-short describe ps (x ∷ y ∷ s) h = absurd (omega arith)

map_err-Returns :
    (f : AttrError → MessageError) (a : Outcome AttrError PathAttributes)
    → ComesBack a
    → ComesBack (map_err f a)
map_err-Returns f (ok x) h = tt
map_err-Returns f (err x) h = tt
map_err-Returns f panic h = h
map_err-Returns f stuck h = h

parse_rest-Returns :
    (describe : AttrError → String) (ps : List Prefix) (x y : ℕ) (s : List ℕ)
    → ComesBack (parse_rest listed describe ps (x ∷ y ∷ s))
unfolding parse_rest
parse_rest-Returns describe ps x y s = elim (Bool-cases (ltb (length s) (be16 x y))) [
  | inl short ↦ rw short tt
  | inr fits ↦
      let text : AttrError → MessageError = λ e. parse_error (describe e) in
      let parsed : Outcome AttrError PathAttributes = AttrParse.parse listed (take (be16 x y) s) in
      rw fits (
        Returns-bind (λ _. Unit {0}) (λ (_ : UpdateMessage). Unit {0}) (map_err text parsed) _
          (map_err-Returns text parsed (
            Returns-mono KeepsUnknown _ parsed (listed-KeepsUnknown (take (be16 x y) s)) λ _ _. tt))
          λ a _.
            Returns-bind (λ _. Unit {0}) (λ (_ : UpdateMessage). Unit {0}) _ _
              (parse_all-Returns (length (drop (be16 x y) s)) (drop (be16 x y) s) (omega arith))
              λ _ _. tt)
]

-- The parser up to the withdrawn routes, on a body whose section is there whole.
pub parse-section :
    (describe : AttrError → String) (hi lo : ℕ) (section tail : List ℕ)
    → 2 ≤ length section + length tail
    → length section ≡ be16 hi lo
    → Update.parse listed describe (hi ∷ lo ∷ (section ++ tail))
      ≡ parse_all listed (length section) section >>= λ routes.
          parse_rest listed describe routes tail
unfolding Update.parse
parse-section describe hi lo section tail h l =
    rw
      (
        Listed.copy_to_bytes_front section tail (be16 hi lo) l,
        le→ltb (length (hi ∷ lo ∷ (section ++ tail))) 4 (omega (arith, length-append section tail)),
        le→ltb (length (section ++ tail)) (be16 hi lo) (omega (arith, length-append section tail)),
      )
      refl

listed_cut_short :
    (describe : AttrError → String) (body : List ℕ)
    → IsCutShort listed body
    → Update.parse listed describe body ≡ panic
listed_cut_short describe body c =
    ap (Update.parse listed describe) c.body_eq
    ∙ parse-section describe c.hi c.lo c.section c.tail
        (omega (arith, ap length c.body_eq, length-append c.section c.tail, c.long_enough))
        c.section_len
    ∙ ap (λ r. r >>= λ routes. parse_rest listed describe routes c.tail) c.section_parses
    ∙ parse_rest-short describe c.routes c.tail c.tail_short

section_outcome :
    (describe : AttrError → String) (hi lo : ℕ) (section tail : List ℕ)
    (r : Outcome MessageError (List Prefix))
    → 2 ≤ length section + length tail
    → length section ≡ be16 hi lo
    → ComesBack r
    → parse_all listed (length section) section ≡ r
    → IsCutShort listed (hi ∷ lo ∷ (section ++ tail))
      ⊎ ComesBack (r >>= λ routes. parse_rest listed describe routes tail)
section_outcome describe hi lo section tail (err x) n l h e = inr tt
section_outcome describe hi lo section tail panic n l h e = absurd h
section_outcome describe hi lo section tail stuck n l h e = absurd h
section_outcome describe hi lo section (x ∷ y ∷ tail) (ok ps) n l h e =
    inr (parse_rest-Returns describe ps x y tail)
section_outcome describe hi lo section tail (ok ps) n l h e = inl (record {
  hi = hi;
  lo = lo;
  section = section;
  tail = tail;
  routes = ps;
  body_eq = refl;
  long_enough = omega (arith, length-append section tail);
  section_len = l;
  section_parses = e;
  tail_short = omega arith;
})

-- A body whose withdrawn section is there whole, and one whose section is not.
whole_outcome :
    (describe : AttrError → String) (hi lo : ℕ) (section tail : List ℕ)
    → 2 ≤ length section + length tail
    → length section ≡ be16 hi lo
    → IsCutShort listed (hi ∷ lo ∷ (section ++ tail))
      ⊎ ComesBack (Update.parse listed describe (hi ∷ lo ∷ (section ++ tail)))
whole_outcome describe hi lo section tail n l = rw (parse-section describe hi lo section tail n l) (
    section_outcome describe hi lo section tail _ n l
      (parse_all-Returns (length section) section (omega arith)) refl)

parse-missing :
    (describe : AttrError → String) (hi lo : ℕ) (s : List ℕ)
    → 2 ≤ length s
    → length s < be16 hi lo
    → ComesBack (Update.parse listed describe (hi ∷ lo ∷ s))
unfolding Update.parse
parse-missing describe hi lo s n h =
    rw (le→ltb (length (hi ∷ lo ∷ s)) 4 (omega arith), lt→ltb (length s) (be16 hi lo) h) tt

long_outcome :
    (describe : AttrError → String) (hi lo : ℕ) (s : List ℕ)
    → 2 ≤ length s
    → IsCutShort listed (hi ∷ lo ∷ s) ⊎ ComesBack (Update.parse listed describe (hi ∷ lo ∷ s))
long_outcome describe hi lo s n = elim (Bool-cases (ltb (length s) (be16 hi lo))) [
  | inl short ↦ inr (parse-missing describe hi lo s n (ltb→lt _ _ short))
  | inr fits ↦
      let (w, t, e, l) = split_front (be16 hi lo) s (ground arith) in
      subst
        (λ z.
          IsCutShort listed (hi ∷ lo ∷ z) ⊎ ComesBack (Update.parse listed describe (hi ∷ lo ∷ z)))
        (sym e) (whole_outcome describe hi lo w t (omega (arith, ap length e, length-append w t)) l)
]

listed_outcome :
    (describe : AttrError → String) (body : List ℕ)
    → IsCutShort listed body ⊎ ComesBack (Update.parse listed describe body)
unfolding Update.parse
listed_outcome describe [] = inr tt
listed_outcome describe (a ∷ []) = inr tt
listed_outcome describe (a ∷ b ∷ []) = inr tt
listed_outcome describe (a ∷ b ∷ c ∷ []) = inr tt
listed_outcome describe (a ∷ b ∷ c ∷ d ∷ s) = long_outcome describe a b (c ∷ d ∷ s) (omega arith)

-- A body that is cut short makes the parser panic.
pub cut_short_panics :
    (o : BytesCrate)
    → IsDocumented o
    → (describe : AttrError → String) (body : List ℕ) → IsCutShort o body
    → Update.parse o describe body ≡ panic
cut_short_panics o d describe =
    for_documented (λ c. (body : List ℕ) → IsCutShort c body → Update.parse c describe body ≡ panic)
      o d (listed_cut_short describe)

-- Every body is cut short, or the parser comes back with an error or a message: it panics nowhere
-- else, and its loops end.
pub parse-ComesBack :
    (o : BytesCrate)
    → IsDocumented o
    → (describe : AttrError → String) (body : List ℕ)
    → IsCutShort o body ⊎ ComesBack (Update.parse o describe body)
parse-ComesBack o d describe body =
    for_documented (λ c. IsCutShort c body ⊎ ComesBack (Update.parse c describe body)) o d
      (listed_outcome describe body)
