-- ===== src/Text/Splits.antt =====
-- The words of a text.
use pathforge.Base.{
  ◌/◌, ◌%◌, All-append, ℕ, ◌≤◌, ◌≡◌, refl, List, [], ◌∷◌, ◌++◌, true, false, arith, All,
  if◌then◌else◌, ◌∙◌, ap,
}
use pathforge.Text.{show_number, show_addr, is_whitespace, split_whitespace, add_char}
use pathforge.Text.Shown.{show_key}
use pathforge.Rib.Routes.{PrefixKey}
use pathforge.Text.Digits.{IsDigit, show_number-All, show_number-first}

-- Characters none of which is a space.
abbrev pub IsSolid : List ℕ → Type 0
IsSolid s = All (λ c. is_whitespace c ≡ false) s

split_next :
    (c : ℕ) (s : List ℕ)
    → split_whitespace (c ∷ s)
      ≡ (if is_whitespace c then split_whitespace s else add_char c s (split_whitespace s))
unfolding split_whitespace
split_next c s = refl

split_whitespace_nil : split_whitespace [] ≡ []
unfolding split_whitespace
split_whitespace_nil = refl

-- A space in front makes no difference.
pub split_whitespace_space :
    (c : ℕ) (s : List ℕ) → is_whitespace c ≡ true → split_whitespace (c ∷ s) ≡ split_whitespace s
split_whitespace_space c s h = split_next c s ∙ rw h refl

-- A text without a space is its own one word.
pub split_whitespace-IsSolid :
    (c : ℕ) (s : List ℕ) → IsSolid (c ∷ s) → split_whitespace (c ∷ s) ≡ (c ∷ s) ∷ []
split_whitespace-IsSolid c [] h =
    split_next c [] ∙ rw h.0 (ap (λ ws. add_char c [] ws) split_whitespace_nil)
split_whitespace-IsSolid c (d ∷ s) h =
    split_next c (d ∷ s)
    ∙ ap
        (λ b. if b then split_whitespace (d ∷ s) else add_char c (d ∷ s) (split_whitespace (d ∷ s)))
        h.0
    ∙ ap (add_char c (d ∷ s)) (split_whitespace-IsSolid d s h.1)
    ∙ rw h.1.0 refl

-- A word in front of a space.
pub split_whitespace_word :
    (c : ℕ) (s t : List ℕ) (b : ℕ)
    → IsSolid (c ∷ s)
    → is_whitespace b ≡ true
    → split_whitespace (c ∷ (s ++ b ∷ t)) ≡ (c ∷ s) ∷ split_whitespace t
split_whitespace_word c [] t b h e =
    split_next c (b ∷ t)
    ∙ ap
        (λ x. if x then split_whitespace (b ∷ t) else add_char c (b ∷ t) (split_whitespace (b ∷ t)))
        h.0
    ∙ ap (add_char c (b ∷ t)) (split_whitespace_space b t e)
    ∙ rw e refl
split_whitespace_word c (d ∷ s) t b h e =
    let r = d ∷ (s ++ b ∷ t) in
    split_next c r
    ∙ ap (λ x. if x then split_whitespace r else add_char c r (split_whitespace r)) h.0
    ∙ ap (add_char c r) (split_whitespace_word d s t b h.1 e)
    ∙ rw h.1.0 refl

-- The visible characters of ASCII.
visible-IsSolid : (c : ℕ) → 33 ≤ c → c ≤ 126 → is_whitespace c ≡ false
unfolding is_whitespace
visible-IsSolid c h k = ground arith

-- What the program prints of a number, an address and a key has no space in it.
digits-IsSolid : (s : List ℕ) → All IsDigit s → IsSolid s
digits-IsSolid [] d = tt
digits-IsSolid (c ∷ s) d =
    (visible-IsSolid c (omega (arith, d.0)) (omega (arith, d.0)), digits-IsSolid s d.1)

number-IsSolid : (n : ℕ) → IsSolid (show_number n)
number-IsSolid n = digits-IsSolid (show_number n) (show_number-All n)

dotted-IsSolid :
    (c : ℕ) (s t : List ℕ) → is_whitespace c ≡ false → IsSolid s → IsSolid t → IsSolid (s ++ c ∷ t)
dotted-IsSolid c s t e h k = All-append (λ x. is_whitespace x ≡ false) s (c ∷ t) h (e, k)

pub show_key-IsSolid : (k : PrefixKey) → IsSolid (show_key k)
unfolding show_key show_addr
show_key-IsSolid k =
    let dot : is_whitespace 46 ≡ false = visible-IsSolid 46 (omega arith) (omega arith) in
    let slash : is_whitespace 47 ≡ false = visible-IsSolid 47 (omega arith) (omega arith) in
    let a = k.address in
    let low =
      dotted-IsSolid 46 (show_number (a / 256 % 256)) (show_number (a % 256)) dot
        (number-IsSolid (a / 256 % 256)) (number-IsSolid (a % 256)) in
    let mid =
      dotted-IsSolid 46 (show_number (a / 65536 % 256)) _ dot (number-IsSolid (a / 65536 % 256))
        low in
    let addr =
      dotted-IsSolid 46 (show_number (a / 16777216)) _ dot (number-IsSolid (a / 16777216)) mid in
    dotted-IsSolid 47 (show_addr a) (show_number k.prefix_len) slash addr
      (number-IsSolid k.prefix_len)

append_first :
    (x t : List ℕ)
    → ((c : ℕ) × (s : List ℕ) × (x ≡ c ∷ s))
    → (c : ℕ) × (s : List ℕ) × (x ++ t ≡ c ∷ s)
append_first x t (c, s, e) = (c, s ++ t, ap (λ front. front ++ t) e)

show_addr-first : (a : ℕ) → (c : ℕ) × (s : List ℕ) × (show_addr a ≡ c ∷ s)
unfolding show_addr
show_addr-first a =
    let (c, s, e, d) = show_number-first (a / 16777216) in
    append_first (show_number (a / 16777216)) _ (c, s, e)

pub show_key-first : (k : PrefixKey) → (c : ℕ) × (s : List ℕ) × (show_key k ≡ c ∷ s)
unfolding show_key
show_key-first k = append_first (show_addr k.address) _ (show_addr-first k.address)
