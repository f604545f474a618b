-- ===== src/Text/Parses.antt =====
-- Addresses and prefixes that are printed are read back.
use pathforge.Base.{
  IsU32, be32-bytes32, ap, ◌∙◌, ◌/◌, ◌%◌, be32, All-append, IsU8, ℕ, ◌<◌, ◌≡◌, refl, List, [], ◌∷◌,
  ◌++◌, some, true, false, arith, ◌==◌, All,
}
use pathforge.Text.{show_number, show_addr}
use pathforge.Text.Shown.{show_key}
use pathforge.Rib.Routes.{PrefixKey}
use pathforge.Policy.Text.{parse_octet, parse_uint, parse_prefix, parse_addr, split_once}
use pathforge.Text.Digits.{
  parse_octet-show_number, show_number-All, parse_uint-show_number, IsDigit,
}

-- A text that does not have the separator in it is cut off in front of it.
abbrev pub Lacks : ℕ → List ℕ → Type 0
Lacks c s = All (λ x. (x == c) ≡ false) s

pub split_once-Lacks :
    (c : ℕ) (front back : List ℕ)
    → Lacks c front
    → split_once c (front ++ c ∷ back) ≡ some (front, back)
unfolding split_once
split_once-Lacks c [] back h = let e : (c == c) ≡ true = ground arith in rw e refl
split_once-Lacks c (x ∷ front) back h = rw (h.0, split_once-Lacks c front back h.1) refl

digits-Lacks : (c : ℕ) (s : List ℕ) → c < 48 → All IsDigit s → Lacks c s
digits-Lacks c [] h d = tt
digits-Lacks c (x ∷ s) h d = (ground (arith, d.0), digits-Lacks c s h d.1)

number-Lacks : (c n : ℕ) → c < 48 → Lacks c (show_number n)
number-Lacks c n h = digits-Lacks c (show_number n) h (show_number-All n)

parse_addr_parts :
    (x y z w : List ℕ) (a b c d : ℕ)
    → Lacks 46 x
    → Lacks 46 y
    → Lacks 46 z
    → parse_octet x ≡ some a
    → parse_octet y ≡ some b
    → parse_octet z ≡ some c
    → parse_octet w ≡ some d
    → parse_addr (x ++ 46 ∷ (y ++ 46 ∷ (z ++ 46 ∷ w))) ≡ some (be32 a b c d)
unfolding parse_addr
parse_addr_parts x y z w a b c d lx ly lz ea eb ec ed =
    rw
      (
        split_once-Lacks 46 x (y ++ 46 ∷ (z ++ 46 ∷ w)) lx,
        split_once-Lacks 46 y (z ++ 46 ∷ w) ly,
        split_once-Lacks 46 z w lz,
        ea,
        eb,
        ec,
        ed,
      )
      refl

pub parse_addr-show_addr : (a : ℕ) → IsU32 a → parse_addr (show_addr a) ≡ some a
unfolding show_addr
parse_addr-show_addr a h =
    let x = a / 16777216 in
    let y = a / 65536 % 256 in
    let z = a / 256 % 256 in
    let w = a % 256 in
    parse_addr_parts (show_number x) (show_number y) (show_number z) (show_number w) x y z w
      (number-Lacks 46 x (omega arith)) (number-Lacks 46 y (omega arith))
      (number-Lacks 46 z (omega arith)) (parse_octet-show_number x (omega arith))
      (parse_octet-show_number y (omega arith)) (parse_octet-show_number z (omega arith))
      (parse_octet-show_number w (omega arith))
    ∙ ap some (be32-bytes32 a)

addr-Lacks_parts :
    (x y z w : List ℕ)
    → Lacks 47 x
    → Lacks 47 y
    → Lacks 47 z
    → Lacks 47 w
    → Lacks 47 (x ++ 46 ∷ (y ++ 46 ∷ (z ++ 46 ∷ w)))
addr-Lacks_parts x y z w lx ly lz lw =
    let P : ℕ → Type 0 = λ x. (x == 47) ≡ false in
    All-append P x _ lx (refl, All-append P y _ ly (refl, All-append P z _ lz (refl, lw)))

show_addr-Lacks : (a : ℕ) → Lacks 47 (show_addr a)
unfolding show_addr
show_addr-Lacks a =
    addr-Lacks_parts (show_number (a / 16777216)) (show_number (a / 65536 % 256))
      (show_number (a / 256 % 256)) (show_number (a % 256))
      (number-Lacks 47 (a / 16777216) (omega arith))
      (number-Lacks 47 (a / 65536 % 256) (omega arith))
      (number-Lacks 47 (a / 256 % 256) (omega arith)) (number-Lacks 47 (a % 256) (omega arith))

-- The parts of the text of a key.
pub split_once-show_key :
    (k : PrefixKey)
    → split_once 47 (show_key k) ≡ some (show_addr k.address, show_number k.prefix_len)
unfolding show_key
split_once-show_key k =
    split_once-Lacks 47 (show_addr k.address) (show_number k.prefix_len) (show_addr-Lacks k.address)

pub parse_uint-prefix_len : (n : ℕ) → IsU8 n → parse_uint 255 (show_number n) ≡ some n
parse_uint-prefix_len n h = parse_uint-show_number 255 n (omega arith) (omega arith)

-- What the program prints of a key, a policy reads as the key.
pub parse_prefix-show_key :
    (k : PrefixKey)
    → IsU32 k.address
    → IsU8 k.prefix_len
    → parse_prefix (show_key k) ≡ some (k.address, k.prefix_len)
unfolding parse_prefix
parse_prefix-show_key k a l =
    rw
      (
        split_once-show_key k,
        parse_addr-show_addr k.address a,
        parse_uint-prefix_len k.prefix_len l,
      )
      refl
