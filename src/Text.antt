-- ===== src/Text.antt =====
-- What the program uses of Rust's text and its formatting. A text is the list of the code points of
-- its characters.
pub mod Shown
mod Digits
pub mod Parses
mod Communities
pub mod Splits
mod Tests
use Prim.Native.Char.{code}
use Prim.Native.String.{String}
use pathforge.Base.{
  ℕ, zero, suc, ◌+◌, ◌-◌, ◌/◌, ◌%◌, List, [], ◌∷◌, ◌++◌, Bool, ◌&&◌, ◌||◌, ◌==◌, ltb, leb, length,
  replicate, if◌then◌else◌,
}

-- A literal.
unfoldable pub chars : String → List ℕ
chars String.[] = []
chars (String.◌∷◌ c s) = code c ∷ chars s

-- A number in decimal, as `{}` prints it. No number of the program has more than twenty digits.
unfoldable pub show_digits : ℕ → ℕ → List ℕ
show_digits zero n = []
show_digits (suc fuel) n =
    let front = show_digits fuel (n / 10) in
    if ltb n 10 then (48 + n) ∷ [] else front ++ ((48 + n % 10) ∷ [])

unfoldable pub show_number : ℕ → List ℕ
show_number n = show_digits 20 n

-- `Ipv4Addr`'s `Display`
unfoldable pub show_addr : ℕ → List ℕ
show_addr a =
    show_number (a / 16777216)
    ++ 46
      ∷ (show_number (a / 65536 % 256)
          ++ 46 ∷ (show_number (a / 256 % 256) ++ 46 ∷ show_number (a % 256)))

-- `{:<width}` and `{:>width}` of a text or a number
unfoldable pub pad_right : ℕ → List ℕ → List ℕ
pad_right width s = s ++ replicate (width - length s) 32

unfoldable pub pad_left : ℕ → List ℕ → List ℕ
pad_left width s = replicate (width - length s) 32 ++ s

-- `str::repeat` of one character
unfoldable pub repeat : ℕ → ℕ → List ℕ
repeat c n = replicate n c

-- `join`
unfoldable pub join : List ℕ → List (List ℕ) → List ℕ
join sep [] = []
join sep (s ∷ []) = s
join sep (s ∷ t ∷ ts) = s ++ (sep ++ join sep (t ∷ ts))

-- `char::is_whitespace`, the property White_Space of Unicode.
unfoldable pub is_whitespace : ℕ → Bool
is_whitespace c =
    leb 9 c && leb c 13
    || (c == 32
        || (c == 133
            || (c == 160
                || (c == 5760
                    || (leb 8192 c && leb c 8202
                        || (c == 8232
                            || (c == 8233 || (c == 8239 || (c == 8287 || c == 12288)))))))))

-- `str::trim`
unfoldable pub trim_start : List ℕ → List ℕ
trim_start [] = []
trim_start (c ∷ s) = let rest = trim_start s in if is_whitespace c then rest else c ∷ s

abbrev pub keep_char : ℕ → List ℕ → List ℕ
keep_char c [] = if is_whitespace c then [] else c ∷ []
keep_char c (d ∷ s) = c ∷ d ∷ s

unfoldable pub trim_end : List ℕ → List ℕ
trim_end [] = []
trim_end (c ∷ s) = keep_char c (trim_end s)

unfoldable pub trim : List ℕ → List ℕ
trim s = trim_end (trim_start s)

-- `split_whitespace`: a character in front of the words of the rest `s` starts a word of its own
-- where a space or the end is next.
abbrev pub grow_first : ℕ → List (List ℕ) → List (List ℕ)
grow_first c [] = (c ∷ []) ∷ []
grow_first c (w ∷ ws) = (c ∷ w) ∷ ws

abbrev pub add_char : ℕ → List ℕ → List (List ℕ) → List (List ℕ)
add_char c [] ws = (c ∷ []) ∷ ws
add_char c (d ∷ s) ws = if is_whitespace d then (c ∷ []) ∷ ws else grow_first c ws

unfoldable pub split_whitespace : List ℕ → List (List ℕ)
split_whitespace [] = []
split_whitespace (c ∷ s) =
    let rest = split_whitespace s in if is_whitespace c then rest else add_char c s rest
