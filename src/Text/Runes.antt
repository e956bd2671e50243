-- ===== src/Text/Runes.antt =====
-- The characters of a text as `range` gives them: each is the list of its bytes in UTF-8, and a byte
-- that begins none becomes U+FFFD.
use slush.Base.{
  ℕ, zero, suc, Bool, true, not, ◌&&◌, ◌||◌, List, [], ◌∷◌, ◌==◌, leb, if◌then◌else◌, take, ◌≡◌,
  refl, map, All,
}
use slush.Text.Fields.{space_width}
use slush.Text.{Bytes}

abbrev pub between : ℕ → ℕ → ℕ → Bool
between lo hi c = leb lo c && leb c hi

abbrev pub is_continuation : ℕ → Bool
is_continuation c = between 0x80 0xbf c

-- The second byte that may follow the first of a character of three or of four bytes.
abbrev pub second_of_three : ℕ → ℕ → Bool
second_of_three c d =
    (c == 0xe0 && between 0xa0 0xbf d)
    || ((c == 0xed && between 0x80 0x9f d)
        || (between 0xe1 0xef c && (not (c == 0xed) && is_continuation d)))

abbrev pub second_of_four : ℕ → ℕ → Bool
second_of_four c d =
    (c == 0xf0 && between 0x90 0xbf d)
    || ((c == 0xf4 && between 0x80 0x8f d) || (between 0xf1 0xf3 c && is_continuation d))

-- The number of bytes of the character at the start, or 0 if there is none.
unfoldable pub rune_width : Bytes → ℕ
rune_width [] = 0
rune_width (c ∷ []) = if leb c 0x7f then 1 else 0
rune_width (c ∷ d ∷ []) =
    if leb c 0x7f then 1 else if between 0xc2 0xdf c && is_continuation d then 2 else 0
rune_width (c ∷ d ∷ e ∷ []) =
    if leb c 0x7f
    then 1
    else if between 0xc2 0xdf c && is_continuation d
    then 2
    else if second_of_three c d && is_continuation e
    then 3
    else 0
rune_width (c ∷ d ∷ e ∷ f ∷ s) =
    if leb c 0x7f
    then 1
    else if between 0xc2 0xdf c && is_continuation d
    then 2
    else if second_of_three c d && is_continuation e
    then 3
    else if second_of_four c d && (is_continuation e && is_continuation f)
    then 4
    else 0

abbrev pub replacement : Bytes
replacement = 0xef ∷ 0xbf ∷ 0xbd ∷ []

-- The number counts the bytes of a character that are still to be passed over.
unfoldable pub runes_from : Bytes → ℕ → List Bytes
runes_from [] skip = []
runes_from (c ∷ s) (suc skip) = runes_from s skip
runes_from (c ∷ s) zero = elim (rune_width (c ∷ s)) [
  | zero ↦ replacement ∷ runes_from s 0
  | suc w ↦ take (suc w) (c ∷ s) ∷ runes_from s w
]

abbrev pub runes : Bytes → List Bytes
runes s = runes_from s 0

-- `unicode.IsSpace`
abbrev pub is_space_rune : Bytes → Bool
is_space_rune r = not (space_width r == 0)

-- Every byte is an ASCII character.
abbrev pub IsAscii : Bytes → Type 0
IsAscii s = All (λ c. leb c 0x7f ≡ true) s

abbrev pub single : ℕ → Bytes
single c = c ∷ []

rune_width-ascii : (c : ℕ) (s : Bytes) → leb c 0x7f ≡ true → rune_width (c ∷ s) ≡ 1
unfolding rune_width
rune_width-ascii c [] h = rw h
rune_width-ascii c (d ∷ []) h = rw h
rune_width-ascii c (d ∷ e ∷ []) h = rw h
rune_width-ascii c (d ∷ e ∷ f ∷ s) h = rw h

-- The characters of an ASCII text are its bytes.
pub runes-IsAscii : (s : Bytes) → IsAscii s → runes s ≡ map single s
unfolding runes_from
runes-IsAscii [] h = refl
runes-IsAscii (c ∷ s) h = rw (rune_width-ascii c s h.0, runes_from, runes-IsAscii s h.1)

decodes :
    runes (b'a' ∷ 0xc3 ∷ 0xa9 ∷ 0xff ∷ 0xe2 ∷ 0x82 ∷ 0xac ∷ 0xe2 ∷ 0x82 ∷ [])
    ≡ (b'a' ∷ [])
      ∷ (0xc3 ∷ 0xa9 ∷ [])
      ∷ replacement
      ∷ (0xe2 ∷ 0x82 ∷ 0xac ∷ [])
      ∷ replacement
      ∷ replacement
      ∷ []
unfolding runes_from rune_width
decodes = refl
