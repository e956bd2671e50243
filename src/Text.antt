-- ===== src/Text.antt =====
-- What the program uses of Go's package strings. A string is the list of its bytes. Separators and
-- the texts to be replaced are never empty in the program.
pub mod Compare
pub mod Fields
pub mod Trim
pub mod Runes
pub mod Decimal
pub mod Address
use Prim.Native.Char.{code}
use Prim.Native.String.{String}
use slush.Base.{
  ℕ, zero, suc, ◌-◌, Bool, true, false, ◌&&◌, ◌||◌, Option, none, some, List, [], ◌∷◌, ◌++◌, ◌==◌,
  if◌then◌else◌, length, take, any,
}

abbrev pub Bytes : Type 0
Bytes = List ℕ

-- The bytes of a literal, which is ASCII throughout.
abbrev pub codes : String → Bytes
codes String.[] = []
codes (String.◌∷◌ c s) = code c ∷ codes s

-- `a == b`
unfoldable pub equal : Bytes → Bytes → Bool
equal [] [] = true
equal (x ∷ a) (y ∷ b) = x == y && equal a b
equal _ _ = false

-- A `switch` on a string with the cases `words`.
unfoldable pub one_of : List Bytes → Bytes → Bool
one_of words s = any (equal s) words

-- `strings.CutPrefix`
unfoldable pub cut_prefix : Bytes → Bytes → Option Bytes
cut_prefix s [] = some s
cut_prefix [] (p ∷ prefix) = none
cut_prefix (c ∷ s) (p ∷ prefix) = elim (c == p) [ true ↦ cut_prefix s prefix | false ↦ none ]

-- `strings.HasPrefix`
unfoldable pub has_prefix : Bytes → Bytes → Bool
has_prefix s [] = true
has_prefix [] (p ∷ prefix) = false
has_prefix (c ∷ s) (p ∷ prefix) = c == p && has_prefix s prefix

-- `strings.HasSuffix`: some tail of the text is the suffix.
unfoldable pub has_suffix : Bytes → Bytes → Bool
unfolding equal
has_suffix [] suffix = equal [] suffix
has_suffix (c ∷ s) suffix = equal (c ∷ s) suffix || has_suffix s suffix

-- `strings.TrimSuffix`
unfoldable pub trim_suffix : Bytes → Bytes → Bytes
unfolding has_suffix
trim_suffix s suffix = if has_suffix s suffix then take (length s - length suffix) s else s

-- `strings.Contains`
unfoldable pub contains : Bytes → Bytes → Bool
unfolding has_prefix
contains [] sub = has_prefix [] sub
contains (c ∷ s) sub = has_prefix (c ∷ s) sub || contains s sub

-- `strings.ContainsAny` and `strings.ContainsRune`, for ASCII characters.
abbrev pub has_byte : Bytes → ℕ → Bool
has_byte s b = any (λ c. c == b) s

abbrev pub contains_any : Bytes → Bytes → Bool
contains_any s chars = any (has_byte chars) s

-- `strings.Cut`: the texts before and after the first separator.
unfoldable pub cut : Bytes → Bytes → Option (Bytes × Bytes)
unfolding cut_prefix
cut [] sep = none
cut (c ∷ s) sep = elim (cut_prefix (c ∷ s) sep) [
  | some rest ↦ some ([], rest)
  | none ↦ elim (cut s sep) [ some (before, after) ↦ some (c ∷ before, after) | none ↦ none ]
]

-- `strings.Split` at a single byte; the current part is `cur`.
unfoldable pub split_onto : Bytes → ℕ → Bytes → List Bytes
split_onto [] sep cur = cur ∷ []
split_onto (c ∷ s) sep cur = elim (c == sep) [
  | true ↦ cur ∷ split_onto s sep []
  | false ↦ split_onto s sep (cur ++ c ∷ [])
]

abbrev pub split : Bytes → ℕ → List Bytes
split s sep = split_onto s sep []

-- `strings.Join`
unfoldable pub join : List Bytes → Bytes → Bytes
join [] sep = []
join (p ∷ []) sep = p
join (p ∷ q ∷ ps) sep = p ++ (sep ++ join (q ∷ ps) sep)

-- `strings.ReplaceAll`. The number counts the bytes of a replaced text that are still to be skipped.
unfoldable pub replace_from : Bytes → Bytes → Bytes → ℕ → Bytes
unfolding has_prefix
replace_from [] old new skip = []
replace_from (c ∷ s) old new (suc skip) = replace_from s old new skip
replace_from (c ∷ s) old new zero = elim (has_prefix (c ∷ s) old) [
  | true ↦ new ++ replace_from s old new (length old - 1)
  | false ↦ c ∷ replace_from s old new 0
]

abbrev pub replace_all : Bytes → Bytes → Bytes → Bytes
replace_all s old new = replace_from s old new 0
