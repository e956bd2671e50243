-- ===== src/Completion/Syntax.antt =====
-- The lines of an SSH configuration: `bufio.Scanner`, `sshConfigFields`, `sshConfigDirective`.
use slush.Base.{
  ℕ, true, false, ◌||◌, Option, none, some, List, [], ◌∷◌, ◌++◌, ◌==◌, ltb, leb, ◌&&◌, ◌+◌,
  if◌then◌else◌, length, ◌≡◌, refl,
}
use slush.Text.Fields.{flush, space_width}
use slush.Text.Runes.{runes, runes_from, rune_width, is_space_rune}
use slush.Text.{Bytes, codes, equal, cut, cut_prefix}

-- `bufio.MaxScanTokenSize`; the buffer also holds the end of the line.
abbrev pub longest_line : ℕ
longest_line = 65535

-- A carriage return before the end of a line is dropped.
unfoldable pub drop_return : Bytes → Bytes
drop_return [] = []
drop_return (c ∷ []) = if c == 13 then [] else c ∷ []
drop_return (c ∷ d ∷ s) = c ∷ drop_return (d ∷ s)

-- A line that is too long ends the scan.
abbrev pub kept_line : Bytes → List Bytes → List Bytes
kept_line line rest = if ltb longest_line (length line) then [] else drop_return line ∷ rest

abbrev pub last_line : Bytes → List Bytes
last_line [] = []
last_line (c ∷ line) = kept_line (c ∷ line) []

unfoldable pub lines_from : Bytes → Bytes → List Bytes
lines_from [] line = last_line line
lines_from (c ∷ s) line = elim (c == 10) [
  | true ↦ kept_line line (lines_from s [])
  | false ↦ lines_from s (line ++ c ∷ [])
]

-- The lines that `bufio.Scanner` gives.
abbrev pub scan_lines : Bytes → List Bytes
scan_lines s = lines_from s []

-- The characters that the switch names, and all others.
pub data Kind : Type 0 where
  comment quotes blank plain : Kind

unfoldable pub kind : Bytes → Kind
kind r =
    if equal r (b'#' ∷ [])
    then comment
    else if equal r (b'"' ∷ []) || equal r (b'\'' ∷ [])
    then quotes
    else if is_space_rune r
    then blank
    else plain

-- The loop over the characters, with the open quote and the current field.
unfoldable pub config_fields_from : List Bytes → Option Bytes → Bytes → Option (List Bytes)
config_fields_from [] none field = some (flush field [])
config_fields_from [] (some quote) field = none
config_fields_from (r ∷ rs) (some quote) field = elim (equal r quote) [
  | true ↦ config_fields_from rs none field
  | false ↦ config_fields_from rs (some quote) (field ++ r)
]
config_fields_from (r ∷ rs) none field = elim (kind r) [
  | comment ↦ some (flush field [])
  | quotes ↦ config_fields_from rs (some r) field
  | blank ↦ elim (config_fields_from rs none []) [
    | none ↦ none
    | some rest ↦ some (flush field rest)
  ]
  | plain ↦ config_fields_from rs none (field ++ r)
]

abbrev pub or_nil : Option (List Bytes) → List Bytes
or_nil none = []
or_nil (some fields) = fields

-- `sshConfigFields`; a quote that stays open takes all fields of the line away.
unfoldable pub ssh_config_fields : Bytes → List Bytes
ssh_config_fields line = or_nil (config_fields_from (runes line) none [])

-- `strings.ToLower`, as far as a keyword can come of it: the ASCII letters, and U+0130, whose lower
-- case is an i. No other character of the two keywords is a lower case of something else.
unfoldable pub to_lower : Bytes → Bytes
to_lower [] = []
to_lower (c ∷ []) = (if leb b'A' c && leb c b'Z' then c + 32 else c) ∷ []
to_lower (c ∷ d ∷ s) = elim (c == 0xc4 && d == 0xb0) [
  | true ↦ b'i' ∷ to_lower s
  | false ↦ (if leb b'A' c && leb c b'Z' then c + 32 else c) ∷ to_lower (d ∷ s)
]

-- The key and the value of a field with an equals sign.
abbrev pub cut_equals : Option (Bytes × Bytes) → Bytes → Bytes × Bytes
cut_equals none field = (field, [])
cut_equals (some (key, value)) field = (key, value)

abbrev pub attached : Option Bytes → Bytes → List Bytes → List Bytes
attached none value values = value ∷ values
attached (some []) value values = values
attached (some (c ∷ rest)) value values = (c ∷ rest) ∷ values

-- The values behind a key without an attached value: one may begin with the equals sign.
abbrev pub spaced_values : List Bytes → List Bytes
spaced_values [] = []
spaced_values (value ∷ values) = attached (cut_prefix value (codes "=")) value values

abbrev pub directive_values : Bytes → List Bytes → List Bytes
directive_values [] values = spaced_values values
directive_values (c ∷ value) values = (c ∷ value) ∷ values

abbrev pub directive_of : Bytes × Bytes → List Bytes → Bytes × List Bytes
directive_of (key, value) values = (to_lower key, directive_values value values)

abbrev pub directive_fields : List Bytes → Bytes × List Bytes
directive_fields [] = ([], [])
directive_fields (field ∷ fields) = directive_of (cut_equals (cut field (codes "=")) field) fields

-- `sshConfigDirective`
unfoldable pub ssh_config_directive : Bytes → Bytes × List Bytes
ssh_config_directive line = directive_fields (ssh_config_fields line)

directives :
    (ssh_config_directive (codes "hOsT = \"lab spaced\" x # y")
      ≡ (codes "host", codes "lab spaced" ∷ codes "x" ∷ []))
    × (ssh_config_directive (codes "Host=\"lab\"") ≡ (codes "host", codes "lab" ∷ []))
    × (ssh_config_directive (codes "Host =lab") ≡ (codes "host", codes "lab" ∷ []))
    × (ssh_config_directive (codes "Host \"open") ≡ ([], []))
unfolding ssh_config_directive ssh_config_fields config_fields_from kind runes_from rune_width equal
    cut cut_prefix to_lower flush space_width
directives = (refl, refl, refl, refl)

lines_test : scan_lines (codes "a\r\n\nb") ≡ codes "a" ∷ [] ∷ codes "b" ∷ []
unfolding lines_from drop_return
lines_test = refl
