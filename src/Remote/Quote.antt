-- ===== src/Remote/Quote.antt =====
-- `ShellQuote` of internal/remote/provision.go, and the words that a POSIX shell reads.
pub mod Words
use slush.Base.{
  ℕ, Bool, true, false, ◌&&◌, ◌||◌, Option, none, some, List, [], ◌∷◌, ◌++◌, ◌==◌, leb,
  if◌then◌else◌, any,
}
use slush.Text.{Bytes, codes, has_byte, replace_all}

abbrev pub quote_mark : ℕ
quote_mark = b'\''

unfoldable pub shell_quote : Bytes → Bytes
shell_quote s = quote_mark ∷ (replace_all s (quote_mark ∷ []) (codes "'\\''") ++ quote_mark ∷ [])

-- Characters that stand for themselves outside quotes.
unfoldable pub is_literal : ℕ → Bool
is_literal c =
    (leb b'a' c && leb c b'z')
    || (leb b'A' c && leb c b'Z')
    || (leb b'0' c && leb c b'9')
    || has_byte (codes "_-./:=@%+,") c

abbrev pub append_to : Option Bytes → ℕ → Option Bytes
append_to none c = some (c ∷ [])
append_to (some cur) c = some (cur ++ c ∷ [])

abbrev pub started : Option Bytes → Option Bytes
started none = some []
started (some cur) = some cur

abbrev pub finished : Option Bytes → List Bytes
finished none = []
finished (some cur) = cur ∷ []

pub data Quoting : Type 0 where
  unquoted quoted escaped : Quoting

-- The words of a command line with blanks, single quotes and backslashes, by the rules of POSIX
-- (Shell Command Language, 2.2 and 2.3). The current word is `none` between words. A line with any
-- other special character has no such words.
unfoldable pub words_from : Bytes → Quoting → Option Bytes → List Bytes → Option (List Bytes)
words_from [] unquoted cur done = some (done ++ finished cur)
words_from [] quoted cur done = none
words_from [] escaped cur done = none
words_from (c ∷ s) quoted cur done =
    let leave = words_from s unquoted (started cur) done in
    let stay = words_from s quoted (append_to cur c) done in if c == quote_mark then leave else stay
words_from (c ∷ s) escaped cur done =
    let next = words_from s unquoted (append_to cur c) done in if c == b'\n' then none else next
words_from (c ∷ s) unquoted cur done =
    let blank = words_from s unquoted none (done ++ finished cur) in
    let enter = words_from s quoted (started cur) done in
    let escape = words_from s escaped (started cur) done in
    let literal = words_from s unquoted (append_to cur c) done in
    if c == b' '
    then blank
    else if c == quote_mark
    then enter
    else if c == b'\\'
    then escape
    else if is_literal c
    then literal
    else none

unfoldable pub shell_words : Bytes → Option (List Bytes)
shell_words line = words_from line unquoted none []
