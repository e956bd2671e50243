-- ===== src/Completion/Quoted.antt =====
-- Quoted arguments in `sshConfigFields` of internal/command/hosts.go.
use slush.Base.{
  false, none, some, List, [], ◌∷◌, ◌++◌, ◌≡◌, ◌≢◌, refl, sym, ap, ◌∙◌, arith, All, All-append, map,
  append-nil, append_assoc,
}
use slush.Completion.Syntax.{
  kind, config_fields_from, ssh_config_fields, ssh_config_directive, directive_fields, to_lower,
}
use slush.Text.Fields.{flush, space_width}
use slush.Text.Runes.{single, IsAscii, runes-IsAscii}
use slush.Text.{Bytes, codes, equal, cut, cut_prefix, has_byte}

-- The words in double quotes, each before a blank.
abbrev quoted : List Bytes → Bytes
quoted [] = []
quoted (w ∷ ws) = b'"' ∷ (w ++ b'"' ∷ b' ' ∷ quoted ws)

-- What can stand between double quotes: no empty argument is read.
abbrev IsQuotable : Bytes → Type 0
IsQuotable w = IsAscii w × (has_byte w b'"' ≡ false) × (w ≢ [])

quoted-IsAscii : (ws : List Bytes) → All IsQuotable ws → IsAscii (quoted ws)
quoted-IsAscii [] h = tt
quoted-IsAscii (w ∷ ws) h =
    (refl, All-append _ w (b'"' ∷ b' ' ∷ quoted ws) h.0.0 (refl, (refl, quoted-IsAscii ws h.1)))

-- What is quoted is taken over into the field.
inside :
    (w rest field : Bytes)
    → has_byte w b'"' ≡ false
    → config_fields_from (map single (w ++ b'"' ∷ rest)) (some (b'"' ∷ [])) field
      ≡ config_fields_from (map single rest) none (field ++ w)
unfolding config_fields_from equal
inside [] rest field h = ap (config_fields_from (map single rest) none) (sym (append-nil field))
inside (c ∷ w) rest field h =
    let other : equal (c ∷ []) (b'"' ∷ []) ≡ false = ground arith in
    let clear : has_byte w b'"' ≡ false = ground arith in
    rw (other, config_fields_from, inside w rest (field ++ c ∷ []) clear, append_assoc) refl

flush_word : (w : Bytes) (rest : List Bytes) → w ≢ [] → flush w rest ≡ w ∷ rest
unfolding flush
flush_word [] rest h = absurd (h refl)
flush_word (c ∷ w) rest h = refl

quote_opens :
    (s field : Bytes)
    → config_fields_from (map single (b'"' ∷ s)) none field
      ≡ config_fields_from (map single s) (some (b'"' ∷ [])) field
unfolding config_fields_from kind equal
quote_opens s field = refl

blank_ends :
    (s field : Bytes) {words : List Bytes}
    → config_fields_from (map single s) none [] ≡ some words
    → config_fields_from (map single (b' ' ∷ s)) none field ≡ some (flush field words)
unfolding config_fields_from kind equal space_width
blank_ends s field e = rw e refl

quoted_fields :
    (ws : List Bytes)
    → All IsQuotable ws
    → config_fields_from (map single (quoted ws)) none [] ≡ some ws
quoted_fields [] h = unfold config_fields_from flush in refl
quoted_fields (w ∷ ws) h =
    quote_opens (w ++ b'"' ∷ b' ' ∷ quoted ws) []
    ∙ inside w (b' ' ∷ quoted ws) [] h.0.1
    ∙ blank_ends (quoted ws) w (quoted_fields ws h.1)
    ∙ ap some (flush_word w ws h.0.2)

keyword_ends :
    (s : Bytes) {words : List Bytes}
    → config_fields_from (map single s) none [] ≡ some words
    → config_fields_from (map single (codes "Host " ++ s)) none [] ≡ some (codes "Host" ∷ words)
unfolding config_fields_from kind equal space_width flush
keyword_ends s e = rw e refl

host_fields :
    (w : Bytes) (ws : List Bytes)
    → cut_prefix w (codes "=") ≡ none
    → directive_fields (codes "Host" ∷ w ∷ ws) ≡ (codes "host", w ∷ ws)
unfolding to_lower cut
host_fields w ws plain_start = rw plain_start refl

-- A Host line with words in double quotes gives the keyword in lower case and the words as they
-- are. The words are ASCII, not empty and without double quotes, and the first does not begin with
-- an equals sign.
pub host_line-quoted :
    (w : Bytes) (ws : List Bytes)
    → All IsQuotable (w ∷ ws)
    → cut_prefix w (codes "=") ≡ none
    → ssh_config_directive (codes "Host " ++ quoted (w ∷ ws)) ≡ (codes "host", w ∷ ws)
unfolding ssh_config_directive ssh_config_fields
host_line-quoted w ws h plain_start =
    let line = codes "Host " ++ quoted (w ∷ ws) in
    let ascii : IsAscii line = (refl, (refl, (refl, (refl, (refl, quoted-IsAscii (w ∷ ws) h))))) in
    let words = keyword_ends (quoted (w ∷ ws)) (quoted_fields (w ∷ ws) h) in
    rw (runes-IsAscii line ascii, words) (host_fields w ws plain_start)
