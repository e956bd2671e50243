-- ===== src/Protocol/Header.antt =====
-- The request line of internal/protocol/server.go: "SLUSH1 <token> <VERB> [<nbytes>]".
pub mod Accepts
pub mod Errors
use slush.Base.{
  ℕ, ◌*◌, ◌^◌, Bool, true, false, not, ◌&&◌, Option, none, some, List, [], ◌∷◌, ◌==◌, ltb, leb,
  if◌then◌else◌, length, get_or, Result, ok, err, ◌>>=◌, ◌>>◌, refuse_if,
}
use slush.Base.Int.{ℤ, pos, negsuc}
use slush.Text.Decimal.{atoi}
use slush.Text.Fields.{fields}
use slush.Text.{Bytes, codes, equal, one_of}

abbrev pub clipboard_magic : Bytes
clipboard_magic = codes "SLUSH1"

abbrev pub clipboard_version : Bytes
clipboard_version = codes "1"

abbrev pub max_header_line : ℕ
max_header_line = 4096

-- 64 << 20
abbrev pub max_clipboard_payload : ℕ
max_clipboard_payload = 64 * 2 ^ 20

pub record Request : Type 0 where
  pub verb : Bytes
  pub token : Bytes
  pub payload : ℕ

unfoldable pub clipboard_verb_has_payload : Bytes → Bool
clipboard_verb_has_payload verb = one_of (codes "COPY" ∷ codes "OPEN" ∷ []) verb

abbrev pub has_clipboard_header_shape : List Bytes → Bool → Bool
has_clipboard_header_shape fs want_length = if want_length then length fs == 4 else length fs == 3

abbrev pub valid_clipboard_payload_length : ℤ → Bool
valid_clipboard_payload_length (negsuc n) = false
valid_clipboard_payload_length (pos n) = leb n max_clipboard_payload

-- A length that has passed the test is not negative.
abbrev pub checked_length : Option ℤ → Result Bytes ℕ
checked_length none = err (codes "bad length")
checked_length (some (negsuc n)) = err (codes "bad length")
checked_length (some (pos n)) =
    if valid_clipboard_payload_length (pos n) then ok n else err (codes "bad length")

unfoldable pub clipboard_header_payload_length : Bytes → List Bytes → Result Bytes ℕ
clipboard_header_payload_length verb fs =
    let want_length = clipboard_verb_has_payload verb in
    if not (has_clipboard_header_shape fs want_length)
    then err (codes "malformed header")
    else if want_length
    then checked_length (atoi (get_or fs 3 []))
    else ok 0

abbrev pub known_verbs : List Bytes
known_verbs = codes "HELLO" ∷ codes "COPY" ∷ codes "PASTE" ∷ codes "OPEN" ∷ []

-- The checks on the fields of the line, in the order of the source.
unfoldable pub request_of_fields : List Bytes → Result Bytes Request
request_of_fields fs = do
  refuse_if (ltb (length fs) 3) (codes "malformed header")
  refuse_if (not (equal (get_or fs 0 []) clipboard_magic)) (codes "unknown protocol")
  let verb = get_or fs 2 []
  payload ← clipboard_header_payload_length verb fs
  refuse_if (not (one_of known_verbs verb)) (codes "unknown verb")
  ok (record { verb = verb; token = get_or fs 1 []; payload = payload })

unfoldable pub parse_clipboard_header : Bytes → Result Bytes Request
parse_clipboard_header line = request_of_fields (fields line)
