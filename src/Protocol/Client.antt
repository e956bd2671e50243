-- ===== src/Protocol/Client.antt =====
-- The client of internal/protocol/client.go. A call is one exchange with a listener on the loopback
-- address, which the network `net` carries out: it takes the port and the bytes sent.
pub mod Responses
use slush.Base.{
  ℕ, Bool, true, false, not, Option, none, some, List, [], ◌∷◌, ◌++◌, ◌==◌, if◌then◌else◌, length,
  get_or, Result, ok, err, ◌>>=◌,
}
use slush.Base.Int.{ℤ, pos, negsuc}
use slush.Protocol.Header.{clipboard_magic}
use slush.Protocol.Server.{read_string, read_full}
use slush.Text.Decimal.{atoi, itoa}
use slush.Text.Fields.{fields}
use slush.Text.{Bytes, codes, equal, cut_prefix, has_prefix, trim_suffix}

pub data ClientError : Type 0 where
  dial : Bytes → ClientError
  send : Bytes → ClientError
  read_response : ClientError
  read_body : ClientError
  copy_failed : Bytes → ClientError
  paste_failed : Bytes → ClientError

-- How an exchange ends: no connection, a failed write, or the bytes that come back.
pub data Exchange : Type 0 where
  refused : Bytes → Exchange
  broken : Bytes → Exchange
  answered : Bytes → Exchange

abbrev pub Network : Type 0 → Type 0
Network W = ℕ → Bytes → W → W × Exchange

-- A nil payload is `none`.
abbrev pub request_text : Bytes → Bytes → Option Bytes → Bytes
request_text token verb none = clipboard_magic ++ b' ' ∷ (token ++ b' ' ∷ (verb ++ b'\n' ∷ []))
request_text token verb (some payload) =
    clipboard_magic
    ++ b' ' ∷ (token ++ b' ' ∷ (verb ++ b' ' ∷ (itoa (length payload) ++ b'\n' ∷ payload)))

abbrev pub nonnegative : Option ℤ → Option ℕ
nonnegative none = none
nonnegative (some (negsuc n)) = none
nonnegative (some (pos n)) = some n

unfoldable pub payload_length_of_fields : List Bytes → Option ℕ
payload_length_of_fields fs =
    if not (length fs == 2)
    then none
    else if not (equal (get_or fs 0 []) (codes "OK"))
    then none
    else nonnegative (atoi (get_or fs 1 []))

unfoldable pub clipboard_response_payload_length : Bytes → Option ℕ
clipboard_response_payload_length line = payload_length_of_fields (fields line)

-- The status line and the body that it announces; no body is the empty one.
abbrev pub response_body : Bytes → Bytes → Option ℕ → Result ClientError (Bytes × Bytes)
response_body line rest none = ok (line, [])
response_body line rest (some n) = elim (read_full rest n) [
  | none ↦ err read_body
  | some (body, _) ↦ ok (line, body)
]

unfoldable pub read_clipboard_response : Bytes → Result ClientError (Bytes × Bytes)
read_clipboard_response stream = elim (read_string stream) [
  | none ↦ err read_response
  | some (line, rest) ↦
      let status = trim_suffix line (codes "\n") in
      response_body status rest (clipboard_response_payload_length status)
]

abbrev pub exchange_result : Exchange → Result ClientError (Bytes × Bytes)
exchange_result (refused e) = err (dial e)
exchange_result (broken e) = err (send e)
exchange_result (answered stream) = read_clipboard_response stream

-- `serverErrorText`
unfoldable pub server_error_text : Bytes → Bytes
server_error_text status = elim (cut_prefix status (codes "ERR ")) [
  | some rest ↦ rest
  | none ↦ status
]

abbrev pub copied : Bytes × Bytes → Result ClientError (Unit {0})
copied (status, body) =
    if not (equal status (codes "OK")) then err (copy_failed (server_error_text status)) else ok tt

abbrev pub pasted : Bytes × Bytes → Result ClientError Bytes
pasted (status, body) =
    if not (has_prefix status (codes "OK"))
    then err (paste_failed (server_error_text status))
    else ok body

module _ {W : Type 0} (net : Network W) where
  unfoldable pub clipboard_call :
      ℕ → Bytes → Bytes → Option Bytes → W → W × Result ClientError (Bytes × Bytes)
  clipboard_call port token verb payload w =
      let (w', exchange) = net port (request_text token verb payload) w in
      (w', exchange_result exchange)

  unfoldable pub copy : ℕ → Bytes → Option Bytes → W → W × Result ClientError (Unit {0})
  unfolding clipboard_call
  copy port token payload w =
      let (w', response) = clipboard_call port token (codes "COPY") payload w in
      (w', response >>= copied)

  unfoldable pub paste : ℕ → Bytes → W → W × Result ClientError Bytes
  unfolding clipboard_call
  paste port token w =
      let (w', response) = clipboard_call port token (codes "PASTE") none w in
      (w', response >>= pasted)
