-- ===== src/Protocol/Client/Responses.antt =====
-- How the client reads the replies of the server.
use slush.Base.{
  Bool-cases, inl, inr, ℕ, ◌<◌, ◌^◌, none, some, [], ◌∷◌, ◌++◌, ◌≡◌, refl, sym, ap, ◌∙◌, arith,
  ◌==◌, if◌then◌else◌, length, ok, append-nil,
}
use slush.Protocol.Client.{
  payload_length_of_fields, clipboard_response_payload_length, read_clipboard_response,
  server_error_text, response_body,
}
use slush.Protocol.Server.Requests.{read_string-line, read_full-append}
use slush.Protocol.Server.{read_string, read_full}
use slush.Text.Compare.{trim_suffix-append, cut_prefix-append}
use slush.Text.Decimal.Itoa.{atoi-itoa, itoa-IsWord, itoa-lacks}
use slush.Text.Decimal.{itoa}
use slush.Text.Fields.{fields_word, fields_last}
use slush.Text.{Bytes, codes, equal}

abbrev pub first_line : Bytes → Bytes
first_line [] = []
first_line (c ∷ s) = if c == b'\n' then [] else c ∷ first_line s

-- A text is read up to its first newline.
read_string-first_line :
    (text rest : Bytes)
    → (rest' : Bytes) × (read_string (text ++ b'\n' ∷ rest)
        ≡ some (first_line text ++ b'\n' ∷ [], rest'))
unfolding read_string
read_string-first_line [] rest = (rest, refl)
read_string-first_line (c ∷ text) rest =
    let (rest', e) = read_string-first_line text rest in
    elim (Bool-cases (c == b'\n')) [
      | inl newline ↦ (text ++ b'\n' ∷ rest, ground arith)
      | inr other ↦ (rest', ground arith)
    ]

response_length_done : clipboard_response_payload_length (codes "OK") ≡ none
unfolding clipboard_response_payload_length payload_length_of_fields
response_length_done = rw (fields_last (codes "OK") ((omega arith), cc))

response_length_failed :
    (text : Bytes) → clipboard_response_payload_length (codes "ERR " ++ text) ≡ none
unfolding clipboard_response_payload_length payload_length_of_fields equal
response_length_failed text = rw (fields_word (codes "ERR") text ((omega arith), cc)) (ground arith)

response_length_pasted :
    (n : ℕ) → n < 2 ^ 63 → clipboard_response_payload_length (codes "OK " ++ itoa n) ≡ some n
unfolding clipboard_response_payload_length payload_length_of_fields equal
response_length_pasted n h = rw (
  fields_word (codes "OK") (itoa n) ((omega arith), cc),
  fields_last (itoa n) (itoa-IsWord n),
  atoi-itoa n h,
)

read_full_whole : (body : Bytes) → read_full body (length body) ≡ some (body, [])
read_full_whole body =
    ap (λ s. read_full s (length body)) (sym (append-nil body)) ∙ read_full-append body []

-- The client reads "OK" as the status "OK" with no body.
pub read_clipboard_response_done : read_clipboard_response (codes "OK\n") ≡ ok (codes "OK", [])
unfolding read_clipboard_response
read_clipboard_response_done = rw (
  read_string-line (codes "OK") [] refl,
  read_clipboard_response,
  trim_suffix-append (codes "OK") (codes "\n"),
  response_length_done,
)

pub read_clipboard_response_failed :
    (text : Bytes)
    → read_clipboard_response (codes "ERR " ++ (text ++ b'\n' ∷ []))
      ≡ ok (codes "ERR " ++ first_line text, [])
unfolding read_clipboard_response
read_clipboard_response_failed text =
    let (rest, e) = read_string-first_line (codes "ERR " ++ text) [] in
    rw (
      e,
      read_clipboard_response,
      trim_suffix-append (codes "ERR " ++ first_line text) (codes "\n"),
      response_length_failed,
    )

pub read_clipboard_response_pasted :
    (body : Bytes)
    → length body < 2 ^ 63
    → read_clipboard_response (codes "OK " ++ (itoa (length body) ++ b'\n' ∷ body))
      ≡ ok (codes "OK " ++ itoa (length body), body)
unfolding read_clipboard_response
read_clipboard_response_pasted body h =
    let line = codes "OK " ++ itoa (length body) in
    rw
      (
        read_string-line line body (itoa-lacks (length body) b'\n' refl),
        read_clipboard_response,
        trim_suffix-append line (codes "\n"),
        response_length_pasted (length body) h,
      )
      (rw (response_body, read_full_whole body))

pub server_error_text_failed : (text : Bytes) → server_error_text (codes "ERR " ++ text) ≡ text
unfolding server_error_text
server_error_text_failed text = rw (cut_prefix-append (codes "ERR ") text, server_error_text)
