-- ===== src/Protocol/Server/Requests.antt =====
-- What the server does for an authorized request, against the description `perform`.
use slush.Base.{
  ℕ, ◌≤◌, ◌<◌, Bool, true, false, some, [], ◌∷◌, ◌++◌, ◌≡◌, refl, ap, ◌∙◌, arith, length, Result,
  ok, err, ltb, le→not_ltb, length-append, take-length_append, drop-length_append, append_assoc,
}
use slush.Protocol.Desktop.{Desktop}
use slush.Protocol.Header.Accepts.{IsRequest, parse_clipboard_header_iff}
use slush.Protocol.Header.{Request, parse_clipboard_header, max_header_line, max_clipboard_payload}
use slush.Protocol.Server.{
  Conn, read_string, read_full, read_payload, answer_operation, execute_clipboard_payload,
  answer_paste, execute_clipboard_request, serve_header, serve_connection, handle,
}
use slush.Text.Compare.{equal_iff, trim_suffix-append}
use slush.Text.Decimal.{itoa}
use slush.Text.Fields.{fields}
use slush.Text.{Bytes, codes, equal, has_byte}

pub read_string-line :
    (line rest : Bytes)
    → has_byte line b'\n' ≡ false
    → read_string (line ++ b'\n' ∷ rest) ≡ some (line ++ b'\n' ∷ [], rest)
unfolding read_string
read_string-line [] rest h = refl
read_string-line (c ∷ line) rest h = ground (arith, read_string-line line rest)

pub read_full-append :
    (body rest : Bytes) → read_full (body ++ rest) (length body) ≡ some (body, rest)
unfolding read_full
read_full-append body rest =
    let e : ltb (length (body ++ rest)) (length body) ≡ false =
      ground (arith, length-append {0} body rest) in
    rw (e, take-length_append body rest, drop-length_append body rest)

-- A payload that is complete is read whole, and the rest stays.
read_payload-append :
    (body rest : Bytes)
    → length body ≤ max_clipboard_payload
    → read_payload (body ++ rest) (length body) ≡ ok (body, rest)
unfolding read_payload
read_payload-append body rest h =
    rw (le→not_ltb max_clipboard_payload (length body) h, read_payload, read_full-append body rest)

read_payload_short :
    (s : Bytes) (n : ℕ)
    → length s < n
    → n ≤ max_clipboard_payload
    → read_payload s n ≡ err (codes "short payload")
unfolding read_payload read_full
read_payload_short s n h k = ground arith

pub data Verb : Type 0 where
  hello copy paste open_target : Verb

abbrev pub verb_name : Verb → Bytes
verb_name hello = codes "HELLO"
verb_name copy = codes "COPY"
verb_name paste = codes "PASTE"
verb_name open_target = codes "OPEN"

abbrev pub takes_payload : Verb → Bool
takes_payload hello = false
takes_payload copy = true
takes_payload paste = false
takes_payload open_target = true

module _ {W : Type 0} where
  abbrev pub status_reply : W × Result Bytes (Unit {0}) → W × Bytes
  status_reply (w, ok _) = (w, codes "OK\n")
  status_reply (w, err text) = (w, codes "ERR " ++ (text ++ b'\n' ∷ []))

  abbrev pub paste_reply : W × Result Bytes Bytes → W × Bytes
  paste_reply (w, ok body) = (w, codes "OK " ++ (itoa (length body) ++ b'\n' ∷ body))
  paste_reply (w, err text) = (w, codes "ERR " ++ (text ++ b'\n' ∷ []))

  -- What a request means: the effect on the desktop and the reply, with no parsing.
  abbrev pub perform : Desktop W → Verb → Bytes → W → W × Bytes
  perform desktop hello body w = (w, codes "OK slush-clipboard 1\n")
  perform desktop copy body w = status_reply (desktop.copy body w)
  perform desktop paste body w = paste_reply (desktop.paste w)
  perform desktop open_target body w = status_reply (desktop.open_url body w)

  -- The state of the connection and the desktop after the reply.
  abbrev pub replied : Conn → Bytes → W × Bytes → Conn × W
  replied conn rest (w, reply) = (record conn { input = rest; output = conn.output ++ reply }, w)

  answer_operation_lem :
      (conn : Conn) (o : W × Result Bytes (Unit {0}))
      → answer_operation conn o ≡ replied conn conn.input (status_reply o)
  answer_operation_lem conn (w, ok tt) = refl
  answer_operation_lem conn (w, err text) = refl

  answer_paste_lem :
      (conn : Conn) (o : W × Result Bytes Bytes)
      → answer_paste conn o ≡ replied conn conn.input (paste_reply o)
  answer_paste_lem conn (w, ok body) = simp append_assoc
  answer_paste_lem conn (w, err text) = refl

  execute_clipboard_payload_lem :
      (conn : Conn) (operation : Bytes → W → W × Result Bytes (Unit {0})) (body rest : Bytes)
      (w : W)
      → length body ≤ max_clipboard_payload
      → conn.input ≡ body ++ rest
      → execute_clipboard_payload conn (length body) operation w
        ≡ replied conn rest (status_reply (operation body w))
  unfolding execute_clipboard_payload
  execute_clipboard_payload_lem conn operation body rest w h e =
      rw (e, execute_clipboard_payload, read_payload-append body rest h)
        (answer_operation_lem (record conn { input = rest }) (operation body w))

-- An accepted request announces at most 64 MiB, and nothing for a verb that takes no payload.
payload_bounds :
    (v : Verb) (header token : Bytes) (n : ℕ)
    → parse_clipboard_header header ≡ ok (record { verb = verb_name v; token = token; payload = n })
    → (n ≤ max_clipboard_payload) × (takes_payload v ≡ false → n ≡ 0)
payload_bounds v header token n h = bounds v ((parse_clipboard_header_iff header _).0 h)
  where
    bounds :
        (u : Verb)
        → IsRequest (fields header) (record { verb = verb_name u; token = token; payload = n })
        → (n ≤ max_clipboard_payload) × (takes_payload u ≡ false → n ≡ 0)
    bounds hello = ground arith
    bounds copy = ground arith
    bounds paste = ground arith
    bounds open_target = ground arith

nil_of_length : (s : Bytes) → length s ≡ 0 → s ≡ []
nil_of_length [] h = refl
nil_of_length (c ∷ s) h = absurd (omega arith)

abbrev closed_after : {W : Type 0} → Conn × W → Conn × W
closed_after (conn, w) = (record conn { closed = true }, w)

module _ {W : Type 0} (desktop : Desktop W) where
  -- Each verb is dispatched to its operation.
  execute_clipboard_request_lem :
      (v : Verb) (conn : Conn) (body rest : Bytes) (w : W)
      → length body ≤ max_clipboard_payload
      → conn.input ≡ body ++ rest
      → (takes_payload v ≡ false → body ≡ [])
      → execute_clipboard_request desktop conn (verb_name v) (length body) w
        ≡ replied conn rest (perform desktop v body w)
  unfolding execute_clipboard_request equal
  execute_clipboard_request_lem hello conn body rest w h e plain =
      ap (λ s. replied (record conn { input = s }) s (w, codes "OK slush-clipboard 1\n"))
        (e ∙ ap (λ b. b ++ rest) (plain refl))
  execute_clipboard_request_lem copy conn body rest w h e plain =
      execute_clipboard_payload_lem conn desktop.copy body rest w h e
  execute_clipboard_request_lem paste conn body rest w h e plain =
      answer_paste_lem conn (desktop.paste w)
      ∙ ap (λ s. replied conn s (paste_reply (desktop.paste w)))
          (e ∙ ap (λ b. b ++ rest) (plain refl))
  execute_clipboard_request_lem open_target conn body rest w h e plain =
      execute_clipboard_payload_lem conn desktop.open_url body rest w h e

  -- The line is within the bound and its request carries the token.
  serve_header_lem :
      (token header : Bytes) (r : Request) (conn : Conn) (w : W)
      → length header < max_header_line
      → parse_clipboard_header header ≡ ok r
      → r.token ≡ token
      → serve_header desktop token conn (header ++ b'\n' ∷ []) w
        ≡ execute_clipboard_request desktop conn r.verb r.payload w
  unfolding serve_header
  serve_header_lem token header r conn w h parses carries =
      let fits : ltb max_header_line (length (header ++ b'\n' ∷ [])) ≡ false =
        ground (arith, length-append {0} header (b'\n' ∷ [])) in
      let same : equal r.token token ≡ true = (equal_iff r.token token).1 carries in
      rw (fits, serve_header, trim_suffix-append header (codes "\n"), parses, same)

  serve_connection_lem :
      (v : Verb) (token header body rest : Bytes) (conn : Conn) (w : W)
      → has_byte header b'\n' ≡ false
      → length header < max_header_line
      → parse_clipboard_header header
        ≡ ok (record { verb = verb_name v; token = token; payload = length body })
      → conn.input ≡ header ++ b'\n' ∷ (body ++ rest)
      → serve_connection desktop token conn w ≡ replied conn rest (perform desktop v body w)
  unfolding serve_connection
  serve_connection_lem v token header body rest conn w one_line fits parses arrives =
      let (bound, plain) = payload_bounds v header token (length body) parses in
      rw (arrives, serve_connection, read_string-line header (body ++ rest) one_line)
        (serve_header_lem token header _ (record conn { input = body ++ rest }) w fits parses refl
          ∙ execute_clipboard_request_lem v (record conn { input = body ++ rest }) body rest w bound
              refl (λ e. nil_of_length body (plain e)))

  -- A request line of less than 4096 bytes that is accepted and carries the token, with the payload
  -- that it announces, has the effect and the reply that its verb means. Just the request is read,
  -- and the connection is closed.
  pub handle-perform :
      (v : Verb) (token header body rest : Bytes) (conn : Conn) (w : W)
      → has_byte header b'\n' ≡ false
      → length header < max_header_line
      → parse_clipboard_header header
        ≡ ok (record { verb = verb_name v; token = token; payload = length body })
      → conn.input ≡ header ++ b'\n' ∷ (body ++ rest)
      → handle desktop token conn w
        ≡ replied (record conn { closed = true }) rest (perform desktop v body w)
  unfolding handle
  handle-perform v token header body rest conn w one_line fits parses arrives =
      ap closed_after
        (serve_connection_lem v token header body rest conn w one_line fits parses arrives)
