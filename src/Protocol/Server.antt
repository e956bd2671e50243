-- ===== src/Protocol/Server.antt =====
-- The connection handler of internal/protocol/server.go. The input of a connection is what arrives
-- before the peer closes it or the deadline passes; a read that wants more than that is an error.
pub mod Auth
pub mod Requests
use slush.Base.{
  ℕ, Bool, true, false, not, Option, none, some, List, [], ◌∷◌, ◌++◌, ◌==◌, ltb, if◌then◌else◌,
  length, take, drop, Result, ok, err,
}
use slush.Protocol.Desktop.{Desktop}
use slush.Protocol.Header.{
  Request, parse_clipboard_header, clipboard_version, max_header_line, max_clipboard_payload,
}
use slush.Text.Decimal.{itoa}
use slush.Text.{Bytes, codes, equal, trim_suffix}

pub record Conn : Type 0 where
  pub input : Bytes
  pub output : Bytes
  pub closed : Bool

-- `bufio.Reader.ReadString('\n')`: the line with its newline, and the rest.
unfoldable pub read_string : Bytes → Option (Bytes × Bytes)
read_string [] = none
read_string (c ∷ s) = elim (c == b'\n') [
  | true ↦ some (c ∷ [], s)
  | false ↦ elim (read_string s) [ some (line, rest) ↦ some (c ∷ line, rest) | none ↦ none ]
]

-- `io.ReadFull` into a slice of `n` bytes.
unfoldable pub read_full : Bytes → ℕ → Option (Bytes × Bytes)
read_full s n = if ltb (length s) n then none else some (take n s, drop n s)

unfoldable pub read_payload : Bytes → ℕ → Result Bytes (Bytes × Bytes)
read_payload s n =
    if ltb max_clipboard_payload n
    then err (codes "bad length")
    else elim (read_full s n) [ none ↦ err (codes "short payload") | some r ↦ ok r ]

-- A failed write is ignored.
abbrev pub write_response : Conn → Bytes → Conn
write_response conn response = record conn { output = conn.output ++ (response ++ b'\n' ∷ []) }

abbrev pub write_error : Conn → Bytes → Conn
write_error conn text = write_response conn (codes "ERR " ++ text)

-- `subtle.ConstantTimeCompare`
abbrev pub constant_time_compare : Bytes → Bytes → ℕ
constant_time_compare a b = if equal a b then 1 else 0

module _ {W : Type 0} where
  abbrev pub answer_operation : Conn → W × Result Bytes (Unit {0}) → Conn × W
  answer_operation conn (w, ok _) = (write_response conn (codes "OK"), w)
  answer_operation conn (w, err text) = (write_error conn text, w)

  unfoldable pub execute_clipboard_payload :
      Conn → ℕ → (Bytes → W → W × Result Bytes (Unit {0})) → W → Conn × W
  execute_clipboard_payload conn n operation w = elim (read_payload conn.input n) [
    | err text ↦ (write_error (record conn { input = [] }) text, w)
    | ok (body, rest) ↦ answer_operation (record conn { input = rest }) (operation body w)
  ]

  abbrev pub answer_paste : Conn → W × Result Bytes Bytes → Conn × W
  answer_paste conn (w, err text) = (write_error conn text, w)
  answer_paste conn (w, ok body) =
      let headed = write_response conn (codes "OK " ++ itoa (length body)) in
      (record headed { output = headed.output ++ body }, w)

module _ {W : Type 0} (desktop : Desktop W) where
  unfoldable pub execute_clipboard_request : Conn → Bytes → ℕ → W → Conn × W
  execute_clipboard_request conn verb n w =
      if equal verb (codes "HELLO")
      then (write_response conn (codes "OK slush-clipboard " ++ clipboard_version), w)
      else if equal verb (codes "COPY")
      then execute_clipboard_payload conn n desktop.copy w
      else if equal verb (codes "PASTE")
      then answer_paste conn (desktop.paste w)
      else if equal verb (codes "OPEN")
      then execute_clipboard_payload conn n desktop.open_url w
      else (write_error conn (codes "unknown verb"), w)

  -- What follows the header line, under the server's token.
  unfoldable pub serve_header : Bytes → Conn → Bytes → W → Conn × W
  serve_header token conn line w =
      if ltb max_header_line (length line)
      then (write_error conn (codes "header too long"), w)
      else elim (parse_clipboard_header (trim_suffix line (codes "\n"))) [
        | err text ↦ (write_error conn text, w)
        | ok request ↦
            if not (constant_time_compare request.token token == 1)
            then (write_error conn (codes "unauthorized"), w)
            else execute_clipboard_request conn request.verb request.payload w
      ]

  unfoldable pub serve_connection : Bytes → Conn → W → Conn × W
  serve_connection token conn w = elim (read_string conn.input) [
    | none ↦ (write_error (record conn { input = [] }) (codes "read header"), w)
    | some (line, rest) ↦ serve_header token (record conn { input = rest }) line w
  ]

  -- The connection is closed on every path.
  unfoldable pub handle : Bytes → Conn → W → Conn × W
  handle token conn w =
      let (served, w') = serve_connection token conn w in (record served { closed = true }, w')
