-- ===== src/Protocol/Server/Auth.antt =====
-- The session token in `handle` of internal/protocol/server.go.
use slush.Base.{
  ◌≤◌, false, some, [], ◌∷◌, ◌++◌, ◌≡◌, refl, ◌⊎◌, inl, inr, arith, length, ok, Bool-cases,
  Option-cases, Result-cases, ltb,
}
use slush.Protocol.Desktop.{Desktop}
use slush.Protocol.Header.Errors.{parse_clipboard_header-IsLine}
use slush.Protocol.Header.{Request, parse_clipboard_header, max_header_line}
use slush.Protocol.Server.{Conn, read_string, serve_header, serve_connection, handle}
use slush.Text.Compare.{equal_iff}
use slush.Text.{Bytes, codes, equal, has_byte, trim_suffix}

-- The input begins with a request line of at most 4096 bytes that carries the token.
pub record IsAuthorized (token input : Bytes) : Type 0 where
  pub line : Bytes
  pub rest : Bytes
  pub request : Request
  pub arrives : read_string input ≡ some (line, rest)
  pub fits : length line ≤ max_header_line
  pub parses : parse_clipboard_header (trim_suffix line (codes "\n")) ≡ ok request
  pub carries : request.token ≡ token

-- The desktop is as it was, and the reply is an error on one line.
abbrev pub IsRefused : {W : Type 0} → Conn → W → Conn × W → Type 0
IsRefused conn w (conn', w') =
    (w' ≡ w)
    × ((text : Bytes) × (has_byte text b'\n' ≡ false)
        × (conn'.output ≡ conn.output ++ ((codes "ERR " ++ text) ++ b'\n' ∷ [])))

module _ {W : Type 0} (desktop : Desktop W) where
  IsRefused-header :
      (token : Bytes) (conn : Conn) (line : Bytes) (w : W)
      → ((r : Request) × (length line ≤ max_header_line)
          × (parse_clipboard_header (trim_suffix line (codes "\n")) ≡ ok r)
          × (r.token ≡ token))
        ⊎ IsRefused conn w (serve_header desktop token conn line w)
  unfolding serve_header
  IsRefused-header token conn line w = elim (Bool-cases (ltb max_header_line (length line))) [
    | inl long ↦ inr (rw (long, serve_header) (refl, (codes "header too long", refl, refl)))
    | inr short ↦ elim (Result-cases (parse_clipboard_header (trim_suffix line (codes "\n")))) [
      | inr (text, e) ↦ inr (
          rw (short, serve_header, e)
            (refl, (text, parse_clipboard_header-IsLine (trim_suffix line (codes "\n")) e, refl)))
      | inl (r, e) ↦ elim (Bool-cases (equal r.token token)) [
        | inl same ↦ inl (r, ground arith, e, (equal_iff r.token token).0 same)
        | inr differ ↦
            inr (rw (short, serve_header, e, differ) (refl, (codes "unauthorized", refl, refl)))
      ]
    ]
  ]

  -- Unless the input begins with a request line that carries the server's token, the local desktop
  -- is left as it was, and the reply is one line with an error, and nothing else.
  pub handle-IsAuthorized :
      (token : Bytes) (conn : Conn) (w : W)
      → IsAuthorized token conn.input ⊎ IsRefused conn w (handle desktop token conn w)
  unfolding handle serve_connection
  handle-IsAuthorized token conn w = elim (Option-cases (read_string conn.input)) [
    | inl e ↦ inr (rw (e, serve_connection) (refl, (codes "read header", refl, refl)))
    | inr ((line, rest), e) ↦ elim (IsRefused-header token (record conn { input = rest }) line w) [
      | inl (r, fits, parses, carries) ↦ inl (record {
        line = line;
        rest = rest;
        request = r;
        arrives = e;
        fits = fits;
        parses = parses;
        carries = carries;
      })
      | inr refused ↦ inr (rw (e, serve_connection) refused)
    ]
  ]
