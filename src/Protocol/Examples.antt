-- ===== src/Protocol/Examples.antt =====
-- Tests of the protocol, and the theorems at concrete inputs.
use slush.Base.{
  ℕ, ◌<◌, ◌^◌, true, false, none, some, List, [], ◌∷◌, if◌then◌else◌, ◌≡◌, ◌↔◌, ◌⊎◌, refl, arith,
  length, Result, ok, err,
}
use slush.Base.Int.{pos}
use slush.Clipboard
use slush.Clipboard.{darwin, look_command, native_desktop}
use slush.Machine.{Event, looked_up, ran, Machine}
use slush.Protocol.Client
use slush.Protocol.Client.{ClientError}
use slush.Protocol.Desktop.{Desktop}
use slush.Protocol.Header.Accepts.{IsRequest, parse_clipboard_header_iff}
use slush.Protocol.Header.{
  parse_clipboard_header, request_of_fields, clipboard_header_payload_length,
  clipboard_verb_has_payload,
}
use slush.Protocol.Listener.Ports.{IsKernel, HasPort, start_server-HasPort, relisten_lem}
use slush.Protocol.Listener.{
  Listener, Sockets, Server, ServerError, listener_port, split_host_port, listen, close, without,
  listen_bound, start_server, relisten,
}
use slush.Protocol.Loopback.RoundTrip.{
  IsToken, copy_outcome, paste_outcome, copy-loopback, paste-loopback, paste-copy,
}
use slush.Protocol.Loopback.{loopback}
use slush.Protocol.Server.Auth.{IsAuthorized, IsRefused, handle-IsAuthorized}
use slush.Protocol.Server.Requests.{copy, verb_name, perform, replied, handle-perform}
use slush.Protocol.Server.{Conn, handle}
use slush.Protocol.Token.{generate_token, generate_token-IsToken}
use slush.Text.Decimal.{atoi, unsigned, read_digits}
use slush.Text.Fields.{fields, fields_from, space_width, flush}
use slush.Text.{Bytes, codes, equal, one_of, cut, cut_prefix}

-- A desktop that holds the clipboard in memory, and opens no URL.
abbrev memory : Desktop Bytes
memory = record {
  copy = λ body w. (body, ok tt);
  paste = λ w. (w, ok w);
  open_url = λ target w. (w, err (codes "no browser"));
}

abbrev token : Bytes
token = codes "0123456789abcdef"

token-IsToken : IsToken token
token-IsToken = record { word = (omega arith, cc); short = omega arith }

abbrev hello_there : Bytes
hello_there = codes "hello\nthere"

-- What the last run of `pbcopy` was given.
abbrev last_input : List Event → Bytes
last_input [] = []
last_input (ran path args input ∷ log) =
    let earlier = last_input log in if equal path (codes "pbcopy") then input else earlier
last_input (_ ∷ log) = last_input log

abbrev shown : List Event → Event → Bytes
shown log (looked_up name) = name
shown log _ = last_input log

-- A machine with the clipboard tools of macOS.
abbrev mac : Machine
mac = record {
  answer = λ log e. record {
    failure = none;
    exit_code = none;
    stdout = shown log e;
    stderr = [];
    combined = [];
    consumed = 0;
  };
  log = [];
}

abbrev native : Desktop Machine
native = native_desktop darwin false

gives_back : (native.paste (native.copy hello_there mac).0).1 ≡ ok hello_there
unfolding Clipboard.copy Clipboard.paste look_command equal
gives_back = refl

paste-copy_example :
    (Client.paste
      (loopback native 4000 token)
      4000
      token
      (Client.copy (loopback native 4000 token) 4000 token (some hello_there) mac).0).1
    ≡ ok hello_there
paste-copy_example =
    paste-copy native 4000 token hello_there mac token-IsToken gives_back (omega arith)

copy-loopback_example :
    Client.copy (loopback memory 4000 token) 4000 token (some hello_there) []
    ≡ copy_outcome (memory.copy hello_there [])
copy-loopback_example = copy-loopback memory 4000 token token-IsToken hello_there [] (omega arith)

small_paste : (body : Bytes) → (memory.paste hello_there).1 ≡ ok body → length body < 2 ^ 63
small_paste body e = ground arith

paste-loopback_example :
    Client.paste (loopback memory 4000 token) 4000 token hello_there
    ≡ paste_outcome (memory.paste hello_there)
paste-loopback_example = paste-loopback memory 4000 token token-IsToken hello_there small_paste

abbrev request_of : Bytes → Conn
request_of input = record { input = input; output = []; closed = false }

handle-IsAuthorized_example :
    IsAuthorized token (codes "SLUSH1 guess COPY 2\nhi")
    ⊎ IsRefused
        (request_of (codes "SLUSH1 guess COPY 2\nhi"))
        []
        (handle memory token (request_of (codes "SLUSH1 guess COPY 2\nhi")) [])
handle-IsAuthorized_example =
    handle-IsAuthorized memory token (request_of (codes "SLUSH1 guess COPY 2\nhi")) []

abbrev copy_header : Bytes
copy_header = codes "SLUSH1 0123456789abcdef COPY 2"

copy_header_parses :
    parse_clipboard_header copy_header
    ≡ ok (record { verb = verb_name copy; token = token; payload = 2 })
unfolding parse_clipboard_header request_of_fields clipboard_header_payload_length
    clipboard_verb_has_payload one_of equal fields fields_from space_width flush atoi unsigned
    read_digits
copy_header_parses = refl

handle-perform_example :
    handle memory token (request_of (codes "SLUSH1 0123456789abcdef COPY 2\nhi!")) []
    ≡ replied
        (record (request_of []) { closed = true })
        (codes "!")
        (perform memory copy (codes "hi") [])
handle-perform_example =
    handle-perform memory copy token copy_header (codes "hi") (codes "!")
      (request_of (codes "SLUSH1 0123456789abcdef COPY 2\nhi!")) [] refl (omega arith)
      copy_header_parses refl

parse_clipboard_header_iff_example :
    (parse_clipboard_header copy_header
      ≡ ok (record { verb = codes "COPY"; token = token; payload = 2 }))
    ↔ IsRequest (fields copy_header) (record { verb = codes "COPY"; token = token; payload = 2 })
parse_clipboard_header_iff_example =
    parse_clipboard_header_iff copy_header
      (record { verb = codes "COPY"; token = token; payload = 2 })

-- The kernel hands out ports from 4000 on.
abbrev kernel_reply : ℕ → ℕ → Result Bytes Listener
kernel_reply call port = ok (record { descriptor = call; address = codes "127.0.0.1:4007" })

abbrev no_sockets : Sockets
no_sockets = record { reply = kernel_reply; calls = 3; listening = [] }

abbrev first_listener : Listener
first_listener = record { descriptor = 2; address = codes "127.0.0.1:4006" }

abbrev running : Server
running = record { listener = some first_listener; token = token; port = pos 4006 }

abbrev one_socket : Sockets
one_socket = record { reply = kernel_reply; calls = 3; listening = first_listener ∷ [] }

abbrev started_server : Server
started_server = record {
  listener = some (record { descriptor = 3; address = codes "127.0.0.1:4007" });
  token = token;
  port = pos 4007;
}

no_sockets-IsKernel : IsKernel no_sockets 0
no_sockets-IsKernel l e = tt

one_socket-IsKernel : IsKernel one_socket 0
one_socket-IsKernel l e = (ground arith, tt)

starts : (start_server 0 token no_sockets).1 ≡ ok started_server
unfolding start_server listen_bound listen close without listener_port split_host_port cut
    cut_prefix atoi unsigned read_digits
starts = refl

start_server-HasPort_example : HasPort started_server × (started_server.token ≡ token)
start_server-HasPort_example = start_server-HasPort 0 token no_sockets no_sockets-IsKernel starts

relisten_lem_example :
    ((e : ServerError) × ((relisten running one_socket).2 ≡ err e)
      × ((relisten running one_socket).1 ≡ running)
      × ((relisten running one_socket).0.listening ≡ one_socket.listening))
    ⊎ ((l : Listener) × ((relisten running one_socket).2 ≡ ok tt)
        × ((relisten running one_socket).1.listener ≡ some l)
        × (listener_port l ≡ ok (relisten running one_socket).1.port)
        × ((relisten running one_socket).1.token ≡ running.token)
        × ((relisten running one_socket).0.listening ≡ without 2 (l ∷ one_socket.listening)))
relisten_lem_example = relisten_lem running first_listener one_socket refl one_socket-IsKernel

abbrev random : Bytes
random = 0 ∷ 1 ∷ 2 ∷ 3 ∷ 4 ∷ 5 ∷ 6 ∷ 7 ∷ 8 ∷ 9 ∷ 10 ∷ 11 ∷ 12 ∷ 13 ∷ 14 ∷ 255 ∷ []

generate_token-IsToken_example :
    (t : Bytes) × (generate_token (ok random) ≡ ok t) × IsToken t × (length t ≡ 32)
generate_token-IsToken_example = generate_token-IsToken random refl (omega arith)
