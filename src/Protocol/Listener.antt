-- ===== src/Protocol/Listener.antt =====
-- The life of the server's listener in internal/protocol/server.go. The sockets of the machine are a
-- state: what the coming calls of `net.Listen` return is given by `reply`, and the listeners that
-- the program holds open are recorded.
pub mod Ports
pub mod Serving
use slush.Base.{
  ℕ, zero, suc, ◌+◌, Bool, true, false, Option, none, some, List, [], ◌∷◌, ◌++◌, ◌==◌,
  if◌then◌else◌, Result, ok, err, ◌>>=◌,
}
use slush.Base.Int.{ℤ, pos, negsuc}
use slush.Text.Decimal.{atoi}
use slush.Text.{Bytes, codes, has_byte, cut}

pub record Listener : Type 0 where
  pub descriptor : ℕ
  pub address : Bytes

pub record Sockets : Type 0 where
  pub reply : ℕ → ℕ → Result Bytes Listener
  pub calls : ℕ
  pub listening : List Listener

abbrev pub opened : Result Bytes Listener → List Listener → List Listener
opened (ok l) ls = l ∷ ls
opened (err e) ls = ls

-- `net.Listen("tcp", "127.0.0.1:<port>")`
unfoldable pub listen : ℕ → Sockets → Sockets × Result Bytes Listener
listen port s =
    let answer = s.reply s.calls port in
    (record s { calls = s.calls + 1; listening = opened answer s.listening }, answer)

unfoldable pub without : ℕ → List Listener → List Listener
without d [] = []
without d (l ∷ ls) = let rest = without d ls in if l.descriptor == d then rest else l ∷ rest

-- `Listener.Close`
unfoldable pub close : Listener → Sockets → Sockets
unfolding without
close l s = record s { listening = without l.descriptor s.listening }

pub data ServerError : Type 0 where
  already_running : ℕ → ServerError
  listen_failed : ℕ → Bytes → ServerError
  clipboard_port : Bytes → ServerError
  no_server : ServerError

-- The host and port of an IPv4 address, which has one colon, as by `net.SplitHostPort`.
unfoldable pub split_host_port : Bytes → Option (Bytes × Bytes)
split_host_port address = elim (cut address (codes ":")) [
  | none ↦ none
  | some (host, port) ↦ if has_byte port b':' then none else some (host, port)
]

abbrev pub port_number : Option ℤ → Result ServerError ℤ
port_number none = err (clipboard_port (codes "invalid syntax"))
port_number (some n) = ok n

unfoldable pub listener_port : Listener → Result ServerError ℤ
listener_port l = elim (split_host_port l.address) [
  | none ↦ err (clipboard_port (codes "missing port in address"))
  | some (host, port) ↦ port_number (atoi port)
]

pub record Server : Type 0 where
  pub listener : Option Listener
  pub token : Bytes
  pub port : ℤ

unfoldable pub port_is_bound : ℕ → Sockets → Sockets × Bool
port_is_bound port s =
    let (s', answer) = listen port s in
    elim answer [ err e ↦ (s', true) | ok l ↦ (close l s', false) ]

unfoldable pub ensure_port_free : ℕ → Sockets → Sockets × Result ServerError (Unit {0})
ensure_port_free port s =
    let (s', bound) = port_is_bound port s in
    (s', if bound then err (already_running port) else ok tt)

-- A listener whose port cannot be told is closed again.
abbrev pub bind_listener :
    Sockets → Listener → Result ServerError ℤ → Sockets × Result ServerError (Listener × ℤ)
bind_listener s l (err e) = (close l s, err e)
bind_listener s l (ok n) = (s, ok (l, n))

unfoldable pub listen_bound : ℕ → Sockets → Sockets × Result ServerError (Listener × ℤ)
listen_bound port s =
    let (s', answer) = listen port s in
    elim answer [
      | err e ↦ (s', err (listen_failed port e))
      | ok l ↦ bind_listener s' l (listener_port l)
    ]

abbrev pub new_server : Bytes → Listener × ℤ → Result ServerError Server
new_server token (l, n) = ok (record { listener = some l; token = token; port = n })

unfoldable pub start_server : ℕ → Bytes → Sockets → Sockets × Result ServerError Server
start_server port token s =
    let (s', bound) = listen_bound port s in (s', bound >>= new_server token)

-- `(*Server).Port`; a nil server has port 0.
abbrev pub server_port : Option Server → ℤ
server_port none = pos 0
server_port (some server) = server.port

abbrev pub close_if_any : Option Listener → Sockets → Sockets
close_if_any none s = s
close_if_any (some l) s = close l s

abbrev pub replace_listener :
    Server
    → Sockets
    → Result ServerError (Listener × ℤ)
    → Sockets × Server × Result ServerError (Unit {0})
replace_listener server s (err e) = (s, server, err e)
replace_listener server s (ok (l, n)) =
    (close_if_any server.listener s, record server { listener = some l; port = n }, ok tt)

-- The new listener is open before the old one is closed.
unfoldable pub relisten : Server → Sockets → Sockets × Server × Result ServerError (Unit {0})
relisten server s = let (s', bound) = listen_bound 0 s in replace_listener server s' bound

unfoldable pub stop : Option Server → Sockets → Sockets
stop none s = s
stop (some server) s = close_if_any server.listener s
