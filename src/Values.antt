-- ===== src/Values.antt =====
-- The flag values of internal/command/cli_values.go: the transport, a TCP port, and port forwards.
pub mod Forward
pub mod Ports
mod Examples
use slush.Base.{
  ℕ, ◌-◌, Bool, true, false, not, ◌&&◌, Option, none, some, List, [], ◌∷◌, ◌++◌, ◌==◌, leb,
  if◌then◌else◌, all, Result, ok, err, ◌>>=◌,
}
use slush.Session.Forward.{Transport, auto, ssh, mosh}
use slush.Text.Decimal.{is_digit, itoa, parse_uint}
use slush.Text.{Bytes, codes, equal}

pub data ValueError : Type 0 where
  unknown_transport : Bytes → ValueError
  port_not_decimal : Bytes → ValueError
  port_out_of_range : Bytes → ValueError
  unexpected_open : Bytes → ValueError
  unexpected_close : Bytes → ValueError
  missing_close : Bytes → ValueError
  too_many_components : Bytes → ValueError
  invalid_bracketed : Bytes → ValueError
  not_bracketed_ipv6 : Bytes → ValueError
  invalid_host : Bytes → ValueError
  bind_address : ValueError → ValueError
  listen_port : ValueError → ValueError
  destination_host : ValueError → ValueError
  destination_port : ValueError → ValueError
  forward_usage : ValueError → ValueError

-- `(*clientMode).Set`: the new mode; an error leaves the old one.
unfoldable pub set_mode : Bytes → Result ValueError Transport
set_mode value =
    if equal value (codes "auto")
    then ok auto
    else if equal value (codes "ssh")
    then ok ssh
    else if equal value (codes "mosh")
    then ok mosh
    else err (unknown_transport value)

-- `clientMode.String`
unfoldable pub mode_string : Transport → Bytes
mode_string auto = codes "auto"
mode_string mosh = codes "mosh"
mode_string ssh = codes "ssh"

abbrev pub decimal : Bytes → Bool
decimal [] = false
decimal (c ∷ s) = all is_digit (c ∷ s)

abbrev pub valid_tcp_port_number : ℕ → Bool
valid_tcp_port_number n = if n == 0 then false else leb n 65535

abbrev pub port_in_range : Bytes → Option ℕ → Result ValueError ℕ
port_in_range value none = err (port_out_of_range value)
port_in_range value (some n) =
    if not (valid_tcp_port_number n) then err (port_out_of_range value) else ok n

-- `(*tcpPort).Set`
unfoldable pub set_port : Bytes → Result ValueError ℕ
set_port value =
    if not (decimal value)
    then err (port_not_decimal value)
    else port_in_range value (parse_uint value 16)

-- `tcpPort.String`
unfoldable pub port_string : ℕ → Bytes
port_string p = if p == 0 then [] else itoa p

-- The names that the help gives to the types of the values.
abbrev pub mode_type : Bytes
mode_type = codes "transport"

abbrev pub port_type : Bytes
port_type = codes "port"

abbrev pub forward_type : Bytes
forward_type = codes "forward"
