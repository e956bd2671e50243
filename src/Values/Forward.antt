-- ===== src/Values/Forward.antt =====
-- Port forwards on the command line.
pub mod Fields
pub mod Pieces
pub mod Hosts
pub mod Reparse
pub mod Samples
use slush.Base.{
  ℕ, ◌-◌, Bool, true, false, not, ◌&&◌, List, [], ◌∷◌, ◌++◌, ◌==◌, if◌then◌else◌, take, drop, map,
  length, Result, ok, err, ◌>>=◌, wrap_error,
}
use slush.Session.Forward.{Forward, forward_string}
use slush.Text.Address.{is_ipv6}
use slush.Text.{Bytes, codes, contains_any, equal, has_prefix, has_suffix, join}
use slush.Values.{
  ValueError, unexpected_open, unexpected_close, missing_close, too_many_components,
  invalid_bracketed, not_bracketed_ipv6, invalid_host, bind_address, listen_port, destination_host,
  destination_port, forward_usage, decimal, set_port,
}

pub record PortForward : Type 0 where
  pub bind_address : Bytes
  pub listen_port : ℕ
  pub host : Bytes
  pub port : ℕ

-- `portForward.configuration`
abbrev pub configuration : PortForward → Forward
configuration f = record {
  bind_address = f.bind_address;
  listen_port = f.listen_port;
  destination_host = f.host;
  destination_port = f.port;
}

abbrev pub is_empty : Bytes → Bool
is_empty [] = true
is_empty (c ∷ s) = false

-- A bracket opens at the start of a field only.
abbrev pub can_open_forward_bracket : Bool → Bytes → Bool
can_open_forward_bracket bracketed cur = if bracketed then false else is_empty cur

-- The loop of `forwardFields`, over the fields so far and the current one, `value[start:i]`.
unfoldable pub forward_fields_from :
    Bytes → Bytes → List Bytes → Bytes → Bool → Result ValueError (List Bytes)
forward_fields_from value [] fields cur true = err (missing_close value)
forward_fields_from value [] fields cur false = ok (fields ++ cur ∷ [])
forward_fields_from value (c ∷ s) fields cur bracketed =
    let opened = forward_fields_from value s fields (cur ++ c ∷ []) true in
    let closed = forward_fields_from value s fields (cur ++ c ∷ []) false in
    let next = forward_fields_from value s (fields ++ cur ∷ []) [] false in
    let kept = forward_fields_from value s fields (cur ++ c ∷ []) bracketed in
    if c == b'['
    then if can_open_forward_bracket bracketed cur then opened else err (unexpected_open value)
    else if c == b']'
    then if bracketed then closed else err (unexpected_close value)
    else if c == b':'
    then if bracketed then kept else next
    else kept

unfoldable pub forward_fields : Bytes → Result ValueError (List Bytes)
forward_fields value = forward_fields_from value value [] [] false

abbrev pub reserved : Bytes
reserved = codes "[]:/, \t\r\n"

-- `value[1 : len(value)-1]`
abbrev pub unbracketed : Bytes → Bytes
unbracketed value = take (length value - 2) (drop 1 value)

-- The address in brackets.
abbrev pub bracketed_host : Bytes → Result ValueError Bytes
bracketed_host value =
    if not (has_suffix value (codes "]"))
    then err (invalid_bracketed value)
    else if not (is_ipv6 (unbracketed value))
    then err (not_bracketed_ipv6 value)
    else ok (unbracketed value)

unfoldable pub forward_host : Bytes → Result ValueError Bytes
forward_host value =
    if equal value []
    then ok (codes "localhost")
    else if has_prefix value (codes "[")
    then bracketed_host value
    else if contains_any value reserved
    then err (invalid_host value)
    else ok value

unfoldable pub set_destination_port : PortForward → Bytes → Result ValueError PortForward
set_destination_port f value = do
  n ← wrap_error destination_port (set_port value)
  ok (record f { port = n })

unfoldable pub set_destination : PortForward → List Bytes → Bytes → Result ValueError PortForward
set_destination f (a ∷ []) value = ok f
set_destination f (a ∷ b ∷ []) value =
    if decimal b
    then set_destination_port f b
    else do host ← wrap_error destination_host (forward_host b); ok (record f { host = host })
set_destination f (a ∷ b ∷ c ∷ []) value = do
  host ← wrap_error destination_host (forward_host b)
  let g = record f { host = host }
  if not (is_empty c) then set_destination_port g c else ok g
set_destination f _ value = err (too_many_components value)

-- The forward whose listen port is the first field; the destination's port starts out the same.
unfoldable pub parse_from_port : Bytes → Bytes → List Bytes → Result ValueError PortForward
parse_from_port value bind [] = err (too_many_components value)
parse_from_port value bind (p ∷ rest) = do
  n ← wrap_error listen_port (set_port p)
  set_destination
      (record { bind_address = bind; listen_port = n; host = codes "localhost"; port = n })
      (p ∷ rest) value

-- A first field that is no number is the bind address, if another follows.
unfoldable pub parse_fields : Bytes → List Bytes → Result ValueError PortForward
parse_fields value [] = parse_from_port value (codes "localhost") []
parse_fields value (p ∷ []) = parse_from_port value (codes "localhost") (p ∷ [])
parse_fields value (a ∷ b ∷ rest) =
    if decimal a
    then parse_from_port value (codes "localhost") (a ∷ b ∷ rest)
    else do bind ← wrap_error bind_address (forward_host a); parse_from_port value bind (b ∷ rest)

unfoldable pub parse_port_forward : Bytes → Result ValueError PortForward
parse_port_forward value = do fields ← forward_fields value; parse_fields value fields

-- `(*forwardValues).Set`: an error leaves the list as it was.
unfoldable pub set_forwards : List PortForward → Bytes → Result ValueError (List PortForward)
set_forwards v value = do f ← wrap_error forward_usage (parse_port_forward value); ok (v ++ f ∷ [])

-- `portForward.String`
abbrev pub port_forward_string : PortForward → Bytes
port_forward_string f = forward_string (configuration f)

-- `(*forwardValues).String`
abbrev pub forwards_string : List PortForward → Bytes
forwards_string v = join (map port_forward_string v) (codes ", ")

-- `forwardValues.configuration`
abbrev pub forwards_configuration : List PortForward → List Forward
forwards_configuration v = map configuration v
