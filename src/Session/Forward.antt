-- ===== src/Session/Forward.antt =====
-- `Transport` and `Forward` of internal/session/session_options.go.
use slush.Base.{ℕ, ◌++◌, ◌∷◌, [], if◌then◌else◌}
use slush.Text.Decimal.{itoa}
use slush.Text.{Bytes, has_byte}

pub data Transport : Type 0 where
  auto ssh mosh : Transport

pub record Forward : Type 0 where
  pub bind_address : Bytes
  pub listen_port : ℕ
  pub destination_host : Bytes
  pub destination_port : ℕ

-- The host as `net.JoinHostPort` writes it.
abbrev pub host_text : Bytes → Bytes
host_text host = if has_byte host b':' then b'[' ∷ (host ++ b']' ∷ []) else host

-- `net.JoinHostPort`
abbrev pub join_host_port : Bytes → Bytes → Bytes
join_host_port host port = host_text host ++ b':' ∷ port

-- `Forward.String`
unfoldable pub forward_string : Forward → Bytes
forward_string f =
    join_host_port f.bind_address (itoa f.listen_port)
    ++ b':' ∷ join_host_port f.destination_host (itoa f.destination_port)
