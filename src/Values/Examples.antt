-- ===== src/Values/Examples.antt =====
-- The theorems on flag values at concrete inputs.
use slush.Base.{◌≡◌, refl, ok}
use slush.Session.Forward.{forward_string}
use slush.Text.Decimal.{unsigned, read_digits, parse_uint}
use slush.Text.Address.{is_ipv6, groups}
use slush.Text.{Bytes, codes, equal, cut, cut_prefix, has_prefix, has_suffix}
use slush.Values.Forward.Reparse.{
  IsForward, parse_port_forward-IsForward, parse_port_forward_reparse,
}
use slush.Values.Forward.{
  PortForward, configuration, forward_fields, forward_fields_from, forward_host, set_destination,
  set_destination_port, parse_from_port, parse_fields, parse_port_forward,
}
use slush.Values.{set_port}

abbrev given : Bytes
given = codes "[::1]:8080::80"

abbrev parsed : PortForward
parsed = record {
  bind_address = codes "::1";
  listen_port = 8080;
  host = codes "localhost";
  port = 80;
}

given-parses : parse_port_forward given ≡ ok parsed
unfolding parse_port_forward parse_fields parse_from_port set_destination set_destination_port
    forward_host forward_fields forward_fields_from set_port parse_uint unsigned read_digits equal
    has_prefix has_suffix is_ipv6 groups cut cut_prefix
given-parses = refl

parse_port_forward_reparse_example :
    parse_port_forward (forward_string (configuration parsed)) ≡ ok parsed
parse_port_forward_reparse_example = parse_port_forward_reparse given given-parses

parse_port_forward-IsForward_example : IsForward parsed
parse_port_forward-IsForward_example = parse_port_forward-IsForward given given-parses
