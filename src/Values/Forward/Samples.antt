-- ===== src/Values/Forward/Samples.antt =====
-- The table of forms in the README, and refused forms.
use slush.Base.{◌≡◌, refl, ok, err}
use slush.Text.Decimal.{unsigned, read_digits, parse_uint}
use slush.Text.Address.{is_ipv6, groups}
use slush.Text.{codes, equal, cut, cut_prefix, has_prefix, has_suffix}
use slush.Values.Forward.{
  forward_fields, forward_fields_from, forward_host, set_destination, set_destination_port,
  parse_from_port, parse_fields, parse_port_forward,
}
use slush.Values.{
  set_port, unexpected_open, missing_close, too_many_components, listen_port, port_out_of_range,
}

readme_table :
    (parse_port_forward (codes "8080")
      ≡ ok (record {
        bind_address = codes "localhost";
        listen_port = 8080;
        host = codes "localhost";
        port = 8080;
      }))
    × (parse_port_forward (codes "8080:80")
        ≡ ok (record {
          bind_address = codes "localhost";
          listen_port = 8080;
          host = codes "localhost";
          port = 80;
        }))
    × (parse_port_forward (codes "8080:db")
        ≡ ok (record {
          bind_address = codes "localhost";
          listen_port = 8080;
          host = codes "db";
          port = 8080;
        }))
    × (parse_port_forward (codes "127.0.0.1:8080:db:5432")
        ≡ ok (record {
          bind_address = codes "127.0.0.1";
          listen_port = 8080;
          host = codes "db";
          port = 5432;
        }))
    × (parse_port_forward (codes "[::1]:8080:[::1]:80")
        ≡ ok (record {
          bind_address = codes "::1";
          listen_port = 8080;
          host = codes "::1";
          port = 80;
        }))
    × (parse_port_forward (codes ":8080::80")
        ≡ ok (record {
          bind_address = codes "localhost";
          listen_port = 8080;
          host = codes "localhost";
          port = 80;
        }))
unfolding parse_port_forward parse_fields parse_from_port set_destination set_destination_port
    forward_host forward_fields forward_fields_from set_port parse_uint unsigned read_digits equal
    has_prefix has_suffix is_ipv6 groups cut cut_prefix
readme_table = (refl, refl, refl, refl, refl, refl)

refused_forms :
    (parse_port_forward (codes "[::1:8080") ≡ err (missing_close (codes "[::1:8080")))
    × (parse_port_forward (codes "a[:1") ≡ err (unexpected_open (codes "a[:1")))
    × (parse_port_forward (codes "1:b:3:d") ≡ err (too_many_components (codes "1:b:3:d")))
    × (parse_port_forward (codes "0") ≡ err (listen_port (port_out_of_range (codes "0"))))
unfolding parse_port_forward parse_fields parse_from_port set_destination set_destination_port
    forward_host forward_fields forward_fields_from set_port parse_uint unsigned read_digits equal
    has_prefix has_suffix is_ipv6 groups cut cut_prefix
refused_forms = (refl, refl, refl, refl)
