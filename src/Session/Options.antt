-- ===== src/Session/Options.antt =====
-- internal/session/session_options.go: the options of a session and the native arguments.
use slush.Base.{ℕ, Bool, List, [], ◌∷◌, ◌++◌, ◌==◌, if◌then◌else◌}
use slush.Session.Forward.{Transport, auto, ssh, mosh, Forward, forward_string}
use slush.Text.Decimal.{itoa}
use slush.Text.{Bytes, codes, join}

pub record Options : Type 0 where
  pub transport : Transport
  pub host : Bytes
  pub command : List Bytes
  pub ssh_port : ℕ
  pub identity_file : Bytes
  pub config_file : Bytes
  pub forward_agent : Bool
  pub local_forwards : List Forward
  pub remote_forwards : List Forward

pub record SessionOptions : Type 0 where
  pub mode : Transport
  pub args : List Bytes
  pub forwards : List Bytes
  pub conn_opts : List Bytes
  pub forward_agent : Bool

-- An option with its value, unless the value is empty.
abbrev pub option_with : Bytes → Bytes → List Bytes
option_with flag [] = []
option_with flag (c ∷ value) = flag ∷ (c ∷ value) ∷ []

abbrev pub port_option : ℕ → List Bytes
port_option port = if port == 0 then [] else codes "-p" ∷ itoa port ∷ []

unfoldable pub conn_options : Options → List Bytes
conn_options o =
    codes "-o"
    ∷ (if o.forward_agent then codes "ForwardAgent=yes" else codes "ForwardAgent=no")
    ∷ (port_option o.ssh_port
        ++ (option_with (codes "-i") o.identity_file ++ option_with (codes "-F") o.config_file))

abbrev pub forward_options : Bytes → List Forward → List Bytes
forward_options flag [] = []
forward_options flag (f ∷ fs) = flag ∷ forward_string f ∷ forward_options flag fs

abbrev pub mosh_args : Bytes → List Bytes → List Bytes
mosh_args host [] = host ∷ []
mosh_args host (c ∷ command) = host ∷ codes "sh" ∷ codes "-c" ∷ join (c ∷ command) (codes " ") ∷ []

abbrev pub transport_args : Transport → Options → List Bytes
transport_args mosh o = mosh_args o.host o.command
transport_args ssh o = conn_options o ++ (o.host ∷ o.command)
transport_args auto o = conn_options o ++ (o.host ∷ o.command)

-- `Options.nativeOptions`
unfoldable pub native_options : Options → SessionOptions
native_options o = record {
  mode = o.transport;
  args = transport_args o.transport o;
  forwards =
      forward_options (codes "-L") o.local_forwards
      ++ forward_options (codes "-R") o.remote_forwards;
  conn_opts = conn_options o;
  forward_agent = o.forward_agent;
}
