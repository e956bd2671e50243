-- ===== src/Session/Establish/Examples.antt =====
-- Sessions on a small machine.
use slush.Base.Int.{pos}
use slush.Base.{ℕ, false, none, some, List, [], ◌∷◌, ◌++◌, ◌≡◌, refl, arith, ok, err, Result}
use slush.Machine.{Event, Outcome}
use slush.Protocol.Listener.Serving.{IsServing}
use slush.Protocol.Listener.{
  Listener, Sockets, Server, listener_port, split_host_port, relisten, listen_bound, listen, close,
  without,
}
use slush.Remote.Provision.{Assets}
use slush.Session.Establish.{establish_session, Established}
use slush.Session.Forward.{ssh}
use slush.Session.Options.{SessionOptions}
use slush.Session.Tunnel.Binding.{
  IsForwarded, bind_clipboard_forward-IsServing, bind_clipboard_forward-IsForwarded,
}
use slush.Session.Tunnel.{
  SshTunnel, new_tunnel, Bench, Arrival, ticked, exited, bind_clipboard_forward, bind_loop,
  forward_clipboard, forward_command, remote_forward_busy, start_ssh_tunnel, wait_until_ready,
}
use slush.Text.Decimal.{atoi, unsigned, read_digits, itoa, int_text}
use slush.Text.Fields.{space_width}
use slush.Text.Trim.{trim_space}
use slush.Text.{Bytes, codes, cut, cut_prefix, contains, has_prefix, equal}

abbrev fine : Bytes → Outcome
fine output = record {
  failure = none;
  exit_code = none;
  stdout = output;
  stderr = [];
  combined = output;
  consumed = 0;
}

abbrev refused : Outcome
refused = record {
  failure = some (codes "exit status 255");
  exit_code = some (pos 255);
  stdout = [];
  stderr = codes "Error: remote port forwarding failed for listen port 40000\n";
  combined = [];
  consumed = 0;
}

-- The first command is refused, and all others go well.
abbrev busy_once : List Event → Event → Outcome
busy_once [] e = refused
busy_once (_ ∷ log) e = fine []

abbrev numbered_sockets : ℕ → ℕ → Result Bytes Listener
numbered_sockets call port =
    ok (record { descriptor = call; address = codes "127.0.0.1:4000" ++ itoa call })

abbrev first_listener : Listener
first_listener = record { descriptor = 0; address = codes "127.0.0.1:40000" }

abbrev a_server : Server
a_server = record { listener = some first_listener; token = codes "t"; port = pos 40000 }

abbrev some_sockets : Sockets
some_sockets = record { reply = numbered_sockets; calls = 1; listening = first_listener ∷ [] }

abbrev a_bench : (List Event → Event → Outcome) → Bench
a_bench answer = record {
  machine = record { answer = answer; log = [] };
  sockets = some_sockets;
  server = a_server;
}

abbrev a_tunnel : SshTunnel
a_tunnel = new_tunnel (codes "ssh") (codes "host") (codes "/tmp/c/control")

a_server-IsServing : IsServing a_server some_sockets (codes "t") []
unfolding listener_port split_host_port cut cut_prefix atoi unsigned read_digits
a_server-IsServing = record {
  listener = first_listener;
  held = refl;
  published = refl;
  same_token = refl;
  open_now = refl;
  alone = tt;
  numbered = λ call port l answered. ground (arith, answered);
  before = (omega arith, tt);
}

bind_clipboard_forward-IsServing_example :
    IsServing
      (bind_clipboard_forward a_tunnel (a_bench busy_once)).0.server
      (bind_clipboard_forward a_tunnel (a_bench busy_once)).0.sockets
      (codes "t")
      []
bind_clipboard_forward-IsServing_example =
    bind_clipboard_forward-IsServing a_tunnel (codes "t") [] (a_bench busy_once) a_server-IsServing

bound_second : (bind_clipboard_forward a_tunnel (a_bench busy_once)).1 ≡ ok tt
unfolding bind_clipboard_forward bind_loop forward_clipboard forward_command remote_forward_busy
    relisten listen_bound listen close without listener_port split_host_port cut cut_prefix atoi
    unsigned read_digits itoa int_text trim_space contains has_prefix equal space_width
bound_second = refl

bind_clipboard_forward-IsForwarded_example :
    IsForwarded a_tunnel (bind_clipboard_forward a_tunnel (a_bench busy_once)).0
bind_clipboard_forward-IsForwarded_example =
    bind_clipboard_forward-IsForwarded a_tunnel (codes "t") [] (a_bench busy_once)
      a_server-IsServing bound_second

-- All commands go well, and the remote shims are current.
abbrev all_well : List Event → Event → Outcome
all_well log e = fine (codes "4")

abbrev no_assets : Assets
no_assets = record { shim_script = []; bash_startup = []; zsh_startup = [] }

abbrev plain_options : SessionOptions
plain_options = record {
  mode = ssh;
  args = codes "host" ∷ [];
  forwards = [];
  conn_opts = [];
  forward_agent = false;
}

abbrev set_up : List Arrival → Bench × Result slush.Session.Establish.SessionError Established
set_up arrivals =
    establish_session no_assets (codes "ssh") (codes "host") plain_options (codes "t") arrivals
      (a_bench all_well)

ends_early :
    (set_up (exited none ∷ [])).1
    ≡ err (
        slush.Session.Establish.failed (codes "start ssh tunnel: ssh exited before becoming ready"))
unfolding establish_session start_ssh_tunnel wait_until_ready
ends_early = refl

abbrev a_session : Established
a_session = record {
  tunnel = new_tunnel (codes "ssh") (codes "host") (codes "4/control");
  directory = codes "4";
  params = record {
    control_path = codes "4/control";
    token = codes "t";
    agent_socket = [];
    remote_port = 40000;
  };
}

is_set_up : (set_up (ticked ∷ [])).1 ≡ ok a_session
unfolding establish_session start_ssh_tunnel wait_until_ready bind_clipboard_forward bind_loop
    forward_clipboard
is_set_up = refl
