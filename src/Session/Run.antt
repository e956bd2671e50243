-- ===== src/Session/Run.antt =====
-- internal/session/session.go: a session is opened, gets its client, and is closed.
pub mod Exits
pub mod Held
pub mod Cleanup
pub mod Complete
pub mod Samples
mod Examples
use slush.Base.Int.{ℤ}
use slush.Base.{
  ℕ, Bool, true, false, Option, none, some, List, [], ◌∷◌, ◌++◌, if◌then◌else◌, Result, ok, err,
}
use slush.Machine.{Event, looked_up, Outcome, Machine, outcome, after}
use slush.Process.{run_process}
use slush.Protocol.Listener.{Sockets, Server, ServerError, start_server, stop}
use slush.Protocol.Token.{TokenError, generate_token}
use slush.Remote.Environment.{Environment, env_prefix}
use slush.Remote.Provision.{Assets, ssh_exec}
use slush.Session.Args.{ArgsError, SessionParams, ssh_environment}
use slush.Session.Client.{session_host, client_args_for}
use slush.Session.Establish.{SessionError, Established, establish_session, teardown}
use slush.Session.Forward.{Transport, auto, ssh, mosh}
use slush.Session.Options.{Options, SessionOptions, native_options}
use slush.Session.Tunnel.{Bench, Arrival}
use slush.Text.Trim.{trim_space}
use slush.Text.{Bytes, codes, equal}

pub data RunError : Type 0 where
  no_token : TokenError → RunError
  no_server : ServerError → RunError
  not_found : Bytes → RunError
  bad_arguments : ArgsError → RunError
  not_set_up : SessionError → RunError
  not_detected : Bytes → RunError
  not_run : Bytes → RunError

pub record Session : Type 0 where
  pub options : SessionOptions
  pub ssh_path : Bytes
  pub host : Bytes
  pub established : Established

abbrev pub found : Bytes → Outcome → Option Bytes → Result RunError Bytes
found name out none = ok out.stdout
found name out (some e) = err (not_found (name ++ (codes " not found on PATH: " ++ e)))

-- `exec.LookPath` of a client
unfoldable pub look_path : Bytes → Machine → Machine × Result RunError Bytes
look_path name m =
    let out = outcome (looked_up name) m in (after (looked_up name) m, found name out out.failure)

abbrev pub client_name : Transport → Bytes
client_name mosh = codes "mosh"
client_name ssh = codes "ssh"
client_name auto = codes "ssh"

-- `clientPath`
abbrev pub client_path : Transport → Machine → Machine × Result RunError Bytes
client_path mode m = look_path (client_name mode) m

-- `Close`
abbrev pub close_session : Session → Machine → Machine
close_session s m = teardown s.established.tunnel s.established.directory m

-- `Environment`
abbrev pub environment : Session → Environment
environment s = record {
  control_path = s.established.params.control_path;
  token = s.established.params.token;
  port = s.established.params.remote_port;
  agent_socket = s.established.params.agent_socket;
}

-- `Transport`
abbrev pub session_transport : Session → Transport
session_transport s = s.options.mode

-- `Probe`
unfoldable pub probe : Session → Bytes → Machine → Machine × Bytes × Result Bytes Bytes
probe s script m =
    ssh_exec s.ssh_path s.host (env_prefix (ssh_environment s.established.params) ++ script) []
      (codes "-o"
        ∷ codes "ControlMaster=no"
        ∷ codes "-S"
        ∷ s.established.params.control_path
        ∷ s.options.conn_opts)
      m

abbrev pub detection_script : Bytes
detection_script =
    codes "if command -v mosh-server >/dev/null 2>&1; then printf mosh; else printf ssh; fi"

abbrev pub detected : Bytes → Result RunError Transport
detected output =
    let word = trim_space output in
    if equal word (codes "mosh")
    then ok mosh
    else if equal word (codes "ssh")
    then ok ssh
    else err (not_detected (codes "unexpected remote Mosh availability response"))

abbrev pub detection : Machine × Bytes × Result Bytes Bytes → Machine × Result RunError Transport
detection (m, stdin, err e) =
    (m, err (not_detected (codes "detect remote Mosh availability: " ++ e)))
detection (m, stdin, ok output) = (m, detected output)

-- The probe never opens a connection of its own.
abbrev pub detection_run : Session → Machine → Machine × Bytes × Result Bytes Bytes
detection_run s m =
    ssh_exec s.ssh_path s.host detection_script []
      (codes "-o"
        ∷ codes "ControlMaster=no"
        ∷ codes "-o"
        ∷ codes "ProxyCommand=false"
        ∷ codes "-S"
        ∷ s.established.params.control_path
        ∷ s.options.conn_opts)
      m

abbrev pub ask_remote :
    Session → Machine × Result RunError Bytes → Machine × Result RunError Transport
ask_remote s (m, err e) = (m, ok ssh)
ask_remote s (m, ok path) = detection (detection_run s m)

-- `autoTransport`
unfoldable pub auto_transport : Session → Machine → Machine × Result RunError Transport
auto_transport s m = ask_remote s (look_path (codes "mosh") m)

-- The transport that was found replaces `Auto` in the options.
abbrev pub selected :
    Options → Session → Machine × Result RunError Transport → Machine × Result RunError Session
selected options s (m, err e) = (close_session s m, err e)
selected options s (m, ok mode) =
    (m, ok (record s { options = native_options (record options { transport = mode }) }))

abbrev pub select : Transport → Options → Session → Machine → Machine × Result RunError Session
select auto options s m = selected options s (auto_transport s m)
select ssh options s m = (m, ok s)
select mosh options s m = (m, ok s)

abbrev pub with_machine :
    Bench → Machine × Result RunError Session → Bench × Result RunError Session
with_machine b (m, result) = (record b { machine = m }, result)

abbrev pub opened :
    Options
    → Bytes
    → Bytes
    → Bench × Result SessionError Established
    → Bench × Result RunError Session
opened options path host (b, err e) = (b, err (not_set_up e))
opened options path host (b, ok established) =
    let s : Session = record {
      options = native_options options;
      ssh_path = path;
      host = host;
      established = established;
    } in
    with_machine b (select options.transport options s b.machine)

module _ (assets : Assets) (options : Options) where
  abbrev pub open_to :
      Bytes
      → List Arrival
      → Bench
      → Bytes
      → Result ArgsError Bytes
      → Bench × Result RunError Session
  open_to token arrivals b path (err e) = (b, err (bad_arguments e))
  open_to token arrivals b path (ok host) =
      opened options path host
        (establish_session assets path host (native_options options) token arrivals b)

  abbrev pub open_with :
      Bytes
      → List Arrival
      → Bench
      → Machine × Result RunError Bytes
      → Bench × Result RunError Session
  open_with token arrivals b (m, err e) = (record b { machine = m }, err e)
  open_with token arrivals b (m, ok path) =
      open_to token arrivals (record b { machine = m }) path (session_host (native_options options))

  -- `Open`
  unfoldable pub open_session : Bytes → List Arrival → Bench → Bench × Result RunError Session
  open_session token arrivals b = open_with token arrivals b (look_path (codes "ssh") b.machine)

abbrev pub client_result : Machine × Result Bytes ℤ → Machine × Result RunError ℤ
client_result (m, err e) = (m, err (not_run e))
client_result (m, ok code) = (m, ok code)

abbrev pub run_args :
    Session → Bool → Bytes → Machine → Result ArgsError (List Bytes) → Machine × Result RunError ℤ
run_args s terminal path m (err e) = (m, err (bad_arguments e))
run_args s terminal path m (ok args) =
    client_result (run_process terminal path args (equal path s.ssh_path) m)

-- `runClient`
unfoldable pub run_client : Session → Bool → Bytes → Machine → Machine × Result RunError ℤ
run_client s terminal path m =
    run_args s terminal path m
      (client_args_for s.options.mode s.options s.established.params terminal)

abbrev pub run_found :
    Session → Bool → Machine × Result RunError Bytes → Machine × Result RunError ℤ
run_found s terminal (m, err e) = (m, err e)
run_found s terminal (m, ok path) = run_client s terminal path m

-- With `Auto` the client of the transport that was found is looked up.
abbrev pub run_selected : Transport → Session → Bool → Bytes → Machine → Machine × Result RunError ℤ
run_selected auto s terminal path m = run_found s terminal (client_path s.options.mode m)
run_selected ssh s terminal path m = run_client s terminal path m
run_selected mosh s terminal path m = run_client s terminal path m

abbrev pub closing : Session → Bench → Machine × Result RunError ℤ → Bench × Result RunError ℤ
closing s b (m, result) = (record b { machine = close_session s m }, result)

abbrev pub run_session :
    Transport → Bool → Bytes → Bench × Result RunError Session → Bench × Result RunError ℤ
run_session mode terminal path (b, err e) = (b, err e)
run_session mode terminal path (b, ok s) = closing s b (run_selected mode s terminal path b.machine)

-- The server is stopped at the end, with the listener that it then has.
abbrev pub stopping : Bench × Result RunError ℤ → Machine × Sockets × Result RunError ℤ
stopping (b, result) = (b.machine, stop (some b.server) b.sockets, result)

module _ (assets : Assets) (options : Options) (terminal : Bool) (arrivals : List Arrival) where
  abbrev pub run_with : Bytes → Bench → Machine × Result RunError Bytes → Bench × Result RunError ℤ
  run_with token b (m, err e) = (record b { machine = m }, err e)
  run_with token b (m, ok path) =
      run_session options.transport terminal path
        (open_session assets options token arrivals (record b { machine = m }))

  abbrev pub run_served :
      Bytes → Machine → Sockets × Result ServerError Server → Machine × Sockets × Result RunError ℤ
  run_served token m (sockets, err e) = (m, sockets, err (no_server e))
  run_served token m (sockets, ok server) =
      let b : Bench = record { machine = m; sockets = sockets; server = server } in
      stopping (run_with token b (client_path options.transport m))

  abbrev pub run_token :
      Machine → Sockets → Result TokenError Bytes → Machine × Sockets × Result RunError ℤ
  run_token m sockets (err e) = (m, sockets, err (no_token e))
  run_token m sockets (ok token) = run_served token m (start_server 0 token sockets)

  -- `Run`; the random bytes of the token, or their error, are an argument.
  unfoldable pub run :
      Result Bytes Bytes → Machine → Sockets → Machine × Sockets × Result RunError ℤ
  run random m sockets = run_token m sockets (generate_token random)
