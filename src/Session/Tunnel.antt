-- ===== src/Session/Tunnel.antt =====
-- internal/session/tunnel.go: the ssh master that a session keeps as a child process, and the reverse
-- forward of the clipboard port. An error is its text.
pub mod Binding
pub mod Stopping
use slush.Base.Int.{ℤ, pos, negsuc}
use slush.Base.{
  ℕ, zero, suc, Bool, true, false, not, ◌&&◌, Option, none, some, List, [], ◌∷◌, ◌++◌,
  if◌then◌else◌, Result, ok, err,
}
use slush.Machine.{
  Event, ran, starts, started, killed, waited, Outcome, Machine, outcome, after, after_attempt,
}
use slush.Protocol.Listener.{
  Sockets, Server, ServerError, already_running, listen_failed, clipboard_port, no_server, relisten,
}
use slush.Text.Decimal.{itoa, int_text}
use slush.Text.Trim.{trim_space}
use slush.Text.{Bytes, codes, contains, equal}

-- `waited` says that the child's end is noted. A tunnel has a process from its start.
pub record SshTunnel : Type 0 where
  pub ssh_path : Bytes
  pub host : Bytes
  pub control_path : Bytes
  pub waited_for : Bool

abbrev pub control_path_flag : Bytes → Bytes
control_path_flag path = codes "ControlPath=" ++ path

unfoldable pub exit_command : SshTunnel → Event
exit_command t =
    ran t.ssh_path
      (codes "-o" ∷ control_path_flag t.control_path ∷ codes "-O" ∷ codes "exit" ∷ t.host ∷ []) []

unfoldable pub check_command : SshTunnel → Event
check_command t =
    ran t.ssh_path
      (codes "-o" ∷ control_path_flag t.control_path ∷ codes "-O" ∷ codes "check" ∷ t.host ∷ []) []

-- `%d:127.0.0.1:%d`, with the same port twice
abbrev pub forward_spec : ℤ → Bytes
forward_spec port = int_text port ++ (codes ":127.0.0.1:" ++ int_text port)

unfoldable pub forward_command : SshTunnel → ℤ → Event
forward_command t port =
    ran t.ssh_path
      (codes "-o"
        ∷ control_path_flag t.control_path
        ∷ codes "-o"
        ∷ codes "ControlMaster=no"
        ∷ codes "-O"
        ∷ codes "forward"
        ∷ codes "-R"
        ∷ forward_spec port
        ∷ t.host
        ∷ [])
      []

-- `wait` receives the child's end once.
abbrev pub wait : SshTunnel → Machine → Machine
wait t m = if t.waited_for then m else after waited m

-- `(*sshTunnel).Stop`, with `stopSSHTunnel`
unfoldable pub stop_tunnel : SshTunnel → Machine → Machine
stop_tunnel t m = wait t (after killed (after (exit_command t) m))

abbrev pub forward_error : Outcome → Bytes → Bytes
forward_error out e =
    let detail = trim_space out.stderr in
    codes "open clipboard forward: " ++ (if equal detail [] then e else detail)

abbrev pub forward_result : Outcome → Option Bytes → Result Bytes (Unit {0})
forward_result out none = ok tt
forward_result out (some e) = err (forward_error out e)

-- `forwardClipboard`
unfoldable pub forward_clipboard : SshTunnel → ℤ → Machine → Machine × Result Bytes (Unit {0})
forward_clipboard t port m =
    let out = outcome (forward_command t port) m in
    (after (forward_command t port) m, forward_result out out.failure)

-- What `select` finds before the deadline: the clock ticked, or the child ended.
pub data Arrival : Type 0 where
  ticked : Arrival
  exited : Option Bytes → Arrival

abbrev pub start_error : Option Bytes → Bytes
start_error none = codes "start ssh tunnel: ssh exited before becoming ready"
start_error (some e) = codes "start ssh tunnel: " ++ e

-- `waitUntilReady`. The deadline follows the last of the arrivals.
unfoldable pub wait_until_ready :
    SshTunnel → List Arrival → Machine → Machine × SshTunnel × Result Bytes (Unit {0})
wait_until_ready t [] m =
    (m, t, err (codes "start ssh tunnel: timed out waiting for control socket"))
wait_until_ready t (exited e ∷ arrivals) m =
    (after waited m, record t { waited_for = true }, err (start_error e))
wait_until_ready t (ticked ∷ arrivals) m = elim (outcome (check_command t) m).failure [
  | none ↦ (after (check_command t) m, t, ok tt)
  | some e ↦ wait_until_ready t arrivals (after (check_command t) m)
]

abbrev pub master_args : Bytes → Bytes → List Bytes → List Bytes → List Bytes
master_args host control_path conn_opts forwards =
    codes "-N"
    ∷ codes "-o"
    ∷ codes "ExitOnForwardFailure=yes"
    ∷ codes "-o"
    ∷ codes "ControlMaster=yes"
    ∷ codes "-o"
    ∷ control_path_flag control_path
    ∷ codes "-o"
    ∷ codes "ControlPersist=no"
    ∷ (conn_opts ++ (forwards ++ host ∷ []))

abbrev pub stop_unless_ready :
    Machine × SshTunnel × Result Bytes (Unit {0}) → Machine × Result Bytes SshTunnel
stop_unless_ready (m, t, ok _) = (m, ok t)
stop_unless_ready (m, t, err e) = (stop_tunnel t m, err e)

abbrev pub new_tunnel : Bytes → Bytes → Bytes → SshTunnel
new_tunnel path host control_path = record {
  ssh_path = path;
  host = host;
  control_path = control_path;
  waited_for = false;
}

-- `startSSHTunnel`
unfoldable pub start_ssh_tunnel :
    Bytes
    → Bytes
    → Bytes
    → List Bytes
    → List Bytes
    → List Arrival
    → Machine
    → Machine × Result Bytes SshTunnel
start_ssh_tunnel path host control_path conn_opts forwards arrivals m =
    let args = master_args host control_path conn_opts forwards in
    let t = new_tunnel path host control_path in
    elim (outcome (starts path args) m).failure [
      | some e ↦ (after (starts path args) m, err (codes "start ssh tunnel: " ++ e))
      | none ↦ stop_unless_ready (wait_until_ready t arrivals (after (started path args) m))
    ]

-- `remoteForwardBusy`
unfoldable pub remote_forward_busy : Bytes → Bool
remote_forward_busy e = contains e (codes "remote port forwarding failed")

-- What binding the clipboard's forward changes.
pub record Bench : Type 0 where
  pub machine : Machine
  pub sockets : Sockets
  pub server : Server

pub data BindError : Type 0 where
  forward_failed : Bytes → BindError
  relisten_failed : ServerError → BindError
  no_free_port : Option Bytes → BindError

abbrev pub clipboard_forward_attempts : ℕ
clipboard_forward_attempts = 8

-- The loop with `attempts` rounds left and the error of the round before.
unfoldable pub bind_loop :
    ℕ → Option Bytes → SshTunnel → Bench → Bench × Result BindError (Unit {0})
bind_loop zero last t b = (b, err (no_free_port last))
bind_loop (suc attempts) last t b =
    let (m, forwarded) = forward_clipboard t b.server.port b.machine in
    elim forwarded [
      | ok _ ↦ (record b { machine = m }, ok tt)
      | err e ↦ elim (remote_forward_busy e) [
        | false ↦ (record b { machine = m }, err (forward_failed e))
        | true ↦
            let (sockets, server, listened) = relisten b.server b.sockets in
            let b' = record b { machine = m; sockets = sockets; server = server } in
            elim listened [
              | err failed ↦ (b', err (relisten_failed failed))
              | ok _ ↦ bind_loop attempts (some e) t b'
            ]
      ]
    ]

-- `bindClipboardForward`
unfoldable pub bind_clipboard_forward : SshTunnel → Bench → Bench × Result BindError (Unit {0})
bind_clipboard_forward t b = bind_loop clipboard_forward_attempts none t b
