-- ===== src/Session/Establish.antt =====
-- internal/session/tunnel.go and agent.go: a session is set up over a tunnel and torn down. The files
-- that the build embeds in internal/remote are an argument.
pub mod Cleanup
mod Examples
use slush.Base.Int.{ℤ, pos, negsuc}
use slush.Base.{
  ℕ, Bool, true, false, not, ◌||◌, Option, none, some, List, [], ◌∷◌, ◌++◌, if◌then◌else◌, Result,
  ok, err,
}
use slush.Machine.{
  Event, makes_directory, made_directory, remove_directory, reported, Outcome, Machine, outcome,
  after,
}
use slush.Protocol.Listener.{Server}
use slush.Remote.Environment.{Environment}
use slush.Remote.Provision.{Assets, ssh_exec, provision}
use slush.Session.Args.{SessionParams}
use slush.Session.Options.{SessionOptions}
use slush.Session.Tunnel.{
  SshTunnel, Arrival, stop_tunnel, start_ssh_tunnel, Bench, BindError, bind_clipboard_forward,
}
use slush.Text.Trim.{trim_space}
use slush.Text.{Bytes, codes, has_prefix, contains_any}

abbrev pub agent_script : Bytes
agent_script = codes "test -S \"$SSH_AUTH_SOCK\" && printf '%s' \"$SSH_AUTH_SOCK\""

-- The error's text goes on with the path, quoted for display.
abbrev pub agent_path : Bytes → Result Bytes Bytes
agent_path path =
    if not (has_prefix path (codes "/")) || contains_any path (b'\r' ∷ b'\n' ∷ [])
    then err (codes "remote SSH agent returned an invalid socket path")
    else ok path

abbrev pub agent_answer : Machine × Bytes × Result Bytes Bytes → Machine × Result Bytes Bytes
agent_answer (m, stdin, err e) =
    (m, err (codes "remote SSH agent is unavailable; check sshd AllowAgentForwarding: " ++ e))
agent_answer (m, stdin, ok output) = (m, agent_path (trim_space output))

-- `checkRemoteAgent`
unfoldable pub check_remote_agent : Bytes → Bytes → Bytes → Machine → Machine × Result Bytes Bytes
check_remote_agent path host control_path m = agent_answer (
    ssh_exec path host agent_script []
      (codes "-A" ∷ codes "-o" ∷ codes "ControlMaster=no" ∷ codes "-S" ∷ control_path ∷ []) m)

pub data SessionError : Type 0 where
  failed : Bytes → SessionError
  not_bound : BindError → SessionError

-- The tunnel and the temporary directory are what the teardown closes over.
pub record Established : Type 0 where
  pub tunnel : SshTunnel
  pub directory : Bytes
  pub params : SessionParams

-- `teardown`
unfoldable pub teardown : SshTunnel → Bytes → Machine → Machine
teardown t dir m = remove_directory dir (stop_tunnel t m)

-- The kernel's ports are not negative.
abbrev pub port_param : ℤ → ℕ
port_param (pos n) = n
port_param (negsuc n) = 0

abbrev pub provision_environment : SessionParams → Environment
provision_environment params = record {
  control_path = params.control_path;
  token = params.token;
  port = params.remote_port;
  agent_socket = [];
}

-- A failure of the provisioning is reported, and the session goes on.
abbrev pub report_provision : Machine × Result Bytes (Unit {0}) → Machine
report_provision (m, ok _) = m
report_provision (m, err e) =
    after
      (reported (
        codes "slush: clipboard provisioning: "
        ++ (e ++ codes " (continuing without clipboard forwarding)\n")))
      m

abbrev pub agent_if : Bool → Bytes → Bytes → Bytes → Machine → Machine × Result Bytes Bytes
agent_if false path host control_path m = (m, ok [])
agent_if true path host control_path m = check_remote_agent path host control_path m

module _ (assets : Assets) (path host : Bytes) (options : SessionOptions) (token : Bytes) where
  abbrev pub provisioned :
      SshTunnel
      → Bytes
      → ℕ
      → Machine × Result Bytes Bytes
      → Machine × Result SessionError Established
  provisioned t dir port (m, err e) = (teardown t dir m, err (failed e))
  provisioned t dir port (m, ok agent_socket) =
      let params : SessionParams = record {
        control_path = t.control_path;
        token = token;
        agent_socket = agent_socket;
        remote_port = port;
      } in
      (
        report_provision (provision assets path host (provision_environment params) m),
        ok (record { tunnel = t; directory = dir; params = params }),
      )

  abbrev pub with_machine :
      Bench → Machine × Result SessionError Established → Bench × Result SessionError Established
  with_machine b (m, result) = (record b { machine = m }, result)

  abbrev pub bound :
      SshTunnel
      → Bytes
      → Bench × Result BindError (Unit {0})
      → Bench × Result SessionError Established
  bound t dir (b, err e) = (record b { machine = teardown t dir b.machine }, err (not_bound e))
  bound t dir (b, ok _) = with_machine b (
      provisioned t dir (port_param b.server.port)
        (agent_if options.forward_agent path host t.control_path b.machine))

  abbrev pub tunnelled :
      Bench → Bytes → Machine × Result Bytes SshTunnel → Bench × Result SessionError Established
  tunnelled b dir (m, err e) = (record b { machine = remove_directory dir m }, err (failed e))
  tunnelled b dir (m, ok t) = bound t dir (bind_clipboard_forward t (record b { machine = m }))

  -- `filepath.Join` of the clean path of the directory
  abbrev pub control_in : Bytes → Bytes
  control_in dir = dir ++ codes "/control"

  -- `establishSession`
  unfoldable pub establish_session : List Arrival → Bench → Bench × Result SessionError Established
  establish_session arrivals b =
      let attempt = makes_directory (codes "slush-ssh-") in
      let made = outcome attempt b.machine in
      elim made.failure [
        | some e ↦ (
          record b { machine = after attempt b.machine },
          err (failed (codes "create temp dir: " ++ e)),
        )
        | none ↦
            let m = after (made_directory made.stdout) b.machine in
            tunnelled b made.stdout (
              start_ssh_tunnel path host (control_in made.stdout) options.conn_opts options.forwards
                arrivals m)
      ]
