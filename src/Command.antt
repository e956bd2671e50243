-- ===== src/Command.antt =====
-- internal/command/cli.go and install.go, and the check of the local agent in internal/session: from
-- the parsed flags and arguments to a session or an installation, and to the exit code of the program.
-- The files of the machine are given by what `os.Stat` says of them.
pub mod Hosts
pub mod Codes
pub mod Program
mod Examples
use slush.Base.Int.{ℤ, pos}
use slush.Base.{
  ℕ, zero, suc, Bool, true, false, ◌||◌, Option, none, some, List, [], ◌∷◌, ◌++◌, if◌then◌else◌,
  Result, ok, err, ◌>>=◌,
}
use slush.Machine.{Event, looked_up, ran, Outcome, Machine, outcome, after}
use slush.Protocol.Token.{TokenError}
use slush.Remote.Provision.{Assets, install}
use slush.Session.Forward.{Transport}
use slush.Session.Options.{Options, port_option, option_with}
use slush.Session.Run.{RunError}
use slush.Text.{Bytes, codes, has_prefix, contains_any}
use slush.Values.Forward.{PortForward, forwards_configuration}

pub data CommandError : Type 0 where
  missing_host : CommandError
  one_host_only : CommandError
  invalid_host : Bytes → CommandError
  no_local_agent : Bytes → CommandError
  no_file : Bytes → Bytes → CommandError
  not_regular : Bytes → Bytes → CommandError
  unsupported_flag : Bytes → CommandError
  no_ssh : Bytes → CommandError
  not_installed : Bytes → CommandError
  session_error : RunError → CommandError
  remote_exit : ℤ → CommandError
  checks_failed : ℕ → CommandError
  no_validation_token : TokenError → CommandError
  wrong_arguments : ℕ → CommandError

pub record Flags : Type 0 where
  pub transport : Transport
  pub forward_agent : Bool
  pub port : ℕ
  pub identity : Bytes
  pub config : Bytes
  pub local : List PortForward
  pub remote : List PortForward

-- `os.Stat`: an error, or whether the file is regular.
abbrev pub Files : Type 0
Files = Bytes → Result Bytes Bool

-- `requireHost`
abbrev pub require_host : List Bytes → Result CommandError (Unit {0})
require_host [] = err missing_host
require_host (host ∷ args) = ok tt

-- `requireValidationHost`
abbrev pub require_validation_host : List Bytes → Result CommandError (Unit {0})
require_validation_host [] = err missing_host
require_validation_host (host ∷ []) = ok tt
require_validation_host (host ∷ arg ∷ args) = err one_host_only

abbrev pub checked_file : Bytes → Bytes → Result Bytes Bool → Result CommandError (Unit {0})
checked_file flag path (err e) = err (no_file flag path)
checked_file flag path (ok false) = err (not_regular flag path)
checked_file flag path (ok true) = ok tt

abbrev pub validate_file : Files → Bytes → Bytes → Result CommandError (Unit {0})
validate_file files flag [] = ok tt
validate_file files flag (c ∷ path) = checked_file flag (c ∷ path) (files (c ∷ path))

-- `validateConnectionFiles`
unfoldable pub validate_connection_files : Files → Bytes → Bytes → Result CommandError (Unit {0})
validate_connection_files files identity config =
    validate_file files (codes "-i") identity >>= λ _. validate_file files (codes "-F") config

-- An accessible agent without identities makes ssh-add exit with 1.
abbrev pub agent_status : Outcome → Option Bytes → Option ℤ → Result CommandError (Unit {0})
agent_status out none code = ok tt
agent_status out (some e) (some (pos (suc zero))) = ok tt
agent_status out (some e) code = err (no_local_agent out.combined)

abbrev pub agent_in_time : Bool → Outcome → Result CommandError (Unit {0})
agent_in_time true out = err (no_local_agent (codes "local SSH agent check timed out"))
agent_in_time false out = agent_status out out.failure out.exit_code

-- `CheckLocalAgent`; the flag says that the five seconds ran out.
unfoldable pub check_local_agent : Bool → Machine → Machine × Result CommandError (Unit {0})
check_local_agent timed_out m =
    let m' = after (looked_up (codes "ssh-add")) m in
    let out = outcome (looked_up (codes "ssh-add")) m in
    elim out.failure [
      | some e ↦ (m', err (no_local_agent e))
      | none ↦
          let listing = ran out.stdout (codes "-l" ∷ []) [] in
          (after listing m', agent_in_time timed_out (outcome listing m'))
    ]

abbrev pub check_agent_if : Bool → Bool → Machine → Machine × Result CommandError (Unit {0})
check_agent_if false timed_out m = (m, ok tt)
check_agent_if true timed_out m = check_local_agent timed_out m

unfoldable pub bad_host : Bytes → Bool
bad_host host = has_prefix host (codes "-") || contains_any host (codes "\r\n\t ")

abbrev pub made_options : Flags → Bytes → List Bytes → Options
made_options flags host command = record {
  transport = flags.transport;
  host = host;
  command = command;
  ssh_port = flags.port;
  identity_file = flags.identity;
  config_file = flags.config;
  forward_agent = flags.forward_agent;
  local_forwards = forwards_configuration flags.local;
  remote_forwards = forwards_configuration flags.remote;
}

module _ (files : Files) (flags : Flags) where
  abbrev pub with_files :
      Bytes
      → List Bytes
      → Machine × Result CommandError (Unit {0})
      → Machine × Result CommandError Options
  with_files host command (m, err e) = (m, err e)
  with_files host command (m, ok _) = (
    m,
    (validate_connection_files files flags.identity flags.config) >>= λ _.
        ok (made_options flags host command),
  )

  abbrev pub for_host :
      Bool → Bool → Bytes → List Bytes → Machine → Machine × Result CommandError Options
  for_host true timed_out host command m = (m, err (invalid_host host))
  for_host false timed_out host command m =
      with_files host command (check_agent_if flags.forward_agent timed_out m)

  -- The closure `options`, behind the check that there is a host.
  unfoldable pub options : Bool → List Bytes → Machine → Machine × Result CommandError Options
  options timed_out [] m = (m, err missing_host)
  options timed_out (host ∷ command) m = for_host (bad_host host) timed_out host command m

-- `executeSession`, on what `session.Run` returned.
unfoldable pub execute_session : Result RunError ℤ → Result CommandError (Unit {0})
execute_session (err e) = err (session_error e)
execute_session (ok (pos zero)) = ok tt
execute_session (ok code) = err (remote_exit code)

-- `ExitCode`
unfoldable pub exit_code_of : Result CommandError (Unit {0}) → ℤ
exit_code_of (ok _) = pos 0
exit_code_of (err (remote_exit code)) = code
exit_code_of (err e) = pos 1

-- The flags that `install` refuses, in the order of its test; `changed` says which were given.
abbrev pub unsupported_flags : List Bytes
unsupported_flags =
    codes "transport" ∷ codes "forward-agent" ∷ codes "local-forward" ∷ codes "remote-forward" ∷ []

unfoldable pub refuse_flags : List Bytes → (Bytes → Bool) → Result CommandError (Unit {0})
refuse_flags [] changed = ok tt
refuse_flags (flag ∷ flags) changed =
    let rest = refuse_flags flags changed in
    if changed flag then err (unsupported_flag flag) else rest

abbrev pub install_options : Options → List Bytes
install_options o =
    port_option o.ssh_port
    ++ (option_with (codes "-i") o.identity_file ++ option_with (codes "-F") o.config_file)

abbrev pub install_result :
    Machine × Result Bytes (Unit {0}) → Machine × Result CommandError (Unit {0})
install_result (m, err e) = (m, err (not_installed e))
install_result (m, ok _) = (m, ok tt)

abbrev pub install_found :
    Assets → Options → Machine → Outcome → Option Bytes → Machine × Result CommandError (Unit {0})
install_found assets o m out (some e) = (m, err (no_ssh e))
install_found assets o m out none =
    install_result (install assets out.stdout o.host (install_options o) m)

abbrev pub install_with :
    Assets → Machine × Result CommandError Options → Machine × Result CommandError (Unit {0})
install_with assets (m, err e) = (m, err e)
install_with assets (m, ok o) =
    let out = outcome (looked_up (codes "ssh")) m in
    install_found assets o (after (looked_up (codes "ssh")) m) out out.failure

abbrev pub install_unless :
    Assets
    → Files
    → Flags
    → Bool
    → Bytes
    → Machine
    → Result CommandError (Unit {0})
    → Machine × Result CommandError (Unit {0})
install_unless assets files flags timed_out host m (err e) = (m, err e)
install_unless assets files flags timed_out host m (ok _) =
    install_with assets (options files flags timed_out (host ∷ []) m)

-- The command `install` with its one argument.
unfoldable pub run_install :
    Assets
    → Files
    → Flags
    → (Bytes → Bool)
    → Bool
    → Bytes
    → Machine
    → Machine × Result CommandError (Unit {0})
run_install assets files flags changed timed_out host m =
    install_unless assets files flags timed_out host m (refuse_flags unsupported_flags changed)
