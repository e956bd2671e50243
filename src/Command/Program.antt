-- ===== src/Command/Program.antt =====
-- The program from its parsed command line to its exit code: the commands of internal/command/cli.go and
-- install.go, `Execute`, and main.go. The parsing of flags is the library's; what it gives is an argument.
-- A signal that ends the program itself, before it forwards signals, is not modelled.
pub mod Clean
pub mod Codes
use slush.Base.Int.{ℤ, pos, negsuc}
use slush.Base.{ℕ, ◌-◌, ◌%◌, Bool, Option, none, some, List, [], ◌∷◌, Result, ok, err, length}
use slush.Command.{
  CommandError, remote_exit, checks_failed, no_validation_token, wrong_arguments, Files, Flags,
  require_host, require_validation_host, options, execute_session, exit_code_of, run_install,
}
use slush.Machine.{Machine}
use slush.Protocol.Client.{Network}
use slush.Protocol.Listener.{Sockets}
use slush.Protocol.Token.{TokenError}
use slush.Remote.Provision.{Assets}
use slush.Session.Options.{Options}
use slush.Session.Run.{RunError, run}
use slush.Session.Tunnel.{Arrival}
use slush.Text.{Bytes}
use slush.Validate.Run.{Platform, Validated, run_validation}

-- The command that was chosen, with its arguments.
pub data Invocation : Type 0 where
  starts_session validates installs : List Bytes → Invocation

pub record World (D : Type 0) : Type 0 where
  pub machine : Machine
  pub desk : D
  pub sockets : Sockets

-- What the machine gives and the flags ask: the uploaded files, the files that exist, whether the agent
-- answered in time, whether standard input is a terminal, what arrives while the master starts, the random
-- bytes, the times, the name of the system, and what the system adds to a validation.
pub record Setting : Type 0 where
  pub assets : Assets
  pub files : Files
  pub flags : Flags
  pub changed : Bytes → Bool
  pub timed_out : Bool
  pub terminal : Bool
  pub arrivals : List Arrival
  pub random : Result Bytes Bytes
  pub times : ℕ × ℕ
  pub client : Bytes
  pub platform : Platform

abbrev pub Ending : Type 0 → Type 0
Ending D = World D × Result CommandError (Unit {0})

-- The error that `Execute` shows at the end. The exit of a remote command has been reported by that
-- command, and the report of a failed provisioning is an event of the machine.
unfoldable pub printed_error : Result CommandError (Unit {0}) → Option CommandError
printed_error (ok _) = none
printed_error (err (remote_exit code)) = none
printed_error (err e) = some e

-- What the system keeps of the code that `os.Exit` is given: its last eight bits.
abbrev pub exit_status : ℤ → ℕ
exit_status (pos n) = n % 256
exit_status (negsuc n) = 255 - n % 256

module _ {D : Type 0} (net : Network D) (set : Setting) where
  abbrev pub session_ended : D → Machine × Sockets × Result RunError ℤ → Ending D
  session_ended d (m, sockets, result) =
      (record { machine = m; desk = d; sockets = sockets }, execute_session result)

  abbrev pub session_with : World D → Machine × Result CommandError Options → Ending D
  session_with w (m, err e) = (record w { machine = m }, err e)
  session_with w (m, ok o) =
      session_ended w.desk (run set.assets o set.terminal set.arrivals set.random m w.sockets)

  abbrev pub run_root : World D → List Bytes → Result CommandError (Unit {0}) → Ending D
  run_root w args (err e) = (w, err e)
  run_root w args (ok _) = session_with w (options set.files set.flags set.timed_out args w.machine)

  abbrev pub validation_error : Result ℕ (Unit {0}) → Result CommandError (Unit {0})
  validation_error (ok _) = ok tt
  validation_error (err n) = err (checks_failed n)

  abbrev pub validation_ended : World D → Result TokenError (Validated net set.platform) → Ending D
  validation_ended w (err e) = (w, err (no_validation_token e))
  validation_ended w (ok v) = (
    record { machine = v.machine; desk = v.desk; sockets = v.sockets },
    validation_error v.result,
  )

  abbrev pub validation_with : World D → Machine × Result CommandError Options → Ending D
  validation_with w (m, err e) = (record w { machine = m }, err e)
  validation_with w (m, ok o) =
      validation_ended (record w { machine = m })
        (run_validation net set.platform set.assets o set.arrivals set.times set.client set.random m
          w.desk w.sockets)

  abbrev pub run_validate : World D → List Bytes → Result CommandError (Unit {0}) → Ending D
  run_validate w args (err e) = (w, err e)
  run_validate w args (ok _) =
      validation_with w (options set.files set.flags set.timed_out args w.machine)

  abbrev pub installation_ended : World D → Machine × Result CommandError (Unit {0}) → Ending D
  installation_ended w (m, result) = (record w { machine = m }, result)

  -- `install` takes exactly one argument.
  abbrev pub run_installation : World D → List Bytes → Ending D
  run_installation w [] = (w, err (wrong_arguments 0))
  run_installation w (host ∷ []) =
      installation_ended w
        (run_install set.assets set.files set.flags set.changed set.timed_out host w.machine)
  run_installation w (host ∷ arg ∷ args) = (w, err (wrong_arguments (length (host ∷ arg ∷ args))))

  -- The arguments are checked before the command runs.
  abbrev pub run_command : Invocation → World D → Ending D
  run_command (starts_session args) w = run_root w args (require_host args)
  run_command (validates args) w = run_validate w args (require_validation_host args)
  run_command (installs args) w = run_installation w args

  pub record Ended : Type 0 where
    pub world : World D
    pub printed : Option CommandError
    pub status : ℕ

  abbrev pub ended : Ending D → Ended
  ended (w, result) = record {
    world = w;
    printed = printed_error result;
    status = exit_status (exit_code_of result);
  }

  -- `Execute` and `main`
  unfoldable pub program : Invocation → World D → Ended
  program invocation w = ended (run_command invocation w)
