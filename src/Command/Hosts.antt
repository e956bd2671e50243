-- ===== src/Command/Hosts.antt =====
-- The closure `options` of internal/command/cli.go, against the flags and arguments.
use slush.Base.{
  Bool, true, false, List, [], ◌∷◌, ◌≡◌, refl, inl, inr, arith, Result, ok, err, >>=-eq-ok,
  Bool-cases,
}
use slush.Command.{
  CommandError, Flags, Files, checked_file, validate_file, validate_connection_files,
  check_agent_if, bad_host, made_options, with_files, options,
}
use slush.Machine.{Machine}
use slush.Session.Client.Native.{session_host-native_options}
use slush.Session.Client.{session_host}
use slush.Session.Options.{Options, native_options}
use slush.Values.Forward.{forwards_configuration}
use slush.Text.{Bytes, codes, has_prefix, contains_any}

-- No file is named, or it is a regular one.
abbrev pub IsUsable : Files → Bytes → Type 0
IsUsable files [] = Unit {0}
IsUsable files (c ∷ path) = files (c ∷ path) ≡ ok true

-- The options of accepted flags and arguments.
pub record IsAccepted (files : Files) (flags : Flags) (args : List Bytes) (o : Options)
    : Type 0 where
  pub host : Bytes
  pub command : List Bytes
  pub same_args : args ≡ host ∷ command
  pub same_options : o ≡ record {
    transport = flags.transport;
    host = host;
    command = command;
    ssh_port = flags.port;
    identity_file = flags.identity;
    config_file = flags.config;
    forward_agent = flags.forward_agent;
    local_forwards = forwards_configuration flags.local;
    remote_forwards = forwards_configuration flags.remote;
  }
  pub no_flag : has_prefix host (codes "-") ≡ false
  pub no_space : contains_any host (codes "\r\n\t ") ≡ false
  pub identity : IsUsable files flags.identity
  pub config : IsUsable files flags.config

checked_file-ok :
    (flag path : Bytes) (r : Result Bytes Bool) → checked_file flag path r ≡ ok tt → r ≡ ok true
checked_file-ok flag path (err e) h = cc
checked_file-ok flag path (ok false) h = cc
checked_file-ok flag path (ok true) h = refl

validate_file-IsUsable :
    (files : Files) (flag path : Bytes)
    → validate_file files flag path ≡ ok tt
    → IsUsable files path
validate_file-IsUsable files flag [] h = tt
validate_file-IsUsable files flag (c ∷ path) h =
    checked_file-ok flag (c ∷ path) (files (c ∷ path)) h

module _ (files : Files) (flags : Flags) where
  with_files-IsAccepted :
      (host : Bytes) (command : List Bytes) (r : Machine × Result CommandError (Unit {0}))
      {o : Options}
      → bad_host host ≡ false
      → (with_files files flags host command r).1 ≡ ok o
      → IsAccepted files flags (host ∷ command) o
  unfolding bad_host validate_connection_files
  with_files-IsAccepted host command (m, err e) good h = cc
  with_files-IsAccepted host command (m, ok tt) good h =
      let (u, checked, made) =
        >>=-eq-ok (validate_connection_files files flags.identity flags.config) _ h in
      let (u', first, second) =
        >>=-eq-ok (validate_file files (codes "-i") flags.identity) _ checked in
      record {
        host = host;
        command = command;
        same_args = refl;
        same_options = ground arith;
        no_flag = ground arith;
        no_space = ground arith;
        identity = validate_file-IsUsable files (codes "-i") flags.identity first;
        config = validate_file-IsUsable files (codes "-F") flags.config second;
      }

  options-IsAccepted :
      (timed_out : Bool) (args : List Bytes) (m : Machine) {o : Options}
      → (options files flags timed_out args m).1 ≡ ok o
      → IsAccepted files flags args o
  unfolding options
  options-IsAccepted timed_out [] m h = cc
  options-IsAccepted timed_out (host ∷ command) m h = elim (Bool-cases (bad_host host)) [
    | inl bad ↦ let e = rw (bad, options) at h in cc
    | inr good ↦
        with_files-IsAccepted host command (check_agent_if flags.forward_agent timed_out m) good
          (rw (good, options) at h)
  ]

  -- When the command line is accepted, its first argument is the host that the session connects
  -- to, begins with no dash and has no blank, tab, CR or LF, the others are the command, each
  -- option is that of its flag, and the identity and the configuration, where given, are regular
  -- files.
  pub options-session_host :
      (timed_out : Bool) (args : List Bytes) (m : Machine) {o : Options}
      → (options files flags timed_out args m).1 ≡ ok o
      → (accepted : IsAccepted files flags args o) × (session_host (native_options o)
          ≡ ok accepted.host)
  options-session_host timed_out args m {o} h =
      let accepted = options-IsAccepted timed_out args m h in
      let made = made_options flags accepted.host accepted.command in
      (accepted, rw (accepted.same_options) (session_host-native_options made accepted.no_flag))
