-- ===== src/Session/Client.antt =====
-- The clients' arguments in internal/session/session.go: `sessionHost`, `sshClientArgs`,
-- `moshClientArgs` and `WrappedCommand`.
pub mod Native
use slush.Base.{
  Bool, true, false, ◌&&◌, List, [], ◌∷◌, ◌++◌, map, if◌then◌else◌, drop, get_or, Result, ok, err,
  ◌>>=◌,
}
use slush.Remote.Environment.{Environment, mosh_command}
use slush.Remote.Quote.{shell_quote}
use slush.Session.Args.{
  ArgsError, SessionParams, ssh_host_operand, mosh_destination, split_ssh_remote_command,
  ssh_environment, with_remote_env_ssh, with_remote_env_mosh, with_ssh_control_path,
  with_mosh_ssh_control_path,
}
use slush.Session.Forward.{Transport, auto, ssh, mosh}
use slush.Session.Options.{SessionOptions}
use slush.Text.{Bytes, codes, join}

abbrev pub host_for : Transport → List Bytes → Result ArgsError Bytes
host_for mosh args = mosh_destination args
host_for ssh args = ssh_host_operand args
host_for auto args = ssh_host_operand args

-- `sessionHost`
unfoldable pub session_host : SessionOptions → Result ArgsError Bytes
session_host options = host_for options.mode options.args

-- `sshClientArgs`; the flag says whether standard input is a terminal.
unfoldable pub ssh_client_args :
    SessionOptions → SessionParams → Bool → Result ArgsError (List Bytes)
ssh_client_args options params terminal = do
  (args, interactive) ← with_remote_env_ssh options.args params
  let client_args = if interactive && terminal then codes "-t" ∷ args else args
  ok (with_ssh_control_path client_args params)

abbrev pub quoted_options : List Bytes → Bytes
quoted_options conn_opts = join (map shell_quote conn_opts) (codes " ")

-- `moshClientArgs`
unfoldable pub mosh_client_args : SessionOptions → SessionParams → Result ArgsError (List Bytes)
mosh_client_args options params = do
  args ← with_remote_env_mosh options.args params
  let bootstrap = codes "--ssh=ssh -oForwardAgent=no " ++ quoted_options options.conn_opts
  ok (with_mosh_ssh_control_path (codes "--no-ssh-pty" ∷ bootstrap ∷ args) params)

-- The arguments of `runClient`, for the selected transport.
abbrev pub client_args_for :
    Transport → SessionOptions → SessionParams → Bool → Result ArgsError (List Bytes)
client_args_for mosh options params terminal = mosh_client_args options params
client_args_for ssh options params terminal = ssh_client_args options params terminal
client_args_for auto options params terminal = ssh_client_args options params terminal

abbrev pub last_of : List Bytes → Bytes
last_of [] = []
last_of (a ∷ []) = a
last_of (a ∷ b ∷ args) = last_of (b ∷ args)

abbrev pub mosh_wrapped : List Bytes → Bytes
mosh_wrapped wrapped =
    codes "sh -c "
    ++ (shell_quote (get_or wrapped 2 [])
        ++ b' ' ∷ join (map shell_quote (drop 3 wrapped)) (codes " "))

abbrev pub ssh_wrapped : SessionOptions → SessionParams → Bytes → Result ArgsError Bytes
ssh_wrapped options params command = do
  (head, rest) ← split_ssh_remote_command (options.args ++ codes "true" ∷ [])
  (wrapped, interactive) ← with_remote_env_ssh (head ++ command ∷ []) params
  ok (last_of wrapped)

abbrev pub wrapped_for : Transport → SessionOptions → SessionParams → Bytes → Result ArgsError Bytes
wrapped_for mosh options params command =
    ok (
      mosh_wrapped (mosh_command (codes "sh" ∷ codes "-c" ∷ command ∷ []) (ssh_environment params)))
wrapped_for ssh options params command = ssh_wrapped options params command
wrapped_for auto options params command = ssh_wrapped options params command

-- `WrappedCommand`
unfoldable pub wrapped_command : SessionOptions → SessionParams → Bytes → Result ArgsError Bytes
wrapped_command options params command = wrapped_for options.mode options params command
