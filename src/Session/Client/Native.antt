-- ===== src/Session/Client/Native.antt =====
-- What the clients are started with for a session's options.
use slush.Base.{
  Bool, true, ◌&&◌, none, some, List, [], ◌∷◌, ◌++◌, ◌≡◌, ◌≢◌, cons-ne-nil, refl, ap, ◌∙◌,
  if◌then◌else◌, all, append_assoc, ok,
}
use slush.Remote.Environment.{ssh_command, mosh_command, mosh_script}
use slush.Remote.Quote.Words.{
  words_from-shell_quote, words_from_blank, words_from-quoted_list, words_from-quoted_list_blank,
  words_from-word_blank, words_from-word_end,
}
use slush.Remote.Quote.{is_literal, unquoted, words_from, shell_words}
use slush.Session.Args.Client.{
  IsOperand, with_remote_env_ssh_lem, with_remote_env_mosh_lem, ssh_style, mosh_shell,
  ssh_style-host, mosh_args-host,
}
use slush.Session.Args.{
  SessionParams, ssh_environment, mosh_environment, control_path_option, add_to_ssh_option,
  with_mosh_ssh_control_path,
}
use slush.Session.Client.{
  host_for, session_host, ssh_client_args, mosh_client_args, client_args_for, quoted_options,
  mosh_wrapped, wrapped_command,
}
use slush.Session.Forward.{Transport, auto, ssh, mosh}
use slush.Session.Options.{
  Options, SessionOptions, conn_options, native_options, transport_args, mosh_args,
}
use slush.Text.{Bytes, codes, equal, cut_prefix}

host_for_lem :
    (m : Transport) (o : Options) → IsOperand o.host → host_for m (transport_args m o) ≡ ok o.host
host_for_lem auto o p = ssh_style-host o p
host_for_lem ssh o p = ssh_style-host o p
host_for_lem mosh o p = mosh_args-host o p

-- For every transport the session connects to the host of the options, if that does not begin with a
-- dash, whatever files, port and command stand beside it.
pub session_host-native_options :
    (o : Options) → IsOperand o.host → session_host (native_options o) ≡ ok o.host
unfolding session_host native_options
session_host-native_options o p = host_for_lem o.transport o p

-- `-t`, where an interactive shell has a terminal.
abbrev pub terminal_flag : Bool → List Bytes → List Bytes
terminal_flag wanted args = if wanted then codes "-t" ∷ args else args

module _ (o : Options) (params : SessionParams) (terminal : Bool) (p : IsOperand o.host) where
  -- The command line of ssh: the session's control path, a terminal if one is wanted, the connection
  -- options, the host, and the wrapped command.
  ssh_client_args_lem :
      ssh_client_args (record (native_options o) { args = ssh_style o }) params terminal
      ≡ ok (
          codes "-o"
          ∷ control_path_option params
          ∷ terminal_flag
              ((ssh_command o.command (ssh_environment params)).1 && terminal)
              (conn_options o ++ o.host ∷ (ssh_command o.command (ssh_environment params)).0 ∷ []))
  unfolding ssh_client_args native_options
  ssh_client_args_lem = rw (with_remote_env_ssh_lem o params p)

abbrev pub control_path_suffix : SessionParams → Bytes
control_path_suffix params = codes " -o " ++ control_path_option params

-- The ssh command with which mosh makes its first connection.
abbrev pub bootstrap_ssh : List Bytes → SessionParams → Bytes
bootstrap_ssh conn_opts params =
    codes "ssh -oForwardAgent=no " ++ (quoted_options conn_opts ++ control_path_suffix params)

add_to_bootstrap :
    (opt quoted : Bytes) (args : List Bytes)
    → args ≢ []
    → add_to_ssh_option opt
        (codes "--no-ssh-pty" ∷ (codes "--ssh=ssh -oForwardAgent=no " ++ quoted) ∷ args)
      ≡ some (
          codes "--no-ssh-pty"
          ∷ (codes "--ssh=ssh -oForwardAgent=no " ++ (quoted ++ b' ' ∷ opt))
          ∷ args)
unfolding add_to_ssh_option equal cut_prefix
add_to_bootstrap opt quoted [] h = absurd (h refl)
add_to_bootstrap opt quoted (a ∷ args) h = refl

with_control_path :
    (quoted : Bytes) (params : SessionParams) (args : List Bytes)
    → args ≢ []
    → with_mosh_ssh_control_path
        (codes "--no-ssh-pty" ∷ (codes "--ssh=ssh -oForwardAgent=no " ++ quoted) ∷ args)
        params
      ≡ codes "--no-ssh-pty"
        ∷ (codes "--ssh=ssh -oForwardAgent=no " ++ (quoted ++ control_path_suffix params))
        ∷ args
unfolding with_mosh_ssh_control_path
with_control_path quoted params args h = rw (
  add_to_bootstrap (codes "-o " ++ control_path_option params) quoted args h,
  with_mosh_ssh_control_path,
)

module _ (o : Options) (params : SessionParams) (p : IsOperand o.host) where
  mosh_client_args_lem :
      mosh_client_args (record (native_options o) { args = mosh_args o.host o.command }) params
      ≡ ok (
          codes "--no-ssh-pty"
          ∷ (codes "--ssh=" ++ bootstrap_ssh (conn_options o) params)
          ∷ codes "--"
          ∷ o.host
          ∷ mosh_command (mosh_shell o.command) (mosh_environment params))
  unfolding mosh_client_args native_options
  mosh_client_args_lem = rw (with_remote_env_mosh_lem o params p) (
      ap ok (
        with_control_path (quoted_options (conn_options o)) params
          (codes "--" ∷ o.host ∷ mosh_command (mosh_shell o.command) (mosh_environment params))
          (cons-ne-nil _ _)))

abbrev pub ssh_line : Options → SessionParams → Bool → List Bytes
ssh_line o params terminal =
    codes "-o"
    ∷ control_path_option params
    ∷ terminal_flag ((ssh_command o.command (ssh_environment params)).1 && terminal)
        (conn_options o ++ o.host ∷ (ssh_command o.command (ssh_environment params)).0 ∷ [])

-- The command line of the client for a transport.
abbrev pub client_line : Transport → Options → SessionParams → Bool → List Bytes
client_line mosh o params terminal =
    codes "--no-ssh-pty"
    ∷ (codes "--ssh=" ++ bootstrap_ssh (conn_options o) params)
    ∷ codes "--"
    ∷ o.host
    ∷ mosh_command (mosh_shell o.command) (mosh_environment params)
client_line ssh o params terminal = ssh_line o params terminal
client_line auto o params terminal = ssh_line o params terminal

client_args_lem :
    (m : Transport) (o : Options) (params : SessionParams) (terminal : Bool)
    → IsOperand o.host
    → client_args_for m (record (native_options o) { args = transport_args m o }) params terminal
      ≡ ok (client_line m o params terminal)
client_args_lem auto o params terminal p = ssh_client_args_lem o params terminal p
client_args_lem ssh o params terminal p = ssh_client_args_lem o params terminal p
client_args_lem mosh o params terminal p = mosh_client_args_lem o params p

-- If the host does not begin with a dash, ssh is started with the control path, -t for an
-- interactive shell on a terminal, the connection options, the host and one wrapped command; and
-- mosh with its bootstrap ssh, one separator, the host and the wrapped command.
pub client_args-native_options :
    (o : Options) (params : SessionParams) (terminal : Bool)
    → IsOperand o.host
    → client_args_for o.transport (native_options o) params terminal
      ≡ ok (client_line o.transport o params terminal)
unfolding native_options
client_args-native_options o params terminal p = client_args_lem o.transport o params terminal p

control_path_words :
    (params : SessionParams) (done : List Bytes)
    → all is_literal params.control_path ≡ true
    → words_from (codes "-o " ++ control_path_option params) unquoted none done
      ≡ some (done ++ (codes "-o" ∷ control_path_option params ∷ []))
control_path_words params done h =
    words_from-word_blank b'-' (codes "o") (control_path_option params) done
      (unfold is_literal in refl)
    ∙ words_from-word_end b'C' (codes "ontrolPath=" ++ params.control_path)
        (done ++ codes "-o" ∷ []) (unfold is_literal in h)
    ∙ ap some (append_assoc done (codes "-o" ∷ []) (control_path_option params ∷ []))

-- If the control path has only characters that need no quotes, the shell reads the bootstrap command
-- of mosh as ssh with the connection options, word for word, and the control path.
pub shell_words-bootstrap_ssh :
    (conn_opts : List Bytes) (params : SessionParams)
    → all is_literal params.control_path ≡ true
    → shell_words (bootstrap_ssh conn_opts params)
      ≡ some (
          codes "ssh"
          ∷ codes "-oForwardAgent=no"
          ∷ (conn_opts ++ (codes "-o" ∷ control_path_option params ∷ [])))
unfolding shell_words is_literal
shell_words-bootstrap_ssh conn_opts params h =
    words_from-word_blank b's' (codes "sh") _ [] refl
    ∙ words_from-word_blank b'-' (codes "oForwardAgent=no") _ _ refl
    ∙ words_from-quoted_list_blank conn_opts (codes "-o " ++ control_path_option params) _
    ∙ control_path_words params _ h

mosh_wrapped_words :
    (a b script : Bytes) (args : List Bytes)
    → shell_words (mosh_wrapped (a ∷ b ∷ script ∷ args))
      ≡ some (codes "sh" ∷ codes "-c" ∷ script ∷ args)
unfolding shell_words is_literal
mosh_wrapped_words a b script args =
    words_from-word_blank b's' (codes "h") _ [] refl
    ∙ words_from-word_blank b'-' (codes "c") _ _ refl
    ∙ words_from-shell_quote script _ _
    ∙ words_from_blank _ _ _
    ∙ words_from-quoted_list args _

-- In a mosh session the shell reads the text of `WrappedCommand` as the arguments that `MoshCommand`
-- makes of the command, whatever the token and the command hold.
pub wrapped_command-mosh :
    (options : SessionOptions) (params : SessionParams) (command : Bytes)
    → options.mode ≡ mosh
    → (text : Bytes) × (wrapped_command options params command ≡ ok text)
      × (shell_words text
          ≡ some (mosh_command (codes "sh" ∷ codes "-c" ∷ command ∷ []) (ssh_environment params)))
unfolding wrapped_command mosh_command
wrapped_command-mosh options params command m =
    let argv = codes "sh" ∷ codes "-c" ∷ command ∷ [] in
    let env = ssh_environment params in
    (
      mosh_wrapped (mosh_command argv env),
      rw m refl,
      mosh_wrapped_words (codes "sh") (codes "-c") (mosh_script argv env) (codes "sh" ∷ argv),
    )
