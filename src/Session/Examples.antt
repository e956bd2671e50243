-- ===== src/Session/Examples.antt =====
-- The theorems on the clients' arguments at concrete inputs.
use slush.Base.{true, false, some, List, [], ◌∷◌, ◌++◌, ◌≡◌, ◌↔◌, refl, ok, map, all}
use slush.Remote.Environment.{mosh_command}
use slush.Remote.Quote.Words.{shell_words-shell_quote}
use slush.Remote.Quote.{shell_quote, shell_words, is_literal}
use slush.Session.Args.Ssh.{SshHostAt}
use slush.Session.Args.Split.{split_ssh_remote_command_iff}
use slush.Session.Args.{
  SessionParams, split_ssh_remote_command, ssh_environment, control_path_option,
}
use slush.Session.Client.Native.{
  client_line, bootstrap_ssh, client_args-native_options, shell_words-bootstrap_ssh,
  wrapped_command-mosh,
}
use slush.Session.Client.{client_args_for, wrapped_command}
use slush.Session.Forward.{mosh}
use slush.Session.Options.{Options, native_options}
use slush.Text.{Bytes, codes, has_prefix, join}

abbrev options : Options
options = record {
  transport = mosh;
  host = codes "user@host";
  command = codes "ls" ∷ codes "-l" ∷ [];
  ssh_port = 2222;
  identity_file = codes "-odd key";
  config_file = [];
  forward_agent = true;
  local_forwards = [];
  remote_forwards = [];
}

abbrev params : SessionParams
params = record {
  control_path = codes "/tmp/slush-ssh-1/control";
  token = codes "0123456789abcdef";
  agent_socket = [];
  remote_port = 4000;
}

host-IsOperand : has_prefix options.host (codes "-") ≡ false
unfolding has_prefix
host-IsOperand = refl

client_args-native_options_example :
    client_args_for mosh (native_options options) params true
    ≡ ok (client_line mosh options params true)
client_args-native_options_example = client_args-native_options options params true host-IsOperand

path_is_literal : all is_literal params.control_path ≡ true
unfolding is_literal
path_is_literal = refl

shell_words-bootstrap_ssh_example :
    shell_words (bootstrap_ssh (codes "-i" ∷ codes "it's" ∷ []) params)
    ≡ some (
        codes "ssh"
        ∷ codes "-oForwardAgent=no"
        ∷ ((codes "-i" ∷ codes "it's" ∷ []) ++ (codes "-o" ∷ control_path_option params ∷ [])))
shell_words-bootstrap_ssh_example =
    shell_words-bootstrap_ssh (codes "-i" ∷ codes "it's" ∷ []) params path_is_literal

native_mode : (native_options options).mode ≡ mosh
unfolding native_options
native_mode = refl

wrapped_command-mosh_example :
    (text : Bytes) × (wrapped_command
        (native_options options)
        params
        (codes "printf '%s' \"$SLUSH\"")
      ≡ ok text)
    × (shell_words text
        ≡ some (
            mosh_command
              (codes "sh" ∷ codes "-c" ∷ codes "printf '%s' \"$SLUSH\"" ∷ [])
              (ssh_environment params)))
wrapped_command-mosh_example =
    wrapped_command-mosh (native_options options) params (codes "printf '%s' \"$SLUSH\"")
      native_mode

shell_words-shell_quote_example :
    shell_words (join (map shell_quote (codes "it's" ∷ [] ∷ codes "$x" ∷ [])) (codes " "))
    ≡ some (codes "it's" ∷ [] ∷ codes "$x" ∷ [])
shell_words-shell_quote_example = shell_words-shell_quote (codes "it's" ∷ [] ∷ codes "$x" ∷ [])

split_ssh_remote_command_iff_example :
    (split_ssh_remote_command (codes "-p" ∷ codes "22" ∷ codes "host" ∷ codes "ls" ∷ [])
      ≡ ok (codes "-p" ∷ codes "22" ∷ codes "host" ∷ [], codes "ls" ∷ []))
    ↔ ((pre : List Bytes) × (h : Bytes) × SshHostAt
          (codes "-p" ∷ codes "22" ∷ codes "host" ∷ codes "ls" ∷ [])
          pre
          h
          (codes "ls" ∷ [])
        × ((codes "-p" ∷ codes "22" ∷ codes "host" ∷ []) ≡ pre ++ h ∷ []))
split_ssh_remote_command_iff_example =
    split_ssh_remote_command_iff (codes "-p" ∷ codes "22" ∷ codes "host" ∷ codes "ls" ∷ [])
      (codes "-p" ∷ codes "22" ∷ codes "host" ∷ []) (codes "ls" ∷ [])
