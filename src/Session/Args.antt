-- ===== src/Session/Args.antt =====
-- internal/session/args.go: where the host stands in ssh-style and mosh-style arguments, and the
-- arguments with the session's environment.
pub mod Index
pub mod Ssh
pub mod Split
pub mod Client
use slush.Base.{
  ℕ, suc, ◌+◌, ◌-◌, Bool, true, false, not, ◌&&◌, Option, none, some, List, [], ◌∷◌, ◌++◌, ◌==◌,
  ltb, if◌then◌else◌, length, take, drop, get_or, Result, ok, err, ◌>>=◌,
}
use slush.Remote.Environment.{Environment, ssh_command, mosh_command}
use slush.Text.{Bytes, codes, equal, one_of, has_prefix, cut_prefix, has_byte}

pub data ArgsError : Type 0 where
  missing_destination : Bytes → ArgsError

-- The values of a session that go into the clients' arguments.
pub record SessionParams : Type 0 where
  pub control_path : Bytes
  pub token : Bytes
  pub agent_socket : Bytes
  pub remote_port : ℕ

unfoldable pub is_ssh_option : Bytes → Bool
is_ssh_option arg = if equal arg (codes "-") then false else has_prefix arg (codes "-")

abbrev pub ssh_flags_with_arg : List Bytes
ssh_flags_with_arg =
    codes "-b"
    ∷ codes "-c"
    ∷ codes "-D"
    ∷ codes "-E"
    ∷ codes "-F"
    ∷ codes "-I"
    ∷ codes "-J"
    ∷ codes "-L"
    ∷ codes "-R"
    ∷ codes "-S"
    ∷ codes "-W"
    ∷ codes "-Q"
    ∷ codes "-l"
    ∷ codes "-i"
    ∷ codes "-m"
    ∷ codes "-o"
    ∷ codes "-p"
    ∷ codes "-G"
    ∷ codes "-w"
    ∷ []

unfoldable pub ssh_flag_takes_arg : Bytes → Bool
ssh_flag_takes_arg flag = one_of ssh_flags_with_arg flag

unfoldable pub is_combined_ssh_flag : Bytes → Bool
is_combined_ssh_flag arg =
    ltb 2 (length arg)
    && has_prefix arg (codes "-")
    && not (has_prefix arg (codes "--"))
    && ssh_flag_takes_arg (take 2 arg)

-- What the loop of `sshHostIndex` does at an argument: it ends at the argument after this one, or at
-- this one, or it goes on, after the next argument if that is the option's value.
pub data Scan : Type 0 where
  separator found_here go_on skip_value : Scan

unfoldable pub ssh_scan : Bytes → Scan
ssh_scan arg =
    if equal arg (codes "--")
    then separator
    else if not (is_ssh_option arg)
    then (if equal arg (codes "-") then go_on else found_here)
    else if is_combined_ssh_flag arg
    then go_on
    else if ssh_flag_takes_arg arg
    then skip_value
    else go_on

-- The loops of `sshHostIndex` and `destinationHostAt`, from the argument with index `i` on.
module _ (client : Bytes) (scan : Bytes → Scan) where
  unfoldable pub index_from : List Bytes → ℕ → Result ArgsError ℕ
  index_from [] i = err (missing_destination client)
  index_from (arg ∷ []) i = elim (scan arg) [
    | found_here ↦ ok i
    | _ ↦ err (missing_destination client)
  ]
  index_from (arg ∷ next ∷ rest) i = elim (scan arg) [
    | separator ↦ ok (i + 1)
    | found_here ↦ ok i
    | go_on ↦ index_from (next ∷ rest) (i + 1)
    | skip_value ↦ index_from rest (i + 2)
  ]

unfoldable pub ssh_host_index : List Bytes → Result ArgsError ℕ
ssh_host_index args = index_from (codes "ssh") ssh_scan args 0

unfoldable pub ssh_host_operand : List Bytes → Result ArgsError Bytes
ssh_host_operand args = do i ← ssh_host_index args; ok (get_or args i [])

-- `args[:idx+1]` and `args[idx+1:]`
unfoldable pub split_ssh_remote_command : List Bytes → Result ArgsError (List Bytes × List Bytes)
split_ssh_remote_command args = do
  i ← ssh_host_index args
  ok (take (suc i) args, drop (suc i) args)

abbrev pub ssh_environment : SessionParams → Environment
ssh_environment params = record {
  control_path = [];
  token = params.token;
  port = params.remote_port;
  agent_socket = [];
}

abbrev pub mosh_environment : SessionParams → Environment
mosh_environment params = record {
  control_path = [];
  token = params.token;
  port = params.remote_port;
  agent_socket = params.agent_socket;
}

unfoldable pub with_remote_env_ssh :
    List Bytes → SessionParams → Result ArgsError (List Bytes × Bool)
with_remote_env_ssh rest params = do
  (head, command) ← split_ssh_remote_command rest
  let wrapped = ssh_command command (ssh_environment params)
  ok (head ++ wrapped.0 ∷ [], wrapped.1)

abbrev pub control_path_option : SessionParams → Bytes
control_path_option params = codes "ControlPath=" ++ params.control_path

abbrev pub with_ssh_control_path : List Bytes → SessionParams → List Bytes
with_ssh_control_path args params = codes "-o" ∷ control_path_option params ∷ args

abbrev pub mosh_flags_with_arg : List Bytes
mosh_flags_with_arg =
    codes "--client"
    ∷ codes "--server"
    ∷ codes "--predict"
    ∷ codes "--family"
    ∷ codes "--port"
    ∷ codes "-p"
    ∷ codes "--ssh"
    ∷ codes "--bind-server"
    ∷ codes "--experimental-remote-ip"
    ∷ []

unfoldable pub mosh_flag_takes_arg : Bytes → Bool
mosh_flag_takes_arg flag = one_of mosh_flags_with_arg flag

unfoldable pub is_mosh_combined_short_opt : Bytes → Bool
is_mosh_combined_short_opt arg = elim (cut_prefix arg (codes "-p")) [
  | none ↦ false
  | some after ↦ not (equal after [])
]

unfoldable pub mosh_scan : Bytes → Scan
mosh_scan arg =
    if equal arg (codes "--")
    then separator
    else if not (has_prefix arg (codes "-"))
    then found_here
    else if has_prefix arg (codes "--") && has_byte arg b'='
    then go_on
    else if is_mosh_combined_short_opt arg
    then go_on
    else if mosh_flag_takes_arg arg
    then skip_value
    else go_on

unfoldable pub destination_host_at : List Bytes → Result ArgsError (Bytes × ℕ)
destination_host_at args = do
  i ← index_from (codes "mosh") mosh_scan args 0
  ok (get_or args i [], i)

unfoldable pub mosh_destination : List Bytes → Result ArgsError Bytes
mosh_destination args = do (host, i) ← destination_host_at args; ok host

-- The arguments without a separator at their end.
unfoldable pub without_separator : List Bytes → List Bytes
without_separator [] = []
without_separator (a ∷ []) = if equal a (codes "--") then [] else a ∷ []
without_separator (a ∷ b ∷ args) = a ∷ without_separator (b ∷ args)

unfoldable pub split_mosh_command : List Bytes → Result ArgsError (List Bytes × Bytes × List Bytes)
split_mosh_command args = do
  (host, i) ← destination_host_at args
  ok (without_separator (take i args), host, drop (suc i) args)

unfoldable pub with_remote_env_mosh : List Bytes → SessionParams → Result ArgsError (List Bytes)
with_remote_env_mosh args params = do
  (pre, host, command) ← split_mosh_command args
  ok (pre ++ (codes "--" ∷ host ∷ mosh_command command (mosh_environment params)))

abbrev pub ssh_equals : Bytes
ssh_equals = codes "--ssh="

-- The first `--ssh` option with the path added, or `none` if there is no such option.
unfoldable pub add_to_ssh_option : Bytes → List Bytes → Option (List Bytes)
add_to_ssh_option opt [] = none
add_to_ssh_option opt (a ∷ []) = elim (cut_prefix a ssh_equals) [
  | some after ↦ some ((ssh_equals ++ (after ++ b' ' ∷ opt)) ∷ [])
  | none ↦ none
]
add_to_ssh_option opt (a ∷ b ∷ args) =
    let later = add_to_ssh_option opt (b ∷ args) in
    if equal a (codes "--ssh")
    then some (a ∷ (b ++ b' ' ∷ opt) ∷ args)
    else elim (cut_prefix a ssh_equals) [
      | some after ↦ some ((ssh_equals ++ (after ++ b' ' ∷ opt)) ∷ b ∷ args)
      | none ↦ elim later [ none ↦ none | some out ↦ some (a ∷ out) ]
    ]

unfoldable pub with_mosh_ssh_control_path : List Bytes → SessionParams → List Bytes
with_mosh_ssh_control_path args params =
    let opt = codes "-o " ++ control_path_option params in
    elim (add_to_ssh_option opt args) [ some out ↦ out | none ↦ (codes "--ssh=ssh " ++ opt) ∷ args ]
