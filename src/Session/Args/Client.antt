-- ===== src/Session/Args/Client.antt =====
-- The arguments of the clients for a session's options.
use slush.Base.{
  subst, append-nil, drop, ℕ, false, List, [], ◌∷◌, ◌++◌, ◌≡◌, refl, ap, arith, ◌==◌, ok,
  append_assoc, Bool-cases, inl, inr,
}
use slush.Remote.Environment.{ssh_command, mosh_command}
use slush.Session.Args.Index.{HostAt, here, past_value}
use slush.Session.Args.Split.{
  split_ssh_remote_command-HostAt, ssh_host_operand-HostAt, destination_host_at-HostAt,
}
use slush.Session.Args.{
  SessionParams, found_here, skip_value, ssh_scan, mosh_scan, is_ssh_option, is_combined_ssh_flag,
  ssh_flag_takes_arg, ssh_host_operand, mosh_destination, ssh_environment, mosh_environment,
  with_remote_env_ssh, with_remote_env_mosh, split_mosh_command, without_separator,
}
use slush.Session.Options.{Options, option_with, port_option, conn_options, mosh_args}
use slush.Text.{Bytes, codes, equal, one_of, has_prefix, join}

-- The host is no option, as the command line has checked.
abbrev pub IsOperand : Bytes → Type 0
IsOperand h = has_prefix h (codes "-") ≡ false

ssh_scan-IsOperand : (h : Bytes) → IsOperand h → ssh_scan h ≡ found_here
unfolding ssh_scan is_ssh_option has_prefix equal
ssh_scan-IsOperand [] p = refl
ssh_scan-IsOperand (c ∷ h) p = ground arith

mosh_scan-IsOperand : (h : Bytes) → IsOperand h → mosh_scan h ≡ found_here
unfolding mosh_scan has_prefix equal
mosh_scan-IsOperand [] p = refl
mosh_scan-IsOperand (c ∷ h) p = ground arith

ssh_scan_flags :
    (ssh_scan (codes "-o") ≡ skip_value)
    × (ssh_scan (codes "-p") ≡ skip_value)
    × (ssh_scan (codes "-i") ≡ skip_value)
    × (ssh_scan (codes "-F") ≡ skip_value)
unfolding ssh_scan is_ssh_option is_combined_ssh_flag ssh_flag_takes_arg one_of has_prefix equal
ssh_scan_flags = (refl, refl, refl, refl)

module _ {args pre : List Bytes} {h : Bytes} {command : List Bytes} where
  option_with-HostAt :
      (flag value : Bytes)
      → ssh_scan flag ≡ skip_value
      → HostAt ssh_scan args pre h command
      → HostAt ssh_scan (option_with flag value ++ args) (option_with flag value ++ pre) h command
  option_with-HostAt flag [] e at = at
  option_with-HostAt flag (c ∷ value) e at = past_value e at

  port_option-HostAt :
      (port : ℕ)
      → HostAt ssh_scan args pre h command
      → HostAt ssh_scan (port_option port ++ args) (port_option port ++ pre) h command
  port_option-HostAt port at = elim (Bool-cases (port == 0)) [
    | inl none_given ↦ rw none_given at
    | inr given ↦ rw given (past_value ssh_scan_flags.1 at)
  ]

-- The command that mosh runs: a shell with the words of the user's command, if there is one.
abbrev pub mosh_shell : List Bytes → List Bytes
mosh_shell [] = []
mosh_shell (c ∷ command) = codes "sh" ∷ codes "-c" ∷ join (c ∷ command) (codes " ") ∷ []

drop_mosh :
    (host : Bytes) (command : List Bytes) → drop 1 (mosh_args host command) ≡ mosh_shell command
drop_mosh host [] = refl
drop_mosh host (c ∷ command) = refl

-- Behind the connection options stands the host.
conn_options-HostAt :
    (o : Options) {h : Bytes} {command : List Bytes}
    → IsOperand h
    → HostAt ssh_scan (conn_options o ++ h ∷ command) (conn_options o) h command
unfolding conn_options
conn_options-HostAt o {h} {command} p =
    let at : HostAt ssh_scan (h ∷ command) [] h command = here (ssh_scan-IsOperand h p) in
    let config = option_with (codes "-F") o.config_file in
    let identity = option_with (codes "-i") o.identity_file in
    let behind_config : HostAt ssh_scan (config ++ h ∷ command) config h command =
      subst (λ pre. HostAt ssh_scan (config ++ h ∷ command) pre h command) (append-nil config)
        (option_with-HostAt (codes "-F") o.config_file ssh_scan_flags.3 at) in
    let behind_identity =
      option_with-HostAt (codes "-i") o.identity_file ssh_scan_flags.2 behind_config in
    past_value ssh_scan_flags.0 (
      rw
        (
          append_assoc (port_option o.ssh_port) (identity ++ config) (h ∷ command),
          append_assoc identity config (h ∷ command),
        )
        (port_option-HostAt o.ssh_port behind_identity))

-- The ssh arguments of the options, with the host behind the connection options.
abbrev pub ssh_style : Options → List Bytes
ssh_style o = conn_options o ++ o.host ∷ o.command

module _ (o : Options) (p : IsOperand o.host) where
  -- The session's host is the host of the options, whatever the other options are.
  pub ssh_style-host : ssh_host_operand (ssh_style o) ≡ ok o.host
  ssh_style-host = ssh_host_operand-HostAt (conn_options-HostAt o p)

  mosh_args-HostAt :
      (command : List Bytes)
      → HostAt mosh_scan (mosh_args o.host command) [] o.host (mosh_shell command)
  mosh_args-HostAt [] = here (mosh_scan-IsOperand o.host p)
  mosh_args-HostAt (c ∷ command) = here (mosh_scan-IsOperand o.host p)

  pub mosh_args-host : mosh_destination (mosh_args o.host o.command) ≡ ok o.host
  unfolding mosh_destination
  mosh_args-host = rw (destination_host_at-HostAt (mosh_args-HostAt o.command))

  split_mosh_command_lem :
      split_mosh_command (mosh_args o.host o.command) ≡ ok ([], o.host, mosh_shell o.command)
  unfolding split_mosh_command without_separator
  split_mosh_command_lem =
      rw (destination_host_at-HostAt (mosh_args-HostAt o.command))
        (ap (λ c. ok ([], o.host, c)) (drop_mosh o.host o.command))

module _ (o : Options) (params : SessionParams) (p : IsOperand o.host) where
  -- ssh runs with the connection options, the host, and the wrapped command alone.
  pub with_remote_env_ssh_lem :
      with_remote_env_ssh (ssh_style o) params
      ≡ ok (
        conn_options o ++ o.host ∷ (ssh_command o.command (ssh_environment params)).0 ∷ [],
        (ssh_command o.command (ssh_environment params)).1,
      )
  unfolding with_remote_env_ssh
  with_remote_env_ssh_lem =
      rw (split_ssh_remote_command-HostAt (conn_options-HostAt o {command = o.command} p))
        (rw append_assoc)

  -- mosh runs with one separator, the host, and the wrapped command.
  pub with_remote_env_mosh_lem :
      with_remote_env_mosh (mosh_args o.host o.command) params
      ≡ ok (codes "--" ∷ o.host ∷ mosh_command (mosh_shell o.command) (mosh_environment params))
  unfolding with_remote_env_mosh
  with_remote_env_mosh_lem = rw (split_mosh_command_lem o p)
