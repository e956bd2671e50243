-- ===== src/Remote/Environment.antt =====
-- internal/remote/environment.go: the environment of a remote session and the commands run in it.
use slush.Base.{ℕ, Bool, true, false, List, [], ◌∷◌, ◌++◌, if◌then◌else◌}
use slush.Remote.Quote.{shell_quote}
use slush.Text.Decimal.{itoa}
use slush.Text.{Bytes, codes, join}

pub record Environment : Type 0 where
  pub control_path : Bytes
  pub token : Bytes
  pub port : ℕ
  pub agent_socket : Bytes

unfoldable pub dir_expr : Bytes
dir_expr = codes "${XDG_CACHE_HOME:-$HOME/.cache}/slush"

unfoldable pub shim_dir_expr : Bytes
shim_dir_expr = codes "\"${XDG_CACHE_HOME:-$HOME/.cache}/slush/bin\""

unfoldable pub env_prefix : Environment → Bytes
env_prefix env =
    codes "export SLUSH=1 SLUSH_TOKEN="
    ++ (env.token
        ++ (codes " SLUSH_PORT="
            ++ (itoa env.port
                ++ (codes " BROWSER=slush-open PATH=" ++ (shim_dir_expr ++ codes ":$PATH; ")))))

unfoldable pub interactive_shell_command : Bytes
interactive_shell_command =
    codes
      "case \"${SHELL:-/bin/sh}\" in */bash) exec \"$SHELL\" --rcfile \"${XDG_CACHE_HOME:-$HOME/.cache}/slush/bashrc\" -i ;; */zsh) export SLUSH_ZDOTDIR=\"${ZDOTDIR-}\" ZDOTDIR=\"${XDG_CACHE_HOME:-$HOME/.cache}/slush/zsh\"; exec \"$SHELL\" -l ;; *) exec \"${SHELL:-/bin/sh}\" -l ;; esac"

abbrev pub no_command : List Bytes → Bool
no_command [] = true
no_command (c ∷ command) = false

-- The shell command, and whether it starts an interactive shell.
unfoldable pub ssh_command : List Bytes → Environment → Bytes × Bool
ssh_command command env =
    let interactive = no_command command in
    let tail = if interactive then interactive_shell_command else join command (codes " ") in
    (env_prefix env ++ tail, interactive)

abbrev pub is_nil : Bytes → Bool
is_nil [] = true
is_nil (c ∷ s) = false

unfoldable pub agent_export : Environment → Bytes
agent_export env =
    if is_nil env.agent_socket
    then []
    else codes "export SSH_AUTH_SOCK=" ++ (shell_quote env.agent_socket ++ codes "; ")

-- The script of `MoshCommand`, and the arguments behind it.
unfoldable pub mosh_script : List Bytes → Environment → Bytes
mosh_script command env =
    (env_prefix env ++ agent_export env)
    ++ (if no_command command then interactive_shell_command else codes "exec \"$@\"")

abbrev pub mosh_tail : List Bytes → List Bytes
mosh_tail [] = []
mosh_tail (c ∷ command) = codes "sh" ∷ c ∷ command

unfoldable pub mosh_command : List Bytes → Environment → List Bytes
mosh_command command env = codes "sh" ∷ codes "-c" ∷ mosh_script command env ∷ mosh_tail command
