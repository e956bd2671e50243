-- ===== src/Remote/Provision.antt =====
-- internal/remote/provision.go and install.go: remote scripts over ssh, the environment file of a
-- session and the installation of the shims. The files that the build embeds are arguments.
pub mod Runs
use slush.Base.{
  ℕ, Bool, true, false, Option, none, some, List, [], ◌∷◌, ◌++◌, map, if◌then◌else◌, drop, Result,
  ok, err,
}
use slush.Machine.{Event, ran, Outcome, Machine, outcome, after}
use slush.Remote.Environment.{Environment, dir_expr}
use slush.Remote.Quote.{shell_quote}
use slush.Text.Decimal.{itoa}
use slush.Text.Trim.{trim_space}
use slush.Text.{Bytes, codes, equal, contains, split, join, replace_all}

pub record Assets : Type 0 where
  pub shim_script : Bytes
  pub bash_startup : Bytes
  pub zsh_startup : Bytes

abbrev pub version : Bytes
version = codes "4"

abbrev pub shim_names : List Bytes
shim_names =
    codes "pbcopy"
    ∷ codes "pbpaste"
    ∷ codes "wl-copy"
    ∷ codes "wl-paste"
    ∷ codes "xclip"
    ∷ codes "xsel"
    ∷ codes "xdg-open"
    ∷ codes "open"
    ∷ codes "slush-open"
    ∷ codes "sensible-browser"
    ∷ []

abbrev pub ssh_exec_args : Bytes → Bytes → List Bytes → List Bytes
ssh_exec_args host script extra =
    extra
    ++ (codes "-o"
        ∷ codes "BatchMode=yes"
        ∷ codes "-o"
        ∷ codes "ConnectTimeout=10"
        ∷ host
        ∷ script
        ∷ [])

abbrev pub ssh_exec_error : Bytes → Outcome → Bytes → Bytes
ssh_exec_error host out e =
    codes "ssh " ++ (host ++ (codes ": " ++ (e ++ (codes ": " ++ trim_space out.combined))))

unfoldable pub ssh_exec_result : Bytes → Outcome → Result Bytes Bytes
ssh_exec_result host out = elim out.failure [
  | none ↦ ok out.combined
  | some e ↦ err (ssh_exec_error host out e)
]

-- `SSHExec`. A reader for the standard input is given as its remaining text, and so returned; an
-- absent reader is the empty text.
unfoldable pub ssh_exec :
    Bytes → Bytes → Bytes → Bytes → List Bytes → Machine → Machine × Bytes × Result Bytes Bytes
ssh_exec path host script stdin extra m =
    let e = ran path (ssh_exec_args host script extra) stdin in
    let out = outcome e m in (after e m, drop out.consumed stdin, ssh_exec_result host out)

abbrev pub mux_options : Bytes → List Bytes
mux_options control_path = codes "-o" ∷ codes "ControlMaster=no" ∷ codes "-S" ∷ control_path ∷ []

abbrev pub without_reader : Machine × Bytes × Result Bytes Bytes → Machine × Result Bytes Bytes
without_reader (m, stdin, result) = (m, result)

abbrev pub or_directly :
    Bytes → Bytes → Bytes → Machine × Bytes × Result Bytes Bytes → Machine × Result Bytes Bytes
or_directly path host script (m, stdin, ok out) = (m, ok out)
or_directly path host script (m, stdin, err e) =
    without_reader (ssh_exec path host script stdin [] m)

-- `runProvisionExec`: both attempts read from the same reader.
unfoldable pub run_provision_exec :
    Bytes → Bytes → Bytes → Bytes → Bytes → Machine → Machine × Result Bytes Bytes
run_provision_exec path host [] script stdin m =
    without_reader (ssh_exec path host script stdin [] m)
run_provision_exec path host (c ∷ control_path) script stdin m =
    or_directly path host script
      (ssh_exec path host script stdin (mux_options (c ∷ control_path)) m)

unfoldable pub session_env_script : Environment → Bytes
session_env_script env =
    join
      (codes "umask 077"
        ∷ (codes "dir=\"" ++ (dir_expr ++ codes "\""))
        ∷ codes "mkdir -p \"$dir/bin\" || exit 1"
        ∷ codes ": >> \"$dir/slush-env\" || exit 1"
        ∷ codes "chmod 600 \"$dir/slush-env\" || exit 1"
        ∷ (codes "printf 'SLUSH_TOKEN=%s\\nSLUSH_PORT=%d\\n' "
            ++ (shell_quote env.token
                ++ (codes " " ++ (itoa env.port ++ codes " > \"$dir/slush-env\" || exit 1"))))
        ∷ codes "if ! command -v python3 >/dev/null 2>&1; then echo NO_PYTHON3; fi"
        ∷ codes "cat \"$dir/VERSION\" 2>/dev/null || echo MISSING"
        ∷ []
        ∷ [])
      (b'\n' ∷ [])

-- `strings.Lines` gives the same lines with their ends, which are trimmed away.
-- What one line of the remote answer says of the installed version and of python3.
abbrev pub read_line : Bytes → Bytes × Bool → Bytes × Bool
read_line line (installed, missing) =
    let word = trim_space line in
    if equal word (codes "NO_PYTHON3")
    then (installed, true)
    else if equal word []
    then (installed, missing)
    else (word, missing)

unfoldable pub read_lines : List Bytes → Bytes × Bool → Bytes × Bool
read_lines [] seen = seen
read_lines (line ∷ lines) seen = read_lines lines (read_line line seen)

unfoldable pub session_env_answer : Bytes → Bytes × Bool
session_env_answer out = read_lines (split (trim_space out) b'\n') ([], false)

abbrev pub answered : Machine × Result Bytes Bytes → Machine × Result Bytes (Bytes × Bool)
answered (m, err e) = (m, err e)
answered (m, ok out) = (m, ok (session_env_answer out))

-- `writeSessionEnv`
unfoldable pub write_session_env :
    Bytes → Bytes → Environment → Machine → Machine × Result Bytes (Bytes × Bool)
write_session_env path host env m =
    answered (run_provision_exec path host env.control_path (session_env_script env) [] m)

abbrev pub link_line : Bytes → Bytes
link_line name = codes "ln -sf slush-shim \"$bin/" ++ (name ++ codes "\" || exit 1")

unfoldable pub shim_install_script : Bytes
shim_install_script =
    join
      (codes "mkdir -p \"$bin\" || exit 1"
        ∷ codes "cat > \"$bin/slush-shim\" || exit 1"
        ∷ codes "chmod +x \"$bin/slush-shim\" || exit 1"
        ∷ map link_line shim_names)
      (b'\n' ∷ [])
    ++ b'\n' ∷ []

abbrev pub startup_line : Bytes → Bytes → Bytes
startup_line startup name =
    codes "printf '%s' "
    ++ (shell_quote (replace_all startup (codes "__STARTUP_FILE__") name)
        ++ (codes " > \"$dir/zsh/" ++ (name ++ codes "\" || exit 1")))

abbrev pub startup_lines : Bytes → List Bytes
startup_lines startup =
    codes "mkdir -p \"$dir/zsh\" || exit 1"
    ∷ map (startup_line startup)
        (codes ".zshenv" ∷ codes ".zprofile" ∷ codes ".zshrc" ∷ codes ".zlogin" ∷ [])

unfoldable pub install_script : Assets → Bytes
install_script assets =
    codes "dir=\""
    ++ (dir_expr
        ++ (codes "\"\nbin=\"$dir/bin\"\n"
            ++ (shim_install_script
                ++ (join (startup_lines assets.zsh_startup) (b'\n' ∷ [])
                    ++ (codes "\nprintf '%s' "
                        ++ (shell_quote assets.bash_startup
                            ++ (codes " > \"$dir/bashrc\" || exit 1\nprintf '%s' "
                                ++ (shell_quote version
                                    ++ codes
                                        " > \"$dir/VERSION\" || exit 1\necho INSTALLED\n"))))))))

-- The text of the error goes on with the output, quoted for display.
abbrev pub installed : Machine × Result Bytes Bytes → Machine × Result Bytes (Unit {0})
installed (m, err e) = (m, err e)
installed (m, ok out) =
    (m, if contains out (codes "INSTALLED") then ok tt else err (codes "unexpected install output"))

-- `installShims`
unfoldable pub install_shims :
    Assets → Bytes → Bytes → Environment → Machine → Machine × Result Bytes (Unit {0})
install_shims assets path host env m =
    installed
      (run_provision_exec path host env.control_path (install_script assets) assets.shim_script m)

abbrev pub provision_with :
    Assets
    → Bytes
    → Bytes
    → Environment
    → Machine × Result Bytes (Bytes × Bool)
    → Machine × Result Bytes (Unit {0})
provision_with assets path host env (m, err e) = (m, err e)
provision_with assets path host env (m, ok (found, true)) =
    (m, err (codes "remote has no python3; clipboard shims need it"))
provision_with assets path host env (m, ok (found, false)) = elim (equal found version) [
  | true ↦ (m, ok tt)
  | false ↦ install_shims assets path host env m
]

-- `Provision`
unfoldable pub provision :
    Assets → Bytes → Bytes → Environment → Machine → Machine × Result Bytes (Unit {0})
provision assets path host env m =
    provision_with assets path host env (write_session_env path host env m)

abbrev pub dropping_output :
    Machine × Bytes × Result Bytes Bytes → Machine × Result Bytes (Unit {0})
dropping_output (m, stdin, err e) = (m, err e)
dropping_output (m, stdin, ok out) = (m, ok tt)

unfoldable pub user_install_script : Bytes
user_install_script =
    codes
      "umask 022\ncommand -v python3 >/dev/null 2>&1 || { echo 'remote has no python3; clipboard shims need it' >&2; exit 1; }\nbin=\"${HOME:?}/.slush/bin\"\n"
    ++ shim_install_script

-- `Install`
unfoldable pub install :
    Assets → Bytes → Bytes → List Bytes → Machine → Machine × Result Bytes (Unit {0})
install assets path host options m =
    dropping_output (ssh_exec path host user_install_script assets.shim_script options m)
