-- ===== src/Remote/Provision/Runs.antt =====
-- The commands that provisioning runs, and what it makes of the remote answer.
use slush.Base.{
  Bool, true, false, ◌&&◌, ◌||◌, not, List, [], ◌∷◌, ◌≡◌, ◌≢◌, cons-ne-nil, refl, inl, inr, arith,
  map, any, ok, err, drop, some, none, if◌then◌else◌, Option-cases, Result-cases, Bool-cases,
}
use slush.Machine.Held.{HoldsSame, HoldsSame-ran, HoldsSame-trans, HoldsSame-log}
use slush.Machine.{Event, ran, Outcome, Machine, outcome}
use slush.Remote.Environment.{Environment}
use slush.Remote.Provision.{
  Assets, version, ssh_exec_args, ssh_exec, ssh_exec_result, ssh_exec_error, mux_options,
  run_provision_exec, session_env_script, read_lines, write_session_env, install_script,
  install_shims, provision, provision_with, session_env_answer,
}
use slush.Text.Trim.{trim_space}
use slush.Text.{Bytes, codes, equal, split}

-- The run that goes through the master, and the direct one.
abbrev pub multiplexed : Bytes → Bytes → Bytes → Bytes → Bytes → Event
multiplexed path host control_path script stdin =
    ran path (ssh_exec_args host script (mux_options control_path)) stdin

abbrev pub direct : Bytes → Bytes → Bytes → Bytes → Event
direct path host script stdin = ran path (ssh_exec_args host script []) stdin

ssh_exec_result-failed :
    (host e : Bytes) (out : Outcome)
    → out.failure ≡ some e
    → ssh_exec_result host out ≡ err (ssh_exec_error host out e)
unfolding ssh_exec_result
ssh_exec_result-failed host e out failed = rw failed refl

ssh_exec_result-fine :
    (host : Bytes) (out : Outcome) → out.failure ≡ none → ssh_exec_result host out ≡ ok out.combined
unfolding ssh_exec_result
ssh_exec_result-fine host out fine = rw fine refl

-- When there is a control path and the run through the master fails, the script is run again directly,
-- and the standard input of that run is what the first run has left of it.
pub run_provision_exec_fallback :
    (path host script stdin control_path e : Bytes) (m : Machine)
    → control_path ≢ []
    → (outcome (multiplexed path host control_path script stdin) m).failure ≡ some e
    → (run_provision_exec path host control_path script stdin m).0.log
      ≡ direct path host script
          (drop (outcome (multiplexed path host control_path script stdin) m).consumed stdin)
        ∷ multiplexed path host control_path script stdin
        ∷ m.log
unfolding run_provision_exec ssh_exec
run_provision_exec_fallback path host script stdin [] e m ne failed = absurd (ne refl)
run_provision_exec_fallback path host script stdin (c ∷ control_path) e m ne failed = rw (
  ssh_exec_result-failed host e (outcome (multiplexed path host (c ∷ control_path) script stdin) m)
      failed,
  run_provision_exec,
)

run_provision_exec_once :
    (path host script stdin control_path : Bytes) (m : Machine)
    → control_path ≢ []
    → (outcome (multiplexed path host control_path script stdin) m).failure ≡ none
    → (run_provision_exec path host control_path script stdin m).0.log
      ≡ multiplexed path host control_path script stdin ∷ m.log
unfolding run_provision_exec ssh_exec
run_provision_exec_once path host script stdin [] m ne fine = absurd (ne refl)
run_provision_exec_once path host script stdin (c ∷ control_path) m ne fine = rw (
  ssh_exec_result-fine host (outcome (multiplexed path host (c ∷ control_path) script stdin) m)
      fine,
  run_provision_exec,
)

run_provision_exec-HoldsSame :
    (path host control_path script stdin : Bytes) (m : Machine)
    → HoldsSame (run_provision_exec path host control_path script stdin m).0.log m.log
unfolding run_provision_exec ssh_exec
run_provision_exec-HoldsSame path host [] script stdin m = HoldsSame-ran _ _ _ _
run_provision_exec-HoldsSame path host (c ∷ control_path) script stdin m =
    let ne = cons-ne-nil c control_path in
    elim (Option-cases
      (outcome (multiplexed path host (c ∷ control_path) script stdin) m).failure) [
        | inl fine ↦
            HoldsSame-log (run_provision_exec_once path host script stdin _ m ne fine)
              (HoldsSame-ran _ _ _ _)
        | inr (e, failed) ↦
            HoldsSame-log (run_provision_exec_fallback path host script stdin _ e m ne failed)
              (HoldsSame-trans (HoldsSame-ran _ _ _ _) (HoldsSame-ran _ _ _ _))
      ]

write_session_env-HoldsSame :
    (path host : Bytes) (env : Environment) (m : Machine)
    → HoldsSame (write_session_env path host env m).0.log m.log
unfolding write_session_env
write_session_env-HoldsSame path host env m =
    elim (Result-cases
      (run_provision_exec path host env.control_path (session_env_script env) [] m).1) [
        | inl (out, good) ↦
            rw (good, write_session_env)
              (run_provision_exec-HoldsSame path host env.control_path (session_env_script env) []
                m)
        | inr (e, bad) ↦
            rw (bad, write_session_env)
              (run_provision_exec-HoldsSame path host env.control_path (session_env_script env) []
                m)
      ]

install_shims-HoldsSame :
    (assets : Assets) (path host : Bytes) (env : Environment) (m : Machine)
    → HoldsSame (install_shims assets path host env m).0.log m.log
unfolding install_shims
install_shims-HoldsSame assets path host env m =
    let run =
      run_provision_exec path host env.control_path (install_script assets) assets.shim_script m in
    let same =
      run_provision_exec-HoldsSame path host env.control_path (install_script assets)
        assets.shim_script m in
    elim (Result-cases run.1) [
      | inl (out, good) ↦ rw (good, install_shims) same
      | inr (e, bad) ↦ rw (bad, install_shims) same
    ]

-- Provisioning leaves no directory and no child process behind, whatever the remote answers.
pub provision-HoldsSame :
    (assets : Assets) (path host : Bytes) (env : Environment) (m : Machine)
    → HoldsSame (provision assets path host env m).0.log m.log
unfolding provision
provision-HoldsSame assets path host env m =
    let written = write_session_env path host env m in
    let same = write_session_env-HoldsSame path host env m in
    elim (Result-cases written.1) [
      | inr (e, bad) ↦ rw (bad, provision) same
      | inl ((found, true), good) ↦ rw (good, provision) same
      | inl ((found, false), good) ↦ elim (Bool-cases (equal found version)) [
        | inl current ↦ rw (good, provision, provision_with, current) same
        | inr stale ↦
            rw (good, provision, provision_with, stale)
              (HoldsSame-trans (install_shims-HoldsSame assets path host env written.0) same)
      ]
    ]

abbrev pub is_marker : Bytes → Bool
is_marker word = equal word (codes "NO_PYTHON3")

abbrev pub is_version : Bytes → Bool
is_version word = not (is_marker word) && not (equal word [])

-- The last word of the list that is a version, or else the first argument.
unfoldable pub last_version : Bytes → List Bytes → Bytes
last_version found [] = found
last_version found (word ∷ words) =
    if is_version word then last_version word words else last_version found words

read_lines_lem :
    (lines : List Bytes) (found : Bytes) (missing : Bool)
    → read_lines lines (found, missing)
      ≡ (last_version found (map trim_space lines), missing || any is_marker (map trim_space lines))
unfolding read_lines last_version
read_lines_lem [] found missing = ground arith
read_lines_lem (line ∷ lines) found missing =
    elim (Bool-cases (equal (trim_space line) (codes "NO_PYTHON3"))) [
      | inl marker ↦ ground (arith, read_lines_lem lines found true)
      | inr other ↦ elim (Bool-cases (equal (trim_space line) [])) [
        | inl blank ↦ ground (arith, read_lines_lem lines found missing)
        | inr word ↦ ground (arith, read_lines_lem lines (trim_space line) missing)
      ]
    ]

-- The words of the answer, one of each line.
abbrev pub lines_of : Bytes → List Bytes
lines_of out = map trim_space (split (trim_space out) b'\n')

-- Of the remote answer, the installed version is the last line that is neither blank nor NO_PYTHON3, or
-- empty without one, and python3 is missing when some line is NO_PYTHON3, in whatever order they come.
pub session_env_answer_lem :
    (out : Bytes)
    → session_env_answer out ≡ (last_version [] (lines_of out), any is_marker (lines_of out))
unfolding session_env_answer
session_env_answer_lem out = read_lines_lem (split (trim_space out) b'\n') [] false
