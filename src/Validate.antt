-- ===== src/Validate.antt =====
-- internal/validate/validate.go: the checks of a session and their report, over the state `W` of the
-- connection. The times that make the payloads are arguments.
pub mod Report
pub mod Results
pub mod Redact
pub mod Texts
pub mod Run
mod Examples
use slush.Base.Int.{ℤ}
use slush.Base.{
  ℕ, ◌+◌, ◌<◌, Bool, true, false, not, ◌||◌, Option, none, some, List, [], ◌∷◌, ◌++◌, ◌==◌,
  if◌then◌else◌, Result, ok, err, ltb,
}
use slush.Remote.Environment.{dir_expr}
use slush.Remote.Provision.{version}
use slush.Text.Decimal.{itoa, int_text}
use slush.Text.Trim.{trim_space}
use slush.Text.{Bytes, codes, equal, contains, split, replace_all}

-- What the checks use of a session and of the client of the protocol, for a given port and token.
pub record Connection (W : Type 0) : Type 0 where
  pub probe : Bytes → W → W × Result Bytes Bytes
  pub copy : Bytes → W → W × Result Bytes (Unit {0})
  pub paste : W → W × Result Bytes Bytes
  pub backend_name : W → W × Bytes
  pub wrapped_command : Bytes → Result Bytes Bytes
  pub uses_mosh : Bool
  pub token : Bytes
  pub port : ℤ

-- A line of the report, with the name of its check.
pub data Line : Type 0 where
  fail_line : Bytes → Bytes → Line
  ok_line : Bytes → Line
  skip_line : Bytes → Bytes → Line
  info_line : Bytes → Line

pub record Validator : Type 0 where
  pub out : List Line
  pub failed : ℕ
  pub passed : ℕ

abbrev pub fail : Bytes → Bytes → Validator → Validator
fail name detail v = record v { out = v.out ++ fail_line name detail ∷ []; failed = v.failed + 1 }

abbrev pub pass : Bytes → Validator → Validator
pass name v = record v { out = v.out ++ ok_line name ∷ []; passed = v.passed + 1 }

abbrev pub skip : Bytes → Bytes → Validator → Validator
skip name reason v = record v { out = v.out ++ skip_line name reason ∷ []; passed = v.passed + 1 }

abbrev pub is_ready_agent : Bytes → Bool
is_ready_agent output = equal (trim_space output) (codes "agent-ready")

-- The details of the failures that quote an output hold the output.
abbrev pub report_agent : Result Bytes Bytes → Validator → Validator
report_agent (err e) v =
    fail (codes "SSH agent")
      (codes "remote agent is unavailable; check sshd AllowAgentForwarding" ++ e) v
report_agent (ok output) v =
    if not (is_ready_agent output)
    then fail (codes "SSH agent")
        (codes "remote agent is unavailable; check sshd AllowAgentForwarding" ++ output) v
    else pass (codes "SSH agent forwarding") v

abbrev pub report_shims : Result Bytes Bytes → Validator → Validator
report_shims (err e) v = fail (codes "shims") e v
report_shims (ok found) v =
    if not (equal (trim_space found) version)
    then fail (codes "shims") (trim_space found) v
    else pass (codes "shims version " ++ version) v

abbrev pub report_transport : Result Bytes Bytes → Validator → Validator
report_transport (err e) v = fail (codes "transport") e v
report_transport (ok output) v =
    if equal (trim_space output) (codes "listening")
    then pass (codes "transport over reverse forward") v
    else if contains output (codes "No such file") || contains output (codes "not found")
    then skip (codes "transport") (codes "no python3 on remote") v
    else fail (codes "transport") (trim_space output) v

abbrev pub report_open : Result Bytes Bytes → Validator → Validator
report_open (err e) v = fail (codes "open dry-run") e v
report_open (ok output) v =
    if not (equal (trim_space output) (codes "OPEN https://example.com/validate"))
    then fail (codes "open dry-run") (trim_space output) v
    else pass (codes "open dry-run") v

unfoldable pub redact_token : Bytes → Bytes → Bytes
redact_token out [] = out
redact_token out (c ∷ token) = replace_all out (c ∷ token) (codes "<token>")

unfoldable pub equal_lines : List Bytes → List Bytes → Bool
equal_lines [] [] = true
equal_lines (a ∷ lines) (b ∷ expected) =
    let rest = equal_lines lines expected in if equal a b then rest else false
equal_lines _ _ = false

-- `verifyEnvOutput`
unfoldable pub verify_env_output : Bytes → Bytes → Validator → Validator
verify_env_output output token v =
    let expected = codes "1" ∷ token ∷ codes "slush-open" ∷ [] in
    if not (equal_lines (split (trim_space output) b'\n') expected)
    then fail (codes "session env")
        (codes "unexpected wrapper output " ++ redact_token output token) v
    else pass (codes "session env exports") v

abbrev pub report_shadow : Result Bytes Bytes → Validator → Validator
report_shadow (err e) v = fail (codes "session env") e v
report_shadow (ok which) v =
    if not (contains which (codes "/slush/bin/"))
    then fail (codes "session env") (codes "pbcopy resolves to " ++ trim_space which) v
    else pass (codes "session env PATH shadow") v

abbrev pub validation_payload : ℕ → Bytes
validation_payload time = codes "slush-validate-" ++ itoa time

abbrev pub report_payload : Bytes → Bytes → Result Bytes Bytes → Validator → Validator
report_payload name payload (err e) v = fail name e v
report_payload name payload (ok back) v =
    if not (equal back payload) then fail name (codes "got " ++ back) v else pass name v

module _ {W : Type 0} (c : Connection W) where
  abbrev pub reporting :
      (Result Bytes Bytes → Validator → Validator)
      → W × Result Bytes Bytes
      → Validator
      → W × Validator
  reporting report (w, result) v = (w, report result v)

  abbrev pub check_agent : Bool → W → Validator → W × Validator
  check_agent false w v = (w, v)
  check_agent true w v =
      reporting report_agent
        (c.probe
          (codes
            "test -S \"$SSH_AUTH_SOCK\" && { ssh-add -l >/dev/null 2>&1; agent_status=$?; test \"$agent_status\" -le 1; } && printf agent-ready")
          w)
        v

  abbrev pub check_shims : W → Validator → W × Validator
  check_shims w v =
      reporting report_shims
        (c.probe (codes "cat " ++ (dir_expr ++ codes "/VERSION 2>/dev/null || echo MISSING")) w) v

  abbrev pub check_transport : W → Validator → W × Validator
  check_transport w v =
      reporting report_transport
        (c.probe
          (codes "python3 -c 'import socket; socket.create_connection((\"127.0.0.1\", "
            ++ (int_text c.port ++ codes "), timeout=5).close(); print(\"listening\")' 2>&1"))
          w)
        v

  -- The shadow of PATH is checked for SSH only.
  abbrev pub check_shadow : Bool → W → Validator → W × Validator
  check_shadow true w v = (w, v)
  check_shadow false w v = reporting report_shadow (c.probe (codes "command -v pbcopy") w) v

  abbrev pub check_exports : W × Result Bytes Bytes → Validator → W × Validator
  check_exports (w, err e) v = (w, fail (codes "session env") e v)
  check_exports (w, ok output) v = check_shadow c.uses_mosh w (verify_env_output output c.token v)

  abbrev pub check_wrapped : Result Bytes Bytes → W → Validator → W × Validator
  check_wrapped (err e) w v = (w, fail (codes "session env") e v)
  check_wrapped (ok script) w v = check_exports (c.probe script w) v

  -- `checkSessionEnv`
  abbrev pub check_session_env : W → Validator → W × Validator
  check_session_env w v =
      check_wrapped
        (c.wrapped_command (codes "printf '%s\\n' \"$SLUSH\" \"$SLUSH_TOKEN\" \"$BROWSER\"")) w v

  abbrev pub paste_back : Bytes → W × Result Bytes Bytes → Validator → W × Validator
  paste_back payload (w, err e) v = (w, fail (codes "copy remote->local") e v)
  paste_back payload (w, ok output) v =
      reporting (report_payload (codes "copy remote->local") payload) (c.paste w) v

  abbrev pub probe_back : Bytes → W × Result Bytes (Unit {0}) → Validator → W × Validator
  probe_back payload (w, err e) v = (w, fail (codes "paste local->remote") e v)
  probe_back payload (w, ok _) v =
      reporting (report_payload (codes "paste local->remote") payload) (c.probe (codes "pbpaste") w)
        v

  abbrev pub check_copy : ℕ → W → Validator → W × Validator
  check_copy time w v =
      let payload = validation_payload time in
      paste_back payload (c.probe (codes "printf '%s' '" ++ (payload ++ codes "' | pbcopy")) w) v

  abbrev pub check_paste : ℕ → W → Validator → W × Validator
  check_paste time w v =
      let payload = validation_payload time in probe_back payload (c.copy payload w) v

  abbrev pub check_open : W → Validator → W × Validator
  check_open w v =
      reporting report_open (c.probe (codes "slush-open --dry-run https://example.com/validate") w)
        v

  -- The error of the probe is dropped, with an empty output.
  abbrev pub remote_uname : Result Bytes Bytes → Bytes
  remote_uname (err e) = []
  remote_uname (ok uname) = trim_space uname

  abbrev pub platform_line : Bytes → Bytes → Result Bytes Bytes → Line
  platform_line client backend uname = info_line (
      codes "client "
      ++ (client
          ++ (codes " clipboard " ++ (backend ++ (codes "; remote " ++ remote_uname uname)))))

  -- The report of the platforms does not fail, whatever the probe gives; `client` is `runtime.GOOS`.
  abbrev pub report_platform : Bytes → W → Validator → W × Validator
  report_platform client w v =
      let (w', uname) = c.probe (codes "uname -sm") w in
      let (w'', backend) = c.backend_name w' in
      (
        w'',
        pass (codes "platform report")
            (record v { out = v.out ++ platform_line client backend uname ∷ [] }),
      )

  abbrev pub first_checks : Bool → W → Validator → W × Validator
  first_checks forward_agent w v =
      let (w1, v1) = check_agent forward_agent w v in
      let (w2, v2) = check_shims w1 v1 in
      let (w3, v3) = check_transport w2 v2 in check_session_env w3 v3

  abbrev pub last_checks : ℕ → ℕ → Bytes → W → Validator → W × Validator
  last_checks time time' client w v =
      let (w1, v1) = check_copy time w v in
      let (w2, v2) = check_paste time' w1 v1 in
      let (w3, v3) = check_open w2 v2 in report_platform client w3 v3

  abbrev pub conclude_if : Bool → W → Validator → W × Validator × Result ℕ (Unit {0})
  conclude_if true w v = (w, v, err v.failed)
  conclude_if false w v =
      (w, record v { out = v.out ++ info_line (codes "validate: all checks passed") ∷ [] }, ok tt)

  abbrev pub conclude : W × Validator → W × Validator × Result ℕ (Unit {0})
  conclude (w, v) = conclude_if (ltb 0 v.failed) w v

  abbrev pub opening_report : Validator
  opening_report = pass (codes "tunnel with clipboard forward") (
      pass (codes "clipboard server on 127.0.0.1:" ++ int_text c.port)
        (record { out = []; failed = 0; passed = 0 }))

  -- The checks of `Run` once the session is open, with the result of the whole.
  unfoldable pub run_checks : Bool → ℕ → ℕ → Bytes → W → W × Validator × Result ℕ (Unit {0})
  run_checks forward_agent time time' client w =
      let (w', v) = first_checks forward_agent w opening_report in
      conclude (last_checks time time' client w' v)
