-- ===== src/Validate/Report.antt =====
-- The report of the checks, and the result as it.
use slush.Base.{
  ℕ, ◌+◌, Bool, true, false, not, List, [], ◌∷◌, ◌++◌, ◌≡◌, arith, Result, ok, err, if◌then◌else◌,
}
use slush.Remote.Provision.{version}
use slush.Text.Trim.{trim_space}
use slush.Text.{Bytes, codes, equal, contains}
use slush.Validate.{
  Line, fail_line, ok_line, skip_line, info_line, Validator, fail, pass, skip, is_ready_agent,
  report_agent, report_shims, report_transport, report_open, verify_env_output, report_shadow,
  report_payload,
}

-- The lines that report a failed check, and those that report a passed or a skipped one.
abbrev pub failures : List Line → ℕ
failures [] = 0
failures (fail_line name detail ∷ lines) = failures lines + 1
failures (ok_line name ∷ lines) = failures lines
failures (skip_line name reason ∷ lines) = failures lines
failures (info_line text ∷ lines) = failures lines

abbrev pub passes : List Line → ℕ
passes [] = 0
passes (fail_line name detail ∷ lines) = passes lines
passes (ok_line name ∷ lines) = passes lines + 1
passes (skip_line name reason ∷ lines) = passes lines + 1
passes (info_line text ∷ lines) = passes lines

-- The counters are those of the report.
pub record IsCounted (v : Validator) : Type 0 where
  pub all_failures : v.failed ≡ failures v.out
  pub all_passes : v.passed ≡ passes v.out

failures-append : (a b : List Line) → failures (a ++ b) ≡ failures a + failures b
failures-append [] b = ground arith
failures-append (fail_line name detail ∷ a) b = ground (arith, failures-append a b)
failures-append (ok_line name ∷ a) b = ground (arith, failures-append a b)
failures-append (skip_line name reason ∷ a) b = ground (arith, failures-append a b)
failures-append (info_line text ∷ a) b = ground (arith, failures-append a b)

passes-append : (a b : List Line) → passes (a ++ b) ≡ passes a + passes b
passes-append [] b = ground arith
passes-append (fail_line name detail ∷ a) b = ground (arith, passes-append a b)
passes-append (ok_line name ∷ a) b = ground (arith, passes-append a b)
passes-append (skip_line name reason ∷ a) b = ground (arith, passes-append a b)
passes-append (info_line text ∷ a) b = ground (arith, passes-append a b)

pub fail-IsCounted :
    (name detail : Bytes) (v : Validator) → IsCounted v → IsCounted (fail name detail v)
fail-IsCounted name detail v h = record {
  all_failures = ground (arith, h.all_failures, failures-append v.out (fail_line name detail ∷ []));
  all_passes = ground (arith, h.all_passes, passes-append v.out (fail_line name detail ∷ []));
}

pub pass-IsCounted : (name : Bytes) (v : Validator) → IsCounted v → IsCounted (pass name v)
pass-IsCounted name v h = record {
  all_failures = ground (arith, h.all_failures, failures-append v.out (ok_line name ∷ []));
  all_passes = ground (arith, h.all_passes, passes-append v.out (ok_line name ∷ []));
}

skip-IsCounted :
    (name reason : Bytes) (v : Validator) → IsCounted v → IsCounted (skip name reason v)
skip-IsCounted name reason v h = record {
  all_failures = ground (arith, h.all_failures, failures-append v.out (skip_line name reason ∷ []));
  all_passes = ground (arith, h.all_passes, passes-append v.out (skip_line name reason ∷ []));
}

pub info-IsCounted :
    (line : Bytes) (v : Validator)
    → IsCounted v
    → IsCounted (record v { out = v.out ++ info_line line ∷ [] })
info-IsCounted line v h = record {
  all_failures = ground (arith, h.all_failures, failures-append v.out (info_line line ∷ []));
  all_passes = ground (arith, h.all_passes, passes-append v.out (info_line line ∷ []));
}

-- One of two steps, by a test.
either-IsCounted :
    (test : Bool) (v w : Validator) → IsCounted v → IsCounted w → IsCounted (if test then v else w)
either-IsCounted true v w h h' = h
either-IsCounted false v w h h' = h'

-- A step that keeps the counters right, on every result.
abbrev pub Keeps : (Result Bytes Bytes → Validator → Validator) → Type 0
Keeps report = (r : Result Bytes Bytes) (v : Validator) → IsCounted v → IsCounted (report r v)

pub agent-Keeps : Keeps report_agent
agent-Keeps (err e) v h = fail-IsCounted _ _ v h
agent-Keeps (ok output) v h =
    either-IsCounted (not (is_ready_agent output)) _ _ (fail-IsCounted _ _ v h)
      (pass-IsCounted _ v h)

pub shims-Keeps : Keeps report_shims
shims-Keeps (err e) v h = fail-IsCounted _ _ v h
shims-Keeps (ok found) v h =
    either-IsCounted (not (equal (trim_space found) version)) _ _ (fail-IsCounted _ _ v h)
      (pass-IsCounted _ v h)

pub transport-Keeps : Keeps report_transport
transport-Keeps (err e) v h = fail-IsCounted _ _ v h
transport-Keeps (ok output) v h =
    either-IsCounted (equal (trim_space output) (codes "listening")) _ _ (pass-IsCounted _ v h)
      (either-IsCounted _ _ _ (skip-IsCounted _ _ v h) (fail-IsCounted _ _ v h))

pub open-Keeps : Keeps report_open
open-Keeps (err e) v h = fail-IsCounted _ _ v h
open-Keeps (ok output) v h =
    either-IsCounted (not (equal (trim_space output) (codes "OPEN https://example.com/validate"))) _
      _ (fail-IsCounted _ _ v h) (pass-IsCounted _ v h)

pub shadow-Keeps : Keeps report_shadow
shadow-Keeps (err e) v h = fail-IsCounted _ _ v h
shadow-Keeps (ok which) v h =
    either-IsCounted (not (contains which (codes "/slush/bin/"))) _ _ (fail-IsCounted _ _ v h)
      (pass-IsCounted _ v h)

pub payload-Keeps : (name payload : Bytes) → Keeps (report_payload name payload)
payload-Keeps name payload (err e) v h = fail-IsCounted name e v h
payload-Keeps name payload (ok back) v h =
    either-IsCounted (not (equal back payload)) _ _ (fail-IsCounted name _ v h)
      (pass-IsCounted name v h)

pub verify_env_output-IsCounted :
    (output token : Bytes) (v : Validator)
    → IsCounted v
    → IsCounted (verify_env_output output token v)
unfolding verify_env_output
verify_env_output-IsCounted output token v h =
    either-IsCounted _ _ _ (fail-IsCounted _ _ v h) (pass-IsCounted _ v h)
