-- ===== src/Validate/Results.antt =====
-- The counters and the result of the checks in internal/validate/validate.go.
use slush.Base.{ℕ, zero, suc, Bool, true, false, ◌≡◌, refl, ap, ◌∙◌, arith, Result, ok, err, ltb}
use slush.Text.{Bytes, codes}
use slush.Validate.Report.{
  failures, IsCounted, fail-IsCounted, pass-IsCounted, info-IsCounted, agent-Keeps, shims-Keeps,
  transport-Keeps, open-Keeps, shadow-Keeps, payload-Keeps, verify_env_output-IsCounted,
}
use slush.Validate.{
  Connection, Validator, check_agent, check_shadow, check_exports, check_wrapped, check_session_env,
  paste_back, probe_back, check_copy, check_paste, report_platform, validation_payload, run_checks,
  first_checks, last_checks, conclude_if, opening_report,
}

-- No failure is a success, and any number of them is the error with that number.
abbrev pub reported : ℕ → Result ℕ (Unit {0})
reported zero = ok tt
reported (suc n) = err (suc n)

reported_lem : (n : ℕ) → ltb 0 n ≡ true → err n ≡ reported n
reported_lem zero h = cc
reported_lem (suc n) h = refl

none_reported : (n : ℕ) → ltb 0 n ≡ false → ok tt ≡ reported n
none_reported zero h = refl
none_reported (suc n) h = absurd (ground arith)

-- The counters are those of the report, and so is the result.
pub record Reports {W : Type 0} (r : W × Validator × Result ℕ (Unit {0})) : Type 0 where
  pub counted : IsCounted r.1
  pub result : r.2 ≡ reported (failures r.1.out)

module _ {W : Type 0} (c : Connection W) where
  -- A check that keeps the counters right.
  abbrev Counts : (W → Validator → W × Validator) → Type 0
  Counts check = (w : W) (v : Validator) → IsCounted v → IsCounted (check w v).1

  agent-Counts : (wanted : Bool) → Counts (check_agent c wanted)
  agent-Counts false w v h = h
  agent-Counts true w v h = agent-Keeps _ v h

  shadow-Counts : (mosh : Bool) → Counts (check_shadow c mosh)
  shadow-Counts true w v h = h
  shadow-Counts false w v h = shadow-Keeps _ v h

  exports-IsCounted :
      (r : W × Result Bytes Bytes) (v : Validator) → IsCounted v → IsCounted (check_exports c r v).1
  exports-IsCounted (w, err e) v h = fail-IsCounted _ _ v h
  exports-IsCounted (w, ok output) v h =
      shadow-Counts c.uses_mosh w _ (verify_env_output-IsCounted output c.token v h)

  wrapped-Counts : (script : Result Bytes Bytes) → Counts (check_wrapped c script)
  wrapped-Counts (err e) w v h = fail-IsCounted _ _ v h
  wrapped-Counts (ok script) w v h = exports-IsCounted (c.probe script w) v h

  paste_back-IsCounted :
      (payload : Bytes) (r : W × Result Bytes Bytes) (v : Validator)
      → IsCounted v
      → IsCounted (paste_back c payload r v).1
  paste_back-IsCounted payload (w, err e) v h = fail-IsCounted _ _ v h
  paste_back-IsCounted payload (w, ok output) v h = payload-Keeps _ payload _ v h

  probe_back-IsCounted :
      (payload : Bytes) (r : W × Result Bytes (Unit {0})) (v : Validator)
      → IsCounted v
      → IsCounted (probe_back c payload r v).1
  probe_back-IsCounted payload (w, err e) v h = fail-IsCounted _ _ v h
  probe_back-IsCounted payload (w, ok tt) v h = payload-Keeps _ payload _ v h

  platform-Counts : (client : Bytes) → Counts (report_platform c client)
  platform-Counts client w v h = pass-IsCounted _ _ (info-IsCounted _ v h)

  session_env-Counts : Counts (check_session_env c)
  session_env-Counts w v h = wrapped-Counts _ w v h

  copy-Counts : (time : ℕ) → Counts (check_copy c time)
  copy-Counts time w v h = paste_back-IsCounted (validation_payload time) _ v h

  paste-Counts : (time : ℕ) → Counts (check_paste c time)
  paste-Counts time w v h = probe_back-IsCounted (validation_payload time) _ v h

  first_checks-Counts : (forward_agent : Bool) → Counts (first_checks c forward_agent)
  first_checks-Counts forward_agent w v h =
      session_env-Counts _ _
        (transport-Keeps _ _ (shims-Keeps _ _ (agent-Counts forward_agent w v h)))

  last_checks-Counts : (time time' : ℕ) (client : Bytes) → Counts (last_checks c time time' client)
  last_checks-Counts time time' client w v h =
      platform-Counts client _ _ (open-Keeps _ _ (paste-Counts time' _ _ (copy-Counts time w v h)))

  opening-IsCounted : IsCounted (opening_report c)
  opening-IsCounted = record { all_failures = refl; all_passes = refl }

  conclude_if-Reports :
      (some_failed : Bool) (w : W) (v : Validator)
      → ltb 0 v.failed ≡ some_failed
      → IsCounted v
      → Reports (conclude_if c some_failed w v)
  conclude_if-Reports true w v e h = record {
    counted = h;
    result = reported_lem v.failed e ∙ ap reported h.all_failures;
  }
  conclude_if-Reports false w v e h =
      let h' = info-IsCounted (codes "validate: all checks passed") v h in
      record { counted = h'; result = none_reported v.failed e ∙ ap reported h'.all_failures }

  -- The counters are the numbers of failed and passed lines in the report, and the validation succeeds
  -- when no line has failed, or else fails with their number. This holds whatever the remote machine and
  -- the clipboard do.
  pub run_checks-Reports :
      (forward_agent : Bool) (time time' : ℕ) (client : Bytes) (w : W)
      → Reports (run_checks c forward_agent time time' client w)
  unfolding run_checks
  run_checks-Reports forward_agent time time' client w =
      let v = opening_report c in
      let first = first_checks c forward_agent w v in
      let last = last_checks c time time' client first.0 first.1 in
      conclude_if-Reports (ltb 0 last.1.failed) last.0 last.1 refl (
        last_checks-Counts time time' client first.0 first.1
          (first_checks-Counts forward_agent w v opening-IsCounted))
