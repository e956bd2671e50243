-- ===== src/Validate/Run/Stays.antt =====
-- A predicate on the state of a connection, through the checks of Validate.
use slush.Base.{ℕ, ltb, Bool, true, false, Result, ok, err}
use slush.Text.{Bytes}
use slush.Validate.{
  Connection, Validator, check_agent, check_shims, check_transport, check_shadow, check_exports,
  check_wrapped, check_session_env, paste_back, probe_back, check_copy, check_paste, check_open,
  run_checks, first_checks, last_checks, conclude_if, opening_report, verify_env_output,
  validation_payload,
}

module _ {W : Type 0} (c : Connection W) (P : W → Type 0) where
  pub record CallsKeep : Type 0 where
    pub by_probe : (script : Bytes) (w : W) → P w → P (c.probe script w).0
    pub by_copy : (payload : Bytes) (w : W) → P w → P (c.copy payload w).0
    pub by_paste : (w : W) → P w → P (c.paste w).0
    pub by_backend_name : (w : W) → P w → P (c.backend_name w).0

  module _ (keep : CallsKeep) where
    abbrev Stays : (W → Validator → W × Validator) → Type 0
    Stays check = (w : W) (v : Validator) → P w → P (check w v).0

    agent-Stays : (wanted : Bool) → Stays (check_agent c wanted)
    agent-Stays false w v h = h
    agent-Stays true w v h = keep.by_probe _ w h

    shims-Stays : Stays (check_shims c)
    shims-Stays w v h = keep.by_probe _ w h

    transport-Stays : Stays (check_transport c)
    transport-Stays w v h = keep.by_probe _ w h

    shadow-Stays : (mosh : Bool) → Stays (check_shadow c mosh)
    shadow-Stays true w v h = h
    shadow-Stays false w v h = keep.by_probe _ w h

    exports-stays : (r : W × Result Bytes Bytes) (v : Validator) → P r.0 → P (check_exports c r v).0
    exports-stays (w, err e) v h = h
    exports-stays (w, ok output) v h =
        shadow-Stays c.uses_mosh w (verify_env_output output c.token v) h

    wrapped-Stays : (script : Result Bytes Bytes) → Stays (check_wrapped c script)
    wrapped-Stays (err e) w v h = h
    wrapped-Stays (ok script) w v h = exports-stays (c.probe script w) v (keep.by_probe script w h)

    paste_back-stays :
        (payload : Bytes) (r : W × Result Bytes Bytes) (v : Validator)
        → P r.0
        → P (paste_back c payload r v).0
    paste_back-stays payload (w, err e) v h = h
    paste_back-stays payload (w, ok output) v h = keep.by_paste w h

    probe_back-stays :
        (payload : Bytes) (r : W × Result Bytes (Unit {0})) (v : Validator)
        → P r.0
        → P (probe_back c payload r v).0
    probe_back-stays payload (w, err e) v h = h
    probe_back-stays payload (w, ok done) v h = keep.by_probe _ w h

    copy-Stays : (time : ℕ) → Stays (check_copy c time)
    copy-Stays time w v h =
        paste_back-stays (validation_payload time) (c.probe _ w) v (keep.by_probe _ w h)

    paste-Stays : (time : ℕ) → Stays (check_paste c time)
    paste-Stays time w v h =
        probe_back-stays (validation_payload time) (c.copy _ w) v (keep.by_copy _ w h)

    open-Stays : Stays (check_open c)
    open-Stays w v h = keep.by_probe _ w h

    session_env-Stays : Stays (check_session_env c)
    session_env-Stays w v h = wrapped-Stays _ w v h

    first_checks-Stays : (forward_agent : Bool) → Stays (first_checks c forward_agent)
    first_checks-Stays forward_agent w v h =
        let (w1, v1) = check_agent c forward_agent w v in
        let (w2, v2) = check_shims c w1 v1 in
        let (w3, v3) = check_transport c w2 v2 in
        session_env-Stays w3 v3
          (transport-Stays w2 v2 (shims-Stays w1 v1 (agent-Stays forward_agent w v h)))

    last_checks-Stays : (time time' : ℕ) (client : Bytes) → Stays (last_checks c time time' client)
    last_checks-Stays time time' client w v h =
        let (w1, v1) = check_copy c time w v in
        let (w2, v2) = check_paste c time' w1 v1 in
        let (w3, v3) = check_open c w2 v2 in
        keep.by_backend_name _
          (keep.by_probe _ w3 (open-Stays w2 v2 (paste-Stays time' w1 v1 (copy-Stays time w v h))))

    conclude_if-stays :
        (failed : Bool) (w : W) (v : Validator) → P w → P (conclude_if c failed w v).0
    conclude_if-stays true w v h = h
    conclude_if-stays false w v h = h

    pub run_checks-stays :
        (forward_agent : Bool) (time time' : ℕ) (client : Bytes) (w : W)
        → P w
        → P (run_checks c forward_agent time time' client w).0
    unfolding run_checks
    run_checks-stays forward_agent time time' client w h =
        let v = opening_report c in
        let first = first_checks c forward_agent w v in
        let last = last_checks c time time' client first.0 first.1 in
        conclude_if-stays (ltb 0 last.1.failed) last.0 last.1 (
          last_checks-Stays time time' client first.0 first.1
            (first_checks-Stays forward_agent w v h))
