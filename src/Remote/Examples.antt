-- ===== src/Remote/Examples.antt =====
-- The theorems on provisioning at concrete inputs.
use slush.Base.Int.{pos}
use slush.Base.{some, List, [], ◌∷◌, ◌≡◌, refl, cons-ne-nil, any}
use slush.Machine.{Event, Outcome, Machine}
use slush.Remote.Provision.Runs.{
  multiplexed, direct, run_provision_exec_fallback, session_env_answer_lem, last_version, is_marker,
  lines_of,
}
use slush.Remote.Provision.{run_provision_exec, session_env_answer}
use slush.Text.{codes}

-- The master reads the whole script and then fails.
abbrev dead_master : List Event → Event → Outcome
dead_master log e = record {
  failure = some (codes "exit status 255");
  exit_code = some (pos 255);
  stdout = [];
  stderr = [];
  combined = [];
  consumed = 3;
}

abbrev machine : Machine
machine = record { answer = dead_master; log = [] }

-- The script is lost: the second run has nothing on its standard input.
script_is_lost :
    (run_provision_exec
      (codes "ssh")
      (codes "host")
      (codes "/c")
      (codes "cat")
      (codes "abc")
      machine).0.log
    ≡ direct (codes "ssh") (codes "host") (codes "cat") []
      ∷ multiplexed (codes "ssh") (codes "host") (codes "/c") (codes "cat") (codes "abc")
      ∷ []
script_is_lost =
    run_provision_exec_fallback (codes "ssh") (codes "host") (codes "cat") (codes "abc")
      (codes "/c") (codes "exit status 255") machine (cons-ne-nil _ _) refl

session_env_answer_lem_example : session_env_answer (codes "NO_PYTHON3\n4\n") ≡ (
  last_version [] (lines_of (codes "NO_PYTHON3\n4\n")),
  any is_marker (lines_of (codes "NO_PYTHON3\n4\n")),
)
session_env_answer_lem_example = session_env_answer_lem (codes "NO_PYTHON3\n4\n")
