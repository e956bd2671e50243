-- ===== src/Session/Tunnel/Stopping.antt =====
-- The child process of the tunnel of internal/session/tunnel.go, at its start and its stop.
use slush.Base.{
  ◌+◌, false, List, [], ◌∷◌, ◌≡◌, ◌∙◌, refl, inl, inr, arith, ok, err, Result, Option-cases,
  Result-cases, if◌then◌else◌,
}
use slush.Machine.Held.{directories, children, HoldsSame, HoldsSame-ran}
use slush.Machine.{Event, starts, started, Machine, outcome, after}
use slush.Session.Tunnel.{
  SshTunnel, exit_command, check_command, stop_tunnel, Arrival, ticked, exited, wait_until_ready,
  new_tunnel, master_args, start_ssh_tunnel,
}
use slush.Text.{Bytes}

-- Against `before`, the log has the tunnel's child besides, unless it was waited for.
pub record IsRunning (t : SshTunnel) (log before : List Event) : Type 0 where
  pub same_directories : directories log ≡ directories before
  pub one_child : children log ≡ (if t.waited_for then 0 else 1) + children before

pub IsRunning-log :
    (t : SshTunnel) (log log' before : List Event)
    → HoldsSame log' log
    → IsRunning t log before
    → IsRunning t log' before
IsRunning-log t log log' before h r = record {
  same_directories = h.same_directories ∙ r.same_directories;
  one_child = h.same_children ∙ r.one_child;
}

check_command-HoldsSame : (t : SshTunnel) (log : List Event) → HoldsSame (check_command t ∷ log) log
unfolding check_command
check_command-HoldsSame t log = HoldsSame-ran _ _ _ _

-- Stopping the tunnel leaves what was held before it.
pub stop_tunnel-HoldsSame :
    (t : SshTunnel) (m : Machine) (before : List Event)
    → IsRunning t m.log before
    → HoldsSame (stop_tunnel t m).log before
unfolding stop_tunnel exit_command directories children
stop_tunnel-HoldsSame t m before r = record {
  same_directories = ground (arith, r.same_directories);
  same_children = ground (arith, r.one_child);
}

wait_until_ready-IsRunning :
    (t : SshTunnel) (arrivals : List Arrival) (m : Machine) (before : List Event)
    → t.waited_for ≡ false
    → IsRunning t m.log before
    → IsRunning (wait_until_ready t arrivals m).1 (wait_until_ready t arrivals m).0.log before
unfolding wait_until_ready directories children
wait_until_ready-IsRunning t [] m before w r = r
wait_until_ready-IsRunning t (exited e ∷ arrivals) m before w r = record {
  same_directories = r.same_directories;
  one_child = ground (arith, r.one_child);
}
wait_until_ready-IsRunning t (ticked ∷ arrivals) m before w r =
    elim (Option-cases (outcome (check_command t) m).failure) [
      | inl fine ↦
          rw (fine, wait_until_ready)
            (IsRunning-log t m.log (check_command t ∷ m.log) before
              (check_command-HoldsSame t m.log) r)
      | inr (e, failed) ↦
          rw (failed, wait_until_ready)
            (wait_until_ready-IsRunning t arrivals (after (check_command t) m) before w (
              IsRunning-log t (m.log) (check_command t ∷ m.log) before
                (check_command-HoldsSame t m.log) r))
    ]

-- What a start leaves: a running tunnel, or nothing.
abbrev pub StartLeaves : Result Bytes SshTunnel → List Event → List Event → Type 0
StartLeaves (ok t) log before = IsRunning t log before
StartLeaves (err e) log before = HoldsSame log before

starts-HoldsSame :
    (path : Bytes) (args : List Bytes) (log : List Event) → HoldsSame (starts path args ∷ log) log
unfolding directories children
starts-HoldsSame path args log = record { same_directories = refl; same_children = refl }

started-IsRunning :
    (t : SshTunnel) (path : Bytes) (args : List Bytes) (log : List Event)
    → t.waited_for ≡ false
    → IsRunning t (started path args ∷ log) log
unfolding directories children
started-IsRunning t path args log w = record {
  same_directories = refl;
  one_child = ground (arith, w);
}

pub start_ssh_tunnel-Leaves :
    (path host control_path : Bytes) (conn_opts forwards : List Bytes) (arrivals : List Arrival)
    (m : Machine)
    → StartLeaves
        (start_ssh_tunnel path host control_path conn_opts forwards arrivals m).1
        (start_ssh_tunnel path host control_path conn_opts forwards arrivals m).0.log
        m.log
unfolding start_ssh_tunnel
start_ssh_tunnel-Leaves path host control_path conn_opts forwards arrivals m =
    let args = master_args host control_path conn_opts forwards in
    let t = new_tunnel path host control_path in
    let m' = after (started path args) m in
    let running =
      wait_until_ready-IsRunning t arrivals m' m.log refl
        (started-IsRunning t path args m.log refl) in
    elim (Option-cases (outcome (starts path args) m).failure) [
      | inr (e, failed) ↦ rw (failed, start_ssh_tunnel) (starts-HoldsSame path args m.log)
      | inl fine ↦ elim (Result-cases (wait_until_ready t arrivals m').2) [
        | inl (tt, ready) ↦ rw (fine, start_ssh_tunnel, ready) running
        | inr (e, early) ↦
            rw (fine, start_ssh_tunnel, early) (stop_tunnel-HoldsSame _ _ m.log running)
      ]
    ]
