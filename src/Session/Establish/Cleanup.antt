-- ===== src/Session/Establish/Cleanup.antt =====
-- What is held after establishSession and the teardown of internal/session/tunnel.go.
use slush.Base.{
  ℕ, zero, suc, true, false, none, some, Option, List, [], ◌∷◌, refl, inl, inr, ok, err, Bool,
  Result, Option-cases, Result-cases, Bool-cases,
}
use slush.Machine.Held.{
  directories, children, HoldsSame, HoldsSame-ran, HoldsSame-trans, HoldsSame-refl,
  without_first_head,
}
use slush.Machine.{
  Event, made_directory, makes_directory, removes_directory, removed_directory, Machine, outcome,
  after, after_attempt, remove_directory,
}
use slush.Protocol.Listener.{relisten}
use slush.Remote.Provision.Runs.{provision-HoldsSame}
use slush.Remote.Provision.{Assets, provision, ssh_exec}
use slush.Session.Args.{SessionParams}
use slush.Session.Establish.{
  SessionError, Established, teardown, establish_session, provisioned, bound, tunnelled,
  check_remote_agent, agent_if, report_provision, provision_environment, agent_script, control_in,
  port_param, agent_answer,
}
use slush.Session.Options.{SessionOptions}
use slush.Session.Tunnel.Stopping.{
  IsRunning, IsRunning-log, stop_tunnel-HoldsSame, StartLeaves, start_ssh_tunnel-Leaves,
}
use slush.Session.Tunnel.{
  SshTunnel, Arrival, stop_tunnel, Bench, BindError, bind_loop, bind_clipboard_forward,
  forward_command, forward_clipboard, remote_forward_busy,
}
use slush.Text.{Bytes, codes}

remove_directory-HoldsSame :
    (dir : Bytes) (m : Machine) (before : List Event)
    → HoldsSame m.log (made_directory dir ∷ before)
    → HoldsSame (remove_directory dir m).log before
unfolding directories children
remove_directory-HoldsSame dir m before h = with_failure (outcome (removes_directory dir) m).failure
  where
    with_failure :
        (failure : Option Bytes)
        → HoldsSame
            (after_attempt (removes_directory dir) (removed_directory dir) failure m).log
            before
    with_failure none = record {
      same_directories = rw (h.same_directories) (without_first_head dir (directories before));
      same_children = h.same_children;
    }
    with_failure (some e) = record {
      same_directories = rw (h.same_directories) (without_first_head dir (directories before));
      same_children = h.same_children;
    }

pub teardown-HoldsSame :
    (t : SshTunnel) (dir : Bytes) (m : Machine) (before : List Event)
    → IsRunning t m.log (made_directory dir ∷ before)
    → HoldsSame (teardown t dir m).log before
unfolding teardown
teardown-HoldsSame t dir m before r =
    remove_directory-HoldsSame dir (stop_tunnel t m) before
      (stop_tunnel-HoldsSame t m (made_directory dir ∷ before) r)

forward_clipboard-HoldsSame :
    (t : SshTunnel) (b : Bench)
    → HoldsSame (forward_clipboard t b.server.port b.machine).0.log b.machine.log
unfolding forward_clipboard forward_command
forward_clipboard-HoldsSame t b = HoldsSame-ran _ _ _ _

bind_loop-HoldsSame :
    (attempts : ℕ) (last : Option Bytes) (t : SshTunnel) (b : Bench)
    → HoldsSame (bind_loop attempts last t b).0.machine.log b.machine.log
unfolding bind_loop
bind_loop-HoldsSame zero last t b = HoldsSame-refl b.machine.log
bind_loop-HoldsSame (suc attempts) last t b =
    let run = forward_clipboard t b.server.port b.machine in
    let same = forward_clipboard-HoldsSame t b in
    let listening = relisten b.server b.sockets in
    elim (Result-cases run.1) [
      | inl (tt, good) ↦ rw (good, bind_loop) same
      | inr (e, bad) ↦ elim (Bool-cases (remote_forward_busy e)) [
        | inr other ↦ rw (bad, bind_loop, other) same
        | inl busy ↦ elim (Result-cases listening.2) [
          | inr (e', deaf) ↦ rw (bad, bind_loop, busy, deaf) same
          | inl (tt, fine) ↦
              rw (bad, bind_loop, busy, fine)
                (HoldsSame-trans
                  (bind_loop-HoldsSame attempts (some e) t
                    (record b { machine = run.0; sockets = listening.0; server = listening.1 }))
                  same)
        ]
      ]
    ]

bind_clipboard_forward-HoldsSame :
    (t : SshTunnel) (b : Bench) → HoldsSame (bind_clipboard_forward t b).0.machine.log b.machine.log
unfolding bind_clipboard_forward
bind_clipboard_forward-HoldsSame t b = bind_loop-HoldsSame 8 none t b

check_remote_agent-HoldsSame :
    (path host control_path : Bytes) (m : Machine)
    → HoldsSame (check_remote_agent path host control_path m).0.log m.log
unfolding check_remote_agent ssh_exec
check_remote_agent-HoldsSame path host control_path m =
    elim (Result-cases
      (ssh_exec path host agent_script []
        (codes "-A" ∷ codes "-o" ∷ codes "ControlMaster=no" ∷ codes "-S" ∷ control_path ∷ [])
        m).2) [
          | inl (out, good) ↦ rw (good, check_remote_agent, agent_answer) (HoldsSame-ran _ _ _ _)
          | inr (e, bad) ↦ rw (bad, check_remote_agent, agent_answer) (HoldsSame-ran _ _ _ _)
        ]

agent_if-HoldsSame :
    (wanted : Bool) (path host control_path : Bytes) (m : Machine)
    → HoldsSame (agent_if wanted path host control_path m).0.log m.log
agent_if-HoldsSame false path host control_path m = HoldsSame-refl m.log
agent_if-HoldsSame true path host control_path m =
    check_remote_agent-HoldsSame path host control_path m

report_provision-HoldsSame :
    (r : Machine × Result Bytes (Unit {0})) (before : List Event)
    → HoldsSame r.0.log before
    → HoldsSame (report_provision r).log before
unfolding directories children
report_provision-HoldsSame (m, ok tt) before h = h
report_provision-HoldsSame (m, err e) before h = record {
  same_directories = h.same_directories;
  same_children = h.same_children;
}

-- A session holds its directory and its tunnel's child; without a session nothing is held.
abbrev pub SessionLeaves : Result SessionError Established → List Event → List Event → Type 0
SessionLeaves (ok s) log before = IsRunning s.tunnel log (made_directory s.directory ∷ before)
SessionLeaves (err e) log before = HoldsSame log before

module _ (assets : Assets) (path host : Bytes) (options : SessionOptions) (token : Bytes) where
  provisioned-Leaves :
      (t : SshTunnel) (dir : Bytes) (port : ℕ) (r : Machine × Result Bytes Bytes)
      (before : List Event)
      → IsRunning t r.0.log (made_directory dir ∷ before)
      → SessionLeaves
          (provisioned assets path host options token t dir port r).1
          (provisioned assets path host options token t dir port r).0.log
          before
  provisioned-Leaves t dir port (m, err e) before r = teardown-HoldsSame t dir m before r
  provisioned-Leaves t dir port (m, ok agent_socket) before r =
      let params : SessionParams = record {
        control_path = t.control_path;
        token = token;
        agent_socket = agent_socket;
        remote_port = port;
      } in
      let env = provision_environment params in
      IsRunning-log t m.log _ (made_directory dir ∷ before)
        (report_provision-HoldsSame (provision assets path host env m) m.log
          (provision-HoldsSame assets path host env m))
        r

  bound-Leaves :
      (t : SshTunnel) (dir : Bytes) (r : Bench × Result BindError (Unit {0})) (before : List Event)
      → IsRunning t r.0.machine.log (made_directory dir ∷ before)
      → SessionLeaves
          (bound assets path host options token t dir r).1
          (bound assets path host options token t dir r).0.machine.log
          before
  bound-Leaves t dir (b, err e) before r = teardown-HoldsSame t dir b.machine before r
  bound-Leaves t dir (b, ok tt) before r =
      let agent = agent_if options.forward_agent path host t.control_path b.machine in
      provisioned-Leaves t dir (port_param b.server.port) agent before (
        IsRunning-log t b.machine.log agent.0.log (made_directory dir ∷ before)
          (agent_if-HoldsSame options.forward_agent path host t.control_path b.machine) r)

  tunnelled-Leaves :
      (b : Bench) (dir : Bytes) (r : Machine × Result Bytes SshTunnel) (before : List Event)
      → StartLeaves r.1 r.0.log (made_directory dir ∷ before)
      → SessionLeaves
          (tunnelled assets path host options token b dir r).1
          (tunnelled assets path host options token b dir r).0.machine.log
          before
  tunnelled-Leaves b dir (m, err e) before h = remove_directory-HoldsSame dir m before h
  tunnelled-Leaves b dir (m, ok t) before h =
      let b' = record b { machine = m } in
      bound-Leaves t dir (bind_clipboard_forward t b') before (
        IsRunning-log t m.log _ (made_directory dir ∷ before)
          (bind_clipboard_forward-HoldsSame t b') h)

  makes_directory-HoldsSame :
      (name : Bytes) (log : List Event) → HoldsSame (makes_directory name ∷ log) log
  unfolding directories children
  makes_directory-HoldsSame name log = record { same_directories = refl; same_children = refl }

  pub establish_session-Leaves :
      (arrivals : List Arrival) (b : Bench)
      → SessionLeaves
          (establish_session assets path host options token arrivals b).1
          (establish_session assets path host options token arrivals b).0.machine.log
          b.machine.log
  unfolding establish_session
  establish_session-Leaves arrivals b =
      let attempt = makes_directory (codes "slush-ssh-") in
      let made = outcome attempt b.machine in
      let m = after (made_directory made.stdout) b.machine in
      elim (Option-cases made.failure) [
        | inr (e, bad) ↦
            rw (bad, establish_session)
              (makes_directory-HoldsSame (codes "slush-ssh-") b.machine.log)
        | inl fine ↦
            rw (fine, establish_session)
              (tunnelled-Leaves b made.stdout _ b.machine.log (
                start_ssh_tunnel-Leaves path host
                  (control_in assets path host options token made.stdout) options.conn_opts
                  options.forwards arrivals m))
      ]
