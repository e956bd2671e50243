-- ===== src/Session/Run/Exits.antt =====
-- The exit code of `Run` in internal/session/session.go, and the events of the teardown.
use slush.Base.Int.{ℤ}
use slush.Base.{
  Bool, Option, none, some, List, [], ◌∷◌, ◌≡◌, inl, inr, refl, Result, ok, err, ok-injective, ap,
  Bool-cases,
}
use slush.Machine.{
  removes_directory, removed_directory, killed, waited, Machine, outcome, after_attempt,
  remove_directory,
}
use slush.Process.Exits.{ClientExits, Follows, Follows-ClientExits, ResultExits, run_process-exits}
use slush.Process.{run_process}
use slush.Protocol.Listener.{Sockets, Server, ServerError, start_server}
use slush.Protocol.Token.{TokenError, generate_token}
use slush.Remote.Provision.{Assets}
use slush.Session.Args.{ArgsError}
use slush.Session.Client.{client_args_for}
use slush.Session.Establish.{teardown}
use slush.Session.Forward.{Transport, auto, ssh, mosh}
use slush.Session.Options.{Options}
use slush.Session.Run.{
  RunError, Session, client_path, client_result, run_args, run_client, run_found, run_selected,
  run_session, run_with, run_served, run_token, run, open_session,
}
use slush.Session.Tunnel.{SshTunnel, exit_command, stop_tunnel, Bench, Arrival}
use slush.Text.{Bytes, equal}

stop_tunnel-Follows : (t : SshTunnel) (m : Machine) → Follows (stop_tunnel t m) m
unfolding stop_tunnel exit_command
stop_tunnel-Follows t m = elim (Bool-cases t.waited_for) [
  | inl e ↦
      rw e record { later = killed ∷ exit_command t ∷ []; same_log = refl; same_answer = refl }
  | inr e ↦
      rw e record {
        later = waited ∷ killed ∷ exit_command t ∷ [];
        same_log = refl;
        same_answer = refl;
      }
]

remove_directory-Follows :
    (d : Bytes) (m m' : Machine) → Follows m m' → Follows (remove_directory d m) m'
remove_directory-Follows d m m' f = with_failure (outcome (removes_directory d) m).failure
  where
    with_failure :
        (failure : Option Bytes)
        → Follows (after_attempt (removes_directory d) (removed_directory d) failure m) m'
    with_failure none = record {
      later = removed_directory d ∷ f.later;
      same_log = ap (◌∷◌ (removed_directory d)) f.same_log;
      same_answer = f.same_answer;
    }
    with_failure (some e) = record {
      later = removes_directory d ∷ f.later;
      same_log = ap (◌∷◌ (removes_directory d)) f.same_log;
      same_answer = f.same_answer;
    }

teardown-Follows : (t : SshTunnel) (dir : Bytes) (m : Machine) → Follows (teardown t dir m) m
unfolding teardown
teardown-Follows t dir m =
    remove_directory-Follows dir (stop_tunnel t m) m (stop_tunnel-Follows t m)

-- The code that a run returns is its client's.
abbrev pub RunExits : Machine → Result RunError ℤ → Type 0
RunExits m result = (code : ℤ) → result ≡ ok code → ClientExits m code

abbrev Exits : Machine × Result RunError ℤ → Type 0
Exits (m, result) = RunExits m result

client_result-Exits : (r : Machine × Result Bytes ℤ) → ResultExits r → Exits (client_result r)
client_result-Exits (m, err e) h code same = cc
client_result-Exits (m, ok n) h code same = h code (ap ok (ok-injective same))

run_args-Exits :
    (s : Session) (terminal : Bool) (path : Bytes) (m : Machine)
    (args : Result ArgsError (List Bytes))
    → Exits (run_args s terminal path m args)
run_args-Exits s terminal path m (err e) = λ code same. cc
run_args-Exits s terminal path m (ok args) =
    client_result-Exits (run_process terminal path args (equal path s.ssh_path) m)
      (run_process-exits terminal path args (equal path s.ssh_path) m)

run_client-Exits :
    (s : Session) (terminal : Bool) (path : Bytes) (m : Machine)
    → Exits (run_client s terminal path m)
unfolding run_client
run_client-Exits s terminal path m =
    run_args-Exits s terminal path m
      (client_args_for s.options.mode s.options s.established.params terminal)

run_found-Exits :
    (s : Session) (terminal : Bool) (r : Machine × Result RunError Bytes)
    → Exits (run_found s terminal r)
run_found-Exits s terminal (m, err e) = λ code same. cc
run_found-Exits s terminal (m, ok path) = run_client-Exits s terminal path m

run_selected-Exits :
    (mode : Transport) (s : Session) (terminal : Bool) (path : Bytes) (m : Machine)
    → Exits (run_selected mode s terminal path m)
run_selected-Exits auto s terminal path m =
    run_found-Exits s terminal (client_path s.options.mode m)
run_selected-Exits ssh s terminal path m = run_client-Exits s terminal path m
run_selected-Exits mosh s terminal path m = run_client-Exits s terminal path m

run_session-exits :
    (mode : Transport) (terminal : Bool) (path : Bytes) (r : Bench × Result RunError Session)
    → RunExits (run_session mode terminal path r).0.machine (run_session mode terminal path r).1
run_session-exits mode terminal path (b, err e) code same = cc
run_session-exits mode terminal path (b, ok s) code same =
    Follows-ClientExits (teardown-Follows s.established.tunnel s.established.directory _)
      (run_selected-Exits mode s terminal path b.machine code same)

module _ (assets : Assets) (options : Options) (terminal : Bool) (arrivals : List Arrival) where
  run_with-exits :
      (token : Bytes) (b : Bench) (r : Machine × Result RunError Bytes)
      → RunExits
          (run_with assets options terminal arrivals token b r).0.machine
          (run_with assets options terminal arrivals token b r).1
  run_with-exits token b (m, err e) = λ code same. cc
  run_with-exits token b (m, ok path) =
      run_session-exits options.transport terminal path
        (open_session assets options token arrivals (record b { machine = m }))

  run_served-exits :
      (token : Bytes) (m : Machine) (r : Sockets × Result ServerError Server)
      → RunExits
          (run_served assets options terminal arrivals token m r).0
          (run_served assets options terminal arrivals token m r).2
  run_served-exits token m (sockets, err e) = λ code same. cc
  run_served-exits token m (sockets, ok server) =
      run_with-exits token (record { machine = m; sockets = sockets; server = server })
        (client_path options.transport m)

  run_token-exits :
      (m : Machine) (sockets : Sockets) (token : Result TokenError Bytes)
      → RunExits
          (run_token assets options terminal arrivals m sockets token).0
          (run_token assets options terminal arrivals m sockets token).2
  run_token-exits m sockets (err e) = λ code same. cc
  run_token-exits m sockets (ok token) = run_served-exits token m (start_server 0 token sockets)

  pub run-exits :
      (random : Result Bytes Bytes) (m : Machine) (sockets : Sockets)
      → RunExits
          (run assets options terminal arrivals random m sockets).0
          (run assets options terminal arrivals random m sockets).2
  unfolding run
  run-exits random m sockets = run_token-exits m sockets (generate_token random)
