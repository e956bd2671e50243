-- ===== src/Session/Run/Held.antt =====
-- What is held after the commands of a run in internal/session/session.go.
use slush.Base.Int.{ℤ}
use slush.Base.{Bool, List, refl, Result, ok, err}
use slush.Machine.Held.{
  directories, children, HoldsSame, HoldsSame-ran, HoldsSame-trans, HoldsSame-refl,
}
use slush.Machine.{Event, Machine}
use slush.Process.Waiting.{run_process-HoldsSame}
use slush.Remote.Provision.{ssh_exec}
use slush.Session.Args.{ArgsError}
use slush.Session.Forward.{Transport, auto, ssh, mosh}
use slush.Session.Run.{
  RunError, Session, look_path, client_path, auto_transport, run_client, run_args, run_found,
  run_selected, ask_remote, detection, detection_run, client_result,
}
use slush.Text.{Bytes, codes}

pub look_path-HoldsSame : (name : Bytes) (m : Machine) → HoldsSame (look_path name m).0.log m.log
unfolding look_path directories children
look_path-HoldsSame name m = record { same_directories = refl; same_children = refl }

pub ssh_exec-HoldsSame :
    (path host script stdin : Bytes) (extra : List Bytes) (m : Machine)
    → HoldsSame (ssh_exec path host script stdin extra m).0.log m.log
unfolding ssh_exec
ssh_exec-HoldsSame path host script stdin extra m = HoldsSame-ran _ _ _ _

detection-HoldsSame :
    (r : Machine × Bytes × Result Bytes Bytes) (before : List Event)
    → HoldsSame r.0.log before
    → HoldsSame (detection r).0.log before
detection-HoldsSame (m, stdin, ok output) before h = h
detection-HoldsSame (m, stdin, err e) before h = h

ask_remote-HoldsSame :
    (s : Session) (r : Machine × Result RunError Bytes) (before : List Event)
    → HoldsSame r.0.log before
    → HoldsSame (ask_remote s r).0.log before
ask_remote-HoldsSame s (m, err e) before h = h
ask_remote-HoldsSame s (m, ok path) before h =
    detection-HoldsSame (detection_run s m) before
      (HoldsSame-trans (ssh_exec-HoldsSame _ _ _ _ _ m) h)

pub auto_transport-HoldsSame :
    (s : Session) (m : Machine) → HoldsSame (auto_transport s m).0.log m.log
unfolding auto_transport
auto_transport-HoldsSame s m =
    ask_remote-HoldsSame s (look_path (codes "mosh") m) m.log (look_path-HoldsSame (codes "mosh") m)

client_result-HoldsSame :
    (r : Machine × Result Bytes ℤ) (before : List Event)
    → HoldsSame r.0.log before
    → HoldsSame (client_result r).0.log before
client_result-HoldsSame (m, ok code) before h = h
client_result-HoldsSame (m, err e) before h = h

run_args-HoldsSame :
    (s : Session) (terminal : Bool) (path : Bytes) (m : Machine)
    (args : Result ArgsError (List Bytes))
    → HoldsSame (run_args s terminal path m args).0.log m.log
run_args-HoldsSame s terminal path m (err e) = HoldsSame-refl m.log
run_args-HoldsSame s terminal path m (ok args) =
    client_result-HoldsSame _ m.log (run_process-HoldsSame terminal path args _ m)

run_client-HoldsSame :
    (s : Session) (terminal : Bool) (path : Bytes) (m : Machine)
    → HoldsSame (run_client s terminal path m).0.log m.log
unfolding run_client
run_client-HoldsSame s terminal path m = run_args-HoldsSame s terminal path m _

run_found-HoldsSame :
    (s : Session) (terminal : Bool) (r : Machine × Result RunError Bytes) (before : List Event)
    → HoldsSame r.0.log before
    → HoldsSame (run_found s terminal r).0.log before
run_found-HoldsSame s terminal (m, err e) before h = h
run_found-HoldsSame s terminal (m, ok path) before h =
    HoldsSame-trans (run_client-HoldsSame s terminal path m) h

pub run_selected-HoldsSame :
    (mode : Transport) (s : Session) (terminal : Bool) (path : Bytes) (m : Machine)
    → HoldsSame (run_selected mode s terminal path m).0.log m.log
run_selected-HoldsSame auto s terminal path m =
    run_found-HoldsSame s terminal (client_path s.options.mode m) m.log (look_path-HoldsSame _ m)
run_selected-HoldsSame ssh s terminal path m = run_client-HoldsSame s terminal path m
run_selected-HoldsSame mosh s terminal path m = run_client-HoldsSame s terminal path m
