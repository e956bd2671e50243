-- ===== src/Validate/Run/Whole.antt =====
-- The whole of `Run` in internal/validate/validate.go: its report, its result and what is held at its
-- end.
use slush.Base.{ℕ, List, ◌∷◌, ◌≡◌, refl, subst, Result, ok, err}
use slush.Base.Int.{ℤ, pos, negsuc}
use slush.Clipboard.Held.{clipboard_backend_name-HoldsSame}
use slush.Machine.Held.{HoldsSame, HoldsSame-refl, HoldsSame-trans}
use slush.Machine.{Event, made_directory, Machine}
use slush.Protocol.Client.{Network}
use slush.Protocol.Listener.Serving.{
  IsNumbered, IsBelow, IsServing, StartServes, start_server-Serves, stop-IsServing,
}
use slush.Protocol.Listener.{Sockets, Server, ServerError, start_server}
use slush.Protocol.Token.{TokenError, generate_token}
use slush.Remote.Provision.{Assets}
use slush.Session.Establish.Cleanup.{teardown-HoldsSame}
use slush.Session.Options.{Options}
use slush.Session.Run.Cleanup.{OpenLeaves, open_session-Leaves}
use slush.Session.Run.Held.{look_path-HoldsSame, ssh_exec-HoldsSame}
use slush.Session.Run.{RunError, Session, look_path, open_session, probe}
use slush.Session.Tunnel.Stopping.{IsRunning, IsRunning-log}
use slush.Session.Tunnel.{Bench, Arrival}
use slush.Text.{Bytes, codes}
use slush.Validate.Report.{failures, IsCounted}
use slush.Validate.Results.{reported, Reports, run_checks-Reports}
use slush.Validate.Run.Stays.{CallsKeep, run_checks-stays}
use slush.Validate.Run.{
  Platform, Validated, connection, copy_to, paste_from, one_failed, closing_checks, checked,
  found_ssh, served, with_token, run_validation,
}
use slush.Validate.{Validator}

module _ {D : Type 0} (net : Network D) (platform : Platform) where
  -- The counters are the numbers of the lines, the result is the number of failures, directories and
  -- children are held as before, and the same listeners are open.
  pub record IsSound (v : Validated net platform) (m : Machine) (sockets : Sockets) : Type 0 where
    pub counted : IsCounted v.report
    pub result : v.result ≡ reported (failures v.report.out)
    pub same_held : HoldsSame v.machine.log m.log
    pub same_listening : v.sockets.listening ≡ sockets.listening

  -- Without a token nothing is done.
  abbrev pub IsSoundRun : Result TokenError (Validated net platform) → Machine → Sockets → Type 0
  IsSoundRun (err e) m sockets = Unit
  IsSoundRun (ok v) m sockets = IsSound v m sockets

  one_failed-IsSound :
      (name detail : Bytes) (m' m : Machine) (d : D) (s sockets : Sockets)
      → HoldsSame m'.log m.log
      → s.listening ≡ sockets.listening
      → IsSound (one_failed net platform name detail m' d s) m sockets
  one_failed-IsSound name detail m' m d s sockets held listening = record {
    counted = record { all_failures = refl; all_passes = refl };
    result = refl;
    same_held = held;
    same_listening = listening;
  }

  -- The checks of a session change the log by the commands of its probes.
  module _ (s : Session) (server : Server) (token : Bytes) (before : List Event) where
    abbrev Held : Machine × D → Type 0
    Held (m, d) = HoldsSame m.log before

    copy_to-Held :
        (port : ℤ) (payload : Bytes) (w : Machine × D)
        → Held w
        → Held (copy_to net platform port token payload w).0
    copy_to-Held (pos port) payload (m, d) h = h
    copy_to-Held (negsuc n) payload (m, d) h = h

    paste_from-Held :
        (port : ℤ) (w : Machine × D) → Held w → Held (paste_from net platform port token w).0
    paste_from-Held (pos port) (m, d) h = h
    paste_from-Held (negsuc n) (m, d) h = h

    probe-Held : (script : Bytes) (m : Machine) → HoldsSame (probe s script m).0.log m.log
    unfolding probe
    probe-Held script m = ssh_exec-HoldsSame _ _ _ _ _ m

    connection-CallsKeep : CallsKeep (connection net platform s server token) Held
    connection-CallsKeep = record {
      by_probe = λ script w h. HoldsSame-trans (probe-Held script w.0) h;
      by_copy = copy_to-Held server.port;
      by_paste = paste_from-Held server.port;
      by_backend_name = λ w h.
          HoldsSame-trans (clipboard_backend_name-HoldsSame platform.system platform.wayland w.0) h;
    }

  module _ (assets : Assets) (options : Options) (arrivals : List Arrival) (times : ℕ × ℕ)
      (client : Bytes) (m : Machine) (sockets : Sockets) where
    closing_checks-IsSound :
        (s : Session) (b : Bench) (token : Bytes)
        (r : (Machine × D) × Validator × Result ℕ (Unit {0}))
        → IsServing b.server b.sockets token sockets.listening
        → IsRunning s.established.tunnel r.0.0.log (made_directory s.established.directory ∷ m.log)
        → Reports r
        → IsSound (closing_checks net platform s b r) m sockets
    closing_checks-IsSound s b token ((m', d), report, result) serving running reports = record {
      counted = reports.counted;
      result = reports.result;
      same_held = teardown-HoldsSame s.established.tunnel s.established.directory m' m.log running;
      same_listening = stop-IsServing b.server b.sockets token sockets.listening serving;
    }

    checked-IsSound :
        (token : Bytes) (d : D) (r : Bench × Result RunError Session)
        → OpenLeaves r m.log token sockets.listening
        → IsSound (checked net platform assets options arrivals times client token d r) m sockets
    checked-IsSound token d (b, err e) h =
        one_failed-IsSound _ _ b.machine m d _ sockets h.held
          (stop-IsServing b.server b.sockets token sockets.listening h.serving)
    checked-IsSound token d (b, ok s) h =
        let c = connection net platform s b.server token in
        let held =
          run_checks-stays c (Held s b.server token b.machine.log)
            (connection-CallsKeep s b.server token b.machine.log) options.forward_agent times.0
            times.1 client (b.machine, d) (HoldsSame-refl b.machine.log) in
        closing_checks-IsSound s b token _ h.serving
          (IsRunning-log s.established.tunnel b.machine.log _
            (made_directory s.established.directory ∷ m.log) held h.held)
          (run_checks-Reports c options.forward_agent times.0 times.1 client (b.machine, d))

    found_ssh-IsSound :
        (token : Bytes) (d : D) (b : Bench) (r : Machine × Result RunError Bytes)
        → IsServing b.server b.sockets token sockets.listening
        → HoldsSame r.0.log m.log
        → IsSound
            (found_ssh net platform assets options arrivals times client token d b r)
            m
            sockets
    found_ssh-IsSound token d b (m', err e) serving held =
        one_failed-IsSound _ _ m' m d _ sockets held
          (stop-IsServing b.server b.sockets token sockets.listening serving)
    found_ssh-IsSound token d b (m', ok path) serving held =
        let b' = record b { machine = m' } in
        checked-IsSound token d (open_session assets options token arrivals b') (
          open_session-Leaves m.log token sockets.listening assets options token arrivals b'
            (record { serving = serving; held = held }))

    served-IsSound :
        (token : Bytes) (d : D) (r : Sockets × Result ServerError Server)
        → StartServes r.1 r.0 token sockets.listening
        → IsSound (served net platform assets options arrivals times client token m d r) m sockets
    served-IsSound token d (s, err e) h =
        one_failed-IsSound _ _ m m d s sockets (HoldsSame-refl m.log) h
    served-IsSound token d (s, ok server) h =
        let b : Bench = record { machine = m; sockets = s; server = server } in
        found_ssh-IsSound token d b (look_path (codes "ssh") m) h
          (look_path-HoldsSame (codes "ssh") m)

    with_token-IsSoundRun :
        (token : Result TokenError Bytes) (d : D)
        → IsNumbered sockets
        → IsBelow sockets.calls sockets.listening
        → IsSoundRun
            (with_token net platform assets options arrivals times client m d sockets token)
            m
            sockets
    with_token-IsSoundRun (err e) d numbered before = tt
    with_token-IsSoundRun (ok token) d numbered before =
        served-IsSound token d (start_server 0 token sockets)
          (start_server-Serves 0 token sockets numbered before)

    pub run_validation-IsSoundRun :
        (random : Result Bytes Bytes) (d : D)
        → IsNumbered sockets
        → IsBelow sockets.calls sockets.listening
        → IsSoundRun
            (run_validation net platform assets options arrivals times client random m d sockets)
            m
            sockets
    unfolding run_validation
    run_validation-IsSoundRun random d numbered before =
        with_token-IsSoundRun (generate_token random) d numbered before

    -- When a validation has its token, then however it ends, its counters are the numbers of
    -- failed and passed lines in the report, it succeeds when no line has failed, or else fails
    -- with their number, the removal of every temporary directory that it made has been tried,
    -- every child process that it started is waited for, and just the listeners that were open
    -- before it are open. Sockets are named by the calls that open them.
    pub run_validation-IsSound :
        (random : Result Bytes Bytes) (d : D) {v : Validated net platform}
        → IsNumbered sockets
        → IsBelow sockets.calls sockets.listening
        → run_validation net platform assets options arrivals times client random m d sockets ≡ ok v
        → IsSound v m sockets
    run_validation-IsSound random d numbered before h =
        subst (λ r. IsSoundRun r m sockets) h (run_validation-IsSoundRun random d numbered before)
