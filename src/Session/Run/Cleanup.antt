-- ===== src/Session/Run/Cleanup.antt =====
-- What is held after a session of internal/session/session.go is opened and closed.
use slush.Base.Int.{ℤ}
use slush.Base.{Bool, List, ◌∷◌, ◌∙◌, ap, inl, inr, arith, Result, ok, err, Option-cases}
use slush.Machine.Held.{directories, children, HoldsSame, HoldsSame-trans}
use slush.Machine.{Event, makes_directory, made_directory, Machine, outcome}
use slush.Protocol.Listener.Serving.{IsServing}
use slush.Protocol.Listener.{Listener}
use slush.Remote.Provision.{Assets}
use slush.Session.Args.{ArgsError}
use slush.Session.Client.{session_host}
use slush.Session.Establish.Cleanup.{SessionLeaves, establish_session-Leaves, teardown-HoldsSame}
use slush.Session.Establish.{SessionError, Established, establish_session, tunnelled, bound}
use slush.Session.Forward.{Transport, auto, ssh, mosh}
use slush.Session.Options.{Options, SessionOptions, native_options}
use slush.Session.Run.Held.{look_path-HoldsSame, auto_transport-HoldsSame, run_selected-HoldsSame}
use slush.Session.Run.{
  RunError, Session, look_path, auto_transport, select, selected, opened, open_to, open_with,
  open_session, run_selected, run_session, run_with, with_machine, closing,
}
use slush.Session.Tunnel.Binding.{bind_clipboard_forward-IsServing}
use slush.Session.Tunnel.Stopping.{IsRunning, IsRunning-log}
use slush.Session.Tunnel.{SshTunnel, Bench, BindError, Arrival, bind_clipboard_forward}
use slush.Text.{Bytes, codes}

abbrev pub SessionHeld : Result RunError Session → List Event → List Event → Type 0
SessionHeld (ok s) log before =
    IsRunning s.established.tunnel log (made_directory s.established.directory ∷ before)
SessionHeld (err e) log before = HoldsSame log before

-- What holds of a run that is under way, with its server and with what was held before it.
pub record IsKept (b : Bench) (before : List Event) (token : Bytes) (others : List Listener)
    : Type 0 where
  pub serving : IsServing b.server b.sockets token others
  pub held : HoldsSame b.machine.log before

-- What opening a session leaves, its server included.
pub record OpenLeaves (r : Bench × Result RunError Session) (before : List Event) (token : Bytes)
    (others : List Listener) : Type 0 where
  pub serving : IsServing r.0.server r.0.sockets token others
  pub held : SessionHeld r.1 r.0.machine.log before

module _ (before : List Event) (token : Bytes) (others : List Listener) where
  selected-Leaves :
      (options : Options) (s : Session) (b : Bench) (r : Machine × Result RunError Transport)
      → IsServing b.server b.sockets token others
      → IsRunning s.established.tunnel r.0.log (made_directory s.established.directory ∷ before)
      → OpenLeaves (with_machine b (selected options s r)) before token others
  selected-Leaves options s b (m, err e) serving running = record {
    serving = serving;
    held = teardown-HoldsSame s.established.tunnel s.established.directory m before running;
  }
  selected-Leaves options s b (m, ok mode) serving running = record {
    serving = serving;
    held = running;
  }

  select-Leaves :
      (mode : Transport) (options : Options) (s : Session) (b : Bench)
      → IsServing b.server b.sockets token others
      → IsRunning s.established.tunnel b.machine.log
          (made_directory s.established.directory ∷ before)
      → OpenLeaves (with_machine b (select mode options s b.machine)) before token others
  select-Leaves auto options s b serving running =
      selected-Leaves options s b (auto_transport s b.machine) serving (
        IsRunning-log s.established.tunnel b.machine.log _
          (made_directory s.established.directory ∷ before) (auto_transport-HoldsSame s b.machine)
          running)
  select-Leaves ssh options s b serving running = record { serving = serving; held = running }
  select-Leaves mosh options s b serving running = record { serving = serving; held = running }

  opened-Leaves :
      (options : Options) (path host : Bytes) (r : Bench × Result SessionError Established)
      → IsServing r.0.server r.0.sockets token others
      → SessionLeaves r.1 r.0.machine.log before
      → OpenLeaves (opened options path host r) before token others
  opened-Leaves options path host (b, err e) serving held = record {
    serving = serving;
    held = held;
  }
  opened-Leaves options path host (b, ok established) serving held =
      let s : Session = record {
        options = native_options options;
        ssh_path = path;
        host = host;
        established = established;
      } in
      select-Leaves options.transport options s b serving held

  closing-IsKept :
      (s : Session) (b : Bench) (r : Machine × Result RunError ℤ)
      → IsServing b.server b.sockets token others
      → IsRunning s.established.tunnel r.0.log (made_directory s.established.directory ∷ before)
      → IsKept (closing s b r).0 before token others
  closing-IsKept s b (m, result) serving running = record {
    serving = serving;
    held = teardown-HoldsSame s.established.tunnel s.established.directory m before running;
  }

  run_session-IsKept :
      (mode : Transport) (terminal : Bool) (path : Bytes) (r : Bench × Result RunError Session)
      → OpenLeaves r before token others
      → IsKept (run_session mode terminal path r).0 before token others
  run_session-IsKept mode terminal path (b, err e) h = record { serving = h.serving; held = h.held }
  run_session-IsKept mode terminal path (b, ok s) h =
      closing-IsKept s b (run_selected mode s terminal path b.machine) h.serving (
        IsRunning-log s.established.tunnel b.machine.log _
          (made_directory s.established.directory ∷ before)
          (run_selected-HoldsSame mode s terminal path b.machine) h.held)

  -- What was made since `log` was made since `before`, when both hold the same.
  SessionLeaves-since :
      (r : Result SessionError Established) (later log : List Event)
      → HoldsSame log before
      → SessionLeaves r later log
      → SessionLeaves r later before
  unfolding directories children
  SessionLeaves-since (err e) later log h held = HoldsSame-trans held h
  SessionLeaves-since (ok s) later log h running = record {
    same_directories = running.same_directories ∙ ap (◌∷◌ s.directory) h.same_directories;
    one_child = ground (arith, running.one_child, h.same_children);
  }

  module _ (assets : Assets) (path host : Bytes) (options : SessionOptions) (given : Bytes) where
    bound-IsServing :
        (t : SshTunnel) (dir : Bytes) (r : Bench × Result BindError (Unit {0}))
        → IsServing r.0.server r.0.sockets token others
        → IsServing
            (bound assets path host options given t dir r).0.server
            (bound assets path host options given t dir r).0.sockets
            token
            others
    bound-IsServing t dir (b, err e) h = h
    bound-IsServing t dir (b, ok tt) h = h

    tunnelled-IsServing :
        (b : Bench) (dir : Bytes) (r : Machine × Result Bytes SshTunnel)
        → IsServing b.server b.sockets token others
        → IsServing
            (tunnelled assets path host options given b dir r).0.server
            (tunnelled assets path host options given b dir r).0.sockets
            token
            others
    tunnelled-IsServing b dir (m, err e) h = h
    tunnelled-IsServing b dir (m, ok t) h =
        let b' = record b { machine = m } in
        bound-IsServing t dir (bind_clipboard_forward t b')
          (bind_clipboard_forward-IsServing t token others b' h)

    establish_session-IsServing :
        (arrivals : List Arrival) (b : Bench)
        → IsServing b.server b.sockets token others
        → IsServing
            (establish_session assets path host options given arrivals b).0.server
            (establish_session assets path host options given arrivals b).0.sockets
            token
            others
    unfolding establish_session
    establish_session-IsServing arrivals b h =
        let made = outcome (makes_directory (codes "slush-ssh-")) b.machine in
        elim (Option-cases made.failure) [
          | inr (e, bad) ↦ rw (bad, establish_session) h
          | inl fine ↦ rw (fine, establish_session) (tunnelled-IsServing b made.stdout _ h)
        ]

  module _ (assets : Assets) (options : Options) (given : Bytes) (arrivals : List Arrival) where
    open_to-Leaves :
        (b : Bench) (path : Bytes) (host : Result ArgsError Bytes)
        → IsKept b before token others
        → OpenLeaves (open_to assets options given arrivals b path host) before token others
    open_to-Leaves b path (err e) h = record { serving = h.serving; held = h.held }
    open_to-Leaves b path (ok host) h =
        let native = native_options options in
        let r = establish_session assets path host native given arrivals b in
        opened-Leaves options path host r
          (establish_session-IsServing assets path host native given arrivals b h.serving)
          (SessionLeaves-since r.1 r.0.machine.log b.machine.log h.held
            (establish_session-Leaves assets path host native given arrivals b))

    open_with-Leaves :
        (b : Bench) (r : Machine × Result RunError Bytes)
        → IsServing b.server b.sockets token others
        → HoldsSame r.0.log before
        → OpenLeaves (open_with assets options given arrivals b r) before token others
    open_with-Leaves b (m, err e) serving held = record { serving = serving; held = held }
    open_with-Leaves b (m, ok path) serving held =
        open_to-Leaves (record b { machine = m }) path (session_host (native_options options))
          record { serving = serving; held = held }

    pub open_session-Leaves :
        (b : Bench)
        → IsKept b before token others
        → OpenLeaves (open_session assets options given arrivals b) before token others
    unfolding open_session
    open_session-Leaves b h =
        open_with-Leaves b (look_path (codes "ssh") b.machine) h.serving
          (HoldsSame-trans (look_path-HoldsSame (codes "ssh") b.machine) h.held)

    pub run_with-IsKept :
        (terminal : Bool) (b : Bench) (r : Machine × Result RunError Bytes)
        → IsServing b.server b.sockets token others
        → HoldsSame r.0.log before
        → IsKept (run_with assets options terminal arrivals given b r).0 before token others
    run_with-IsKept terminal b (m, err e) serving held = record { serving = serving; held = held }
    run_with-IsKept terminal b (m, ok path) serving held =
        let b' = record b { machine = m } in
        run_session-IsKept options.transport terminal path
          (open_session assets options given arrivals b')
          (open_session-Leaves b' record { serving = serving; held = held })
