-- ===== src/Session/Run/Complete.antt =====
-- A whole run, from its token to the end of its server.
use slush.Base.Int.{ℤ}
use slush.Base.{Bool, List, ◌≡◌, refl, Result, ok, err}
use slush.Machine.Held.{HoldsSame, HoldsSame-refl}
use slush.Machine.{Machine}
use slush.Protocol.Listener.Serving.{
  IsNumbered, IsBelow, StartServes, start_server-Serves, stop-IsServing,
}
use slush.Protocol.Listener.{Sockets, Server, ServerError, start_server}
use slush.Protocol.Token.{TokenError, generate_token}
use slush.Remote.Provision.{Assets}
use slush.Session.Options.{Options}
use slush.Session.Run.Cleanup.{IsKept, run_with-IsKept}
use slush.Session.Run.Held.{look_path-HoldsSame}
use slush.Session.Run.{
  RunError, client_path, client_name, run_with, run_served, run_token, run, stopping,
}
use slush.Session.Tunnel.{Bench, Arrival}
use slush.Text.{Bytes}

-- Directories and children are held as before, and the same listeners are open.
pub record LeavesNothing (r : Machine × Sockets × Result RunError ℤ) (m : Machine)
    (sockets : Sockets) : Type 0 where
  pub same_held : HoldsSame r.0.log m.log
  pub same_listening : r.1.listening ≡ sockets.listening

stopping-LeavesNothing :
    (m : Machine) (sockets : Sockets) (token : Bytes) (r : Bench × Result RunError ℤ)
    → IsKept r.0 m.log token sockets.listening
    → LeavesNothing (stopping r) m sockets
stopping-LeavesNothing m sockets token (b, result) h = record {
  same_held = h.held;
  same_listening = stop-IsServing b.server b.sockets token sockets.listening h.serving;
}

module _ (assets : Assets) (options : Options) (terminal : Bool) (arrivals : List Arrival)
    (m : Machine) (sockets : Sockets) where
  run_served-LeavesNothing :
      (token : Bytes) (r : Sockets × Result ServerError Server)
      → StartServes r.1 r.0 token sockets.listening
      → LeavesNothing (run_served assets options terminal arrivals token m r) m sockets
  run_served-LeavesNothing token (s, err e) h = record {
    same_held = HoldsSame-refl m.log;
    same_listening = h;
  }
  run_served-LeavesNothing token (s, ok server) h =
      let b : Bench = record { machine = m; sockets = s; server = server } in
      let found = client_path options.transport m in
      stopping-LeavesNothing m sockets token
        (run_with assets options terminal arrivals token b found)
        (run_with-IsKept m.log token sockets.listening assets options token arrivals terminal b
          found h (look_path-HoldsSame (client_name options.transport) m))

  run_token-LeavesNothing :
      (token : Result TokenError Bytes)
      → IsNumbered sockets
      → IsBelow sockets.calls sockets.listening
      → LeavesNothing (run_token assets options terminal arrivals m sockets token) m sockets
  run_token-LeavesNothing (err e) numbered before = record {
    same_held = HoldsSame-refl m.log;
    same_listening = refl;
  }
  run_token-LeavesNothing (ok token) numbered before =
      run_served-LeavesNothing token (start_server 0 token sockets)
        (start_server-Serves 0 token sockets numbered before)

  -- However a run ends, with the exit code of the client or with any error on the way, the removal
  -- of every temporary directory that it made has been tried, every child process that it started
  -- is waited for, and just the listeners that were open before it are open. Sockets are named by
  -- the calls that open them.
  pub run-LeavesNothing :
      (random : Result Bytes Bytes)
      → IsNumbered sockets
      → IsBelow sockets.calls sockets.listening
      → LeavesNothing (run assets options terminal arrivals random m sockets) m sockets
  unfolding run
  run-LeavesNothing random numbered before =
      run_token-LeavesNothing (generate_token random) numbered before
