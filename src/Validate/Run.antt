-- ===== src/Validate/Run.antt =====
-- `Run` of internal/validate/validate.go from its token to the end of its server. The clipboard is
-- reached over a network `net` with the state `D`; `platform` is what the local system adds.
pub mod Stays
pub mod Whole
use slush.Base.Int.{ℤ, pos, negsuc}
use slush.Base.{ℕ, Bool, true, false, List, [], ◌∷◌, Option, none, some, Result, ok, err, ◌==◌}
use slush.Clipboard.{System, clipboard_backend_name}
use slush.Machine.{Event, looked_up, Machine, outcome, after}
use slush.Protocol.Client
use slush.Protocol.Client.{ClientError, Network}
use slush.Protocol.Listener.{Sockets, Server, ServerError, start_server, stop}
use slush.Protocol.Token.{TokenError, generate_token}
use slush.Remote.Provision.{Assets}
use slush.Session.Args.{ArgsError}
use slush.Session.Client.{wrapped_command}
use slush.Session.Forward.{Transport, auto, ssh, mosh}
use slush.Session.Options.{Options}
use slush.Session.Run.{
  RunError, Session, environment, session_transport, look_path, close_session, probe, open_session,
}
use slush.Session.Tunnel.{Bench, Arrival}
use slush.Text.{Bytes, codes}
use slush.Validate.Texts.{server_text, arguments_text, run_text, client_text}
use slush.Validate.{Connection, Validator, fail, run_checks}

abbrev pub with_text {ℓ} : {E : Type 0} {A : Type ℓ} → (E → Bytes) → Result E A → Result Bytes A
with_text text (ok a) = ok a
with_text text (err e) = err (text e)

abbrev pub is_mosh : Transport → Bool
is_mosh mosh = true
is_mosh ssh = false
is_mosh auto = false

-- The kind of system, whether WAYLAND_DISPLAY is set, and what the system says of a failed read.
pub record Platform : Type 0 where
  pub system : System
  pub wayland : Bool
  pub cause : Bytes

module _ {D : Type 0} (net : Network D) (platform : Platform) where
  abbrev pub probe_world :
      D → Machine × Bytes × Result Bytes Bytes → (Machine × D) × Result Bytes Bytes
  probe_world d (m, stdin, result) = ((m, d), result)

  abbrev pub copy_world :
      Machine → D × Result ClientError (Unit {0}) → (Machine × D) × Result Bytes (Unit {0})
  copy_world m (d, result) =
      ((m, d), with_text (client_text (codes "request") platform.cause) result)

  abbrev pub paste_world :
      Machine → D × Result ClientError Bytes → (Machine × D) × Result Bytes Bytes
  paste_world m (d, result) =
      ((m, d), with_text (client_text (codes "header") platform.cause) result)

  -- No listener has a negative port, and none is dialled.
  abbrev pub copy_to : ℤ → Bytes → Bytes → Machine × D → (Machine × D) × Result Bytes (Unit {0})
  copy_to (pos port) token payload (m, d) =
      copy_world m (Client.copy net port token (some payload) d)
  copy_to (negsuc n) token payload (m, d) = ((m, d), err (codes "invalid port"))

  abbrev pub paste_from : ℤ → Bytes → Machine × D → (Machine × D) × Result Bytes Bytes
  paste_from (pos port) token (m, d) = paste_world m (Client.paste net port token d)
  paste_from (negsuc n) token (m, d) = ((m, d), err (codes "invalid port"))

  abbrev pub probe_session : Session → Bytes → Machine × D → (Machine × D) × Result Bytes Bytes
  probe_session s script (m, d) = probe_world d (probe s script m)

  abbrev pub backend_world : D → Machine × Bytes → (Machine × D) × Bytes
  backend_world d (m, name) = ((m, d), name)

  -- What the checks use of the session that is open, with the port that the server then has.
  abbrev pub connection : Session → Server → Bytes → Connection (Machine × D)
  connection s server token = record {
    probe = probe_session s;
    copy = copy_to server.port token;
    paste = paste_from server.port token;
    backend_name =
        λ w. backend_world w.1 (clipboard_backend_name platform.system platform.wayland w.0);
    wrapped_command = λ command.
        with_text arguments_text (wrapped_command s.options s.established.params command);
    uses_mosh = is_mosh (session_transport s);
    token = (environment s).token;
    port = server.port;
  }

  pub record Validated : Type 0 where
    pub machine : Machine
    pub desk : D
    pub sockets : Sockets
    pub report : Validator
    pub result : Result ℕ (Unit {0})

  abbrev pub no_lines : Validator
  no_lines = record { out = []; failed = 0; passed = 0 }

  -- `v.fail(name, detail)` and "1 check failed", at the end of all that was begun.
  abbrev pub one_failed : Bytes → Bytes → Machine → D → Sockets → Validated
  one_failed name detail m d s = record {
    machine = m;
    desk = d;
    sockets = s;
    report = fail name detail no_lines;
    result = err 1;
  }

  -- The session is closed, and then the server is stopped.
  abbrev pub closing_checks :
      Session → Bench → (Machine × D) × Validator × Result ℕ (Unit {0}) → Validated
  closing_checks s b ((m, d), report, result) = record {
    machine = close_session s m;
    desk = d;
    sockets = stop (some b.server) b.sockets;
    report = report;
    result = result;
  }

  module _ (assets : Assets) (options : Options) (arrivals : List Arrival) (times : ℕ × ℕ)
      (client : Bytes) where
    abbrev pub checked : Bytes → D → Bench × Result RunError Session → Validated
    checked token d (b, err e) =
        one_failed (codes "tunnel") (run_text e) b.machine d (stop (some b.server) b.sockets)
    checked token d (b, ok s) = closing_checks s b (
        run_checks (connection s b.server token) options.forward_agent times.0 times.1 client
          (b.machine, d))

    abbrev pub found_ssh : Bytes → D → Bench → Machine × Result RunError Bytes → Validated
    found_ssh token d b (m, err e) =
        one_failed (codes "tunnel") (codes "ssh not found on PATH") m d
          (stop (some b.server) b.sockets)
    found_ssh token d b (m, ok path) =
        checked token d (open_session assets options token arrivals (record b { machine = m }))

    abbrev pub served : Bytes → Machine → D → Sockets × Result ServerError Server → Validated
    served token m d (sockets, err e) =
        one_failed (codes "clipboard server") (server_text e) m d sockets
    served token m d (sockets, ok server) =
        found_ssh token d (record { machine = m; sockets = sockets; server = server })
          (look_path (codes "ssh") m)

    abbrev pub with_token :
        Machine → D → Sockets → Result TokenError Bytes → Result TokenError Validated
    with_token m d sockets (err e) = err e
    with_token m d sockets (ok token) = ok (served token m d (start_server 0 token sockets))

    -- `Run`; the random bytes of the token, or their error, are an argument.
    unfoldable pub run_validation :
        Result Bytes Bytes → Machine → D → Sockets → Result TokenError Validated
    run_validation random m d sockets = with_token m d sockets (generate_token random)
