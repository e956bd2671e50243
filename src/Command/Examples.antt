-- ===== src/Command/Examples.antt =====
-- The theorems on the command line at concrete inputs.
use slush.Base.{none, true, false, List, [], ◌∷◌, ◌≡◌, refl, ap, arith, ok}
use slush.Command.Program.Clean.{IsClean, program-IsClean}
use slush.Clipboard.{other}
use slush.Command.Program.Codes.{HasStatus, program-HasStatus}
use slush.Command.Program.{starts_session, validates, World, Setting, program}
use slush.Protocol.Client.{Network, refused}
use slush.Session.Options.{Options}
use slush.Session.Run.Samples.{no_sockets, empty_assets}
use slush.Session.Run.{run}
use slush.Session.Tunnel.{ticked}
use slush.Command.Hosts.{IsAccepted, options-session_host}
use slush.Command.{Files, Flags, options, made_options, bad_host, validate_connection_files}
use slush.Machine.{Event, Outcome, Machine}
use slush.Session.Client.{session_host}
use slush.Session.Forward.{mosh}
use slush.Session.Options.{native_options}
use slush.Text.{Bytes, codes, has_prefix}

abbrev well : List Event → Event → Outcome
well log e = record {
  failure = none;
  exit_code = none;
  stdout = [];
  stderr = [];
  combined = [];
  consumed = 0;
}

abbrev home : Machine
home = record { answer = well; log = [] }

abbrev all_regular : Files
all_regular path = ok true

abbrev some_flags : Flags
some_flags = record {
  transport = mosh;
  forward_agent = false;
  port = 2222;
  identity = codes "/id";
  config = [];
  local = [];
  remote = [];
}

abbrev words : List Bytes
words = codes "me@host" ∷ codes "ls" ∷ codes "-l" ∷ []

abbrev session : Options
session = made_options some_flags (codes "me@host") (codes "ls" ∷ codes "-l" ∷ [])

accepts : options all_regular some_flags false words home ≡ (home, ok session)
unfolding options bad_host has_prefix validate_connection_files
accepts = refl

options-session_host_example :
    (accepted : IsAccepted all_regular some_flags words
      (made_options some_flags (codes "me@host") (codes "ls" ∷ codes "-l" ∷ [])))
    × (session_host (
          native_options (made_options some_flags (codes "me@host") (codes "ls" ∷ codes "-l" ∷ [])))
        ≡ ok accepted.host)
options-session_host_example =
    options-session_host all_regular some_flags false words home (ap (λ r. r.1) accepts)

abbrev set : Setting
set = record {
  assets = empty_assets;
  files = all_regular;
  flags = some_flags;
  changed = λ flag. false;
  timed_out = false;
  terminal = true;
  arrivals = ticked ∷ [];
  random = ok (7 ∷ 8 ∷ []);
  times = (17, 18);
  client = codes "client";
  platform = record { system = other; wayland = false; cause = codes "EOF" };
}

abbrev cut_off : Network (Unit {0})
cut_off = λ port request w. (w, refused (codes "connection refused"))

abbrev world : World (Unit {0})
world = record { machine = home; desk = tt; sockets = no_sockets }

program-IsClean_example :
    IsClean cut_off set (program cut_off set (validates (codes "host" ∷ [])) world).world world
program-IsClean_example =
    program-IsClean cut_off set world (λ call port l answered. ground (arith, answered)) tt
      (validates (codes "host" ∷ []))

program-HasStatus_example :
    HasStatus cut_off set
      (program cut_off set (starts_session words) world)
      (run set.assets session set.terminal set.arrivals set.random home no_sockets).2
program-HasStatus_example =
    program-HasStatus cut_off set (codes "me@host") (codes "ls" ∷ codes "-l" ∷ []) world home
      session accepts
