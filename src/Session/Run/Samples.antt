-- ===== src/Session/Run/Samples.antt =====
-- A small machine for the examples of runs.
use slush.Base.{false, none, List, [], ◌++◌, ok}
use slush.Machine.{Event, Outcome, Machine}
use slush.Protocol.Listener.{Sockets}
use slush.Remote.Provision.{Assets}
use slush.Session.Forward.{auto}
use slush.Session.Options.{Options}
use slush.Text.Decimal.{itoa}
use slush.Text.{codes}

-- All goes well, and the remote answers to the question for Mosh that it has it.
abbrev pub with_mosh : List Event → Event → Outcome
with_mosh log e = record {
  failure = none;
  exit_code = none;
  stdout = codes "mosh";
  stderr = [];
  combined = codes "mosh";
  consumed = 0;
}

abbrev pub a_machine : Machine
a_machine = record { answer = with_mosh; log = [] }

abbrev pub no_sockets : Sockets
no_sockets = record {
  reply =
      λ call port. ok (record { descriptor = call; address = codes "127.0.0.1:4000" ++ itoa call });
  calls = 0;
  listening = [];
}

abbrev pub auto_options : Options
auto_options = record {
  transport = auto;
  host = codes "host";
  command = [];
  ssh_port = 0;
  identity_file = [];
  config_file = [];
  forward_agent = false;
  local_forwards = [];
  remote_forwards = [];
}

abbrev pub empty_assets : Assets
empty_assets = record { shim_script = []; bash_startup = []; zsh_startup = [] }
