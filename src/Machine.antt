-- ===== src/Machine.antt =====
-- What the program asks of its machine through the packages os and os/exec. The machine answers as it
-- likes, by all that happened before; the log holds what happened, the latest first.
pub mod Held
use slush.Base.Int.{ℤ}
use slush.Base.{ℕ, Option, none, some, List, ◌∷◌}
use slush.Text.{Bytes}

pub data Event : Type 0 where
  -- `exec.LookPath`
  looked_up : Bytes → Event
  -- A command with its arguments and standard input, run to its end.
  ran : Bytes → List Bytes → Bytes → Event
  -- A child process that goes on running, and its end.
  starts : Bytes → List Bytes → Event
  started : Bytes → List Bytes → Event
  killed : Event
  waited : Event
  -- `os.MkdirTemp` and `os.RemoveAll`
  makes_directory : Bytes → Event
  made_directory : Bytes → Event
  removes_directory : Bytes → Event
  removed_directory : Bytes → Event
  -- The foreground process group of the terminal: ours, or the child's.
  reads_foreground : Event
  sets_foreground : Bytes → Event
  -- A message on standard error.
  reported : Bytes → Event

-- The text of the error, if there is one, with the exit code if it is one of a command that ended, the
-- output, and the number of bytes of standard input that were read.
pub record Outcome : Type 0 where
  pub failure : Option Bytes
  pub exit_code : Option ℤ
  pub stdout : Bytes
  pub stderr : Bytes
  pub combined : Bytes
  pub consumed : ℕ

pub record Machine : Type 0 where
  pub answer : List Event → Event → Outcome
  pub log : List Event

abbrev pub outcome : Event → Machine → Outcome
outcome e m = m.answer m.log e

abbrev pub after : Event → Machine → Machine
after e m = record m { log = e ∷ m.log }

-- The event of a start, a new directory or a removal stays an attempt when it fails.
abbrev pub after_attempt : Event → Event → Option Bytes → Machine → Machine
after_attempt attempt success none m = after success m
after_attempt attempt success (some e) m = after attempt m

-- `os.RemoveAll`, whose error is ignored.
abbrev pub remove_directory : Bytes → Machine → Machine
remove_directory d m =
    after_attempt (removes_directory d) (removed_directory d)
      (outcome (removes_directory d) m).failure m
