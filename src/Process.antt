-- ===== src/Process.antt =====
-- internal/process: the terminal client as a child process (run_unix.go, run_windows.go) and its exit code (run.go).
pub mod Exits
pub mod Waiting
pub mod Signals
use slush.Base.Int.{ℤ, pos}
use slush.Base.{
  ℕ, Bool, true, false, Option, none, some, List, [], ◌∷◌, ◌++◌, ◌≡◌, refl, inl, inr, if◌then◌else◌,
  Result, ok, err, Option-cases,
}
use slush.Machine.Held.{directories, children, HoldsSame}
use slush.Machine.{
  Event, starts, started, killed, waited, reads_foreground, sets_foreground, Outcome, Machine,
  outcome, after,
}
use slush.Text.{Bytes, codes}

-- `exitCode`
abbrev pub exit_code : Option Bytes → Option ℤ → ℤ
exit_code none code = pos 0
exit_code (some e) (some code) = code
exit_code (some e) none = pos 1

abbrev pub wait_code : Outcome → ℤ
wait_code out = exit_code out.failure out.exit_code

abbrev pub foreground_group : Bool → Bytes
foreground_group shared = if shared then codes "own" else codes "child"

-- The wait for the client; on a terminal the former foreground group comes back.
abbrev pub finish : Bool → Machine → Machine × Result Bytes ℤ
finish false m = (after waited m, ok (wait_code (outcome waited m)))
finish true m =
    (after (sets_foreground (codes "previous")) (after waited m), ok (wait_code (outcome waited m)))

abbrev pub take_terminal : Bool → Bool → Machine → Machine × Result Bytes ℤ
take_terminal false shared m = finish false m
take_terminal true shared m = elim (outcome (sets_foreground (foreground_group shared)) m).failure [
  | none ↦ finish true (after (sets_foreground (foreground_group shared)) m)
  | some e ↦ (
    after waited (after killed (after (sets_foreground (foreground_group shared)) m)),
    err (codes "set terminal foreground process group: " ++ e),
  )
]

abbrev pub start_client : Bool → Bytes → List Bytes → Bool → Machine → Machine × Result Bytes ℤ
start_client tty path args shared m = elim (outcome (starts path args) m).failure [
  | some e ↦ (after (starts path args) m, err (codes "start " ++ (path ++ (codes ": " ++ e))))
  | none ↦ take_terminal tty shared (after (started path args) m)
]

-- `Run`; `tty` says whether standard input is a terminal.
unfoldable pub run_process : Bool → Bytes → List Bytes → Bool → Machine → Machine × Result Bytes ℤ
run_process false path args shared m = start_client false path args shared m
run_process true path args shared m = elim (outcome reads_foreground m).failure [
  | some e ↦ (after reads_foreground m, err (codes "get terminal foreground process group: " ++ e))
  | none ↦ start_client true path args shared (after reads_foreground m)
]

-- `Run` on Windows, where the process group of the terminal is left alone.
unfoldable pub run_windows : Bytes → List Bytes → Bool → Machine → Machine × Result Bytes ℤ
run_windows path args shared m = elim (outcome (starts path args) m).failure [
  | some e ↦ (after (starts path args) m, err (codes "start " ++ (path ++ (codes ": " ++ e))))
  | none ↦ (
    after waited (after (started path args) m),
    ok (wait_code (outcome waited (after (started path args) m))),
  )
]
