-- ===== src/Process/Waiting.antt =====
-- The children of `Run` in internal/process/run_unix.go.
use slush.Base.{◌-◌, Bool, true, false, List, ◌∷◌, ◌≡◌, refl, inl, inr, arith, Option-cases}
use slush.Machine.Held.{directories, children, HoldsSame, HoldsSame-trans}
use slush.Machine.{
  Event, starts, started, reads_foreground, sets_foreground, Machine, outcome, after,
}
use slush.Process.{start_client, take_terminal, foreground_group, run_process}
use slush.Text.{Bytes}

-- One child of the earlier log is waited for in the later one.
record WaitsFor (log' log : List Event) : Type 0 where
  same_directories : directories log' ≡ directories log
  one_less : children log' ≡ children log - 1

take_terminal-WaitsFor :
    (tty shared : Bool) (m : Machine) → WaitsFor (take_terminal tty shared m).0.log m.log
unfolding directories children
take_terminal-WaitsFor false shared m = record { same_directories = refl; one_less = refl }
take_terminal-WaitsFor true shared m =
    elim (Option-cases (outcome (sets_foreground (foreground_group shared)) m).failure) [
      | inl fine ↦ rw (fine, take_terminal) record { same_directories = refl; one_less = refl }
      | inr (e, bad) ↦ rw (bad, take_terminal) record { same_directories = refl; one_less = refl }
    ]

started-WaitsFor :
    (path : Bytes) (args : List Bytes) (log log' : List Event)
    → WaitsFor log' (started path args ∷ log)
    → HoldsSame log' log
unfolding directories children
started-WaitsFor path args log log' h = record {
  same_directories = h.same_directories;
  same_children = ground (arith, h.one_less);
}

start_client-HoldsSame :
    (tty : Bool) (path : Bytes) (args : List Bytes) (shared : Bool) (m : Machine)
    → HoldsSame (start_client tty path args shared m).0.log m.log
unfolding directories children
start_client-HoldsSame tty path args shared m =
    let m' = after (started path args) m in
    elim (Option-cases (outcome (starts path args) m).failure) [
      | inl fine ↦
          rw (fine, start_client)
            (started-WaitsFor path args m.log (take_terminal tty shared m').0.log
              (take_terminal-WaitsFor tty shared m'))
      | inr (e, bad) ↦
          rw (bad, start_client) record { same_directories = refl; same_children = refl }
    ]

reads_foreground-HoldsSame : (log : List Event) → HoldsSame (reads_foreground ∷ log) log
unfolding directories children
reads_foreground-HoldsSame log = record { same_directories = refl; same_children = refl }

pub run_process-HoldsSame :
    (tty : Bool) (path : Bytes) (args : List Bytes) (shared : Bool) (m : Machine)
    → HoldsSame (run_process tty path args shared m).0.log m.log
unfolding run_process
run_process-HoldsSame false path args shared m = start_client-HoldsSame false path args shared m
run_process-HoldsSame true path args shared m =
    let m' = after reads_foreground m in
    let read = reads_foreground-HoldsSame m.log in
    elim (Option-cases (outcome reads_foreground m).failure) [
      | inr (e, bad) ↦ rw (bad, run_process) read
      | inl fine ↦
          rw (fine, run_process)
            (HoldsSame-trans (start_client-HoldsSame true path args shared m') read)
    ]
