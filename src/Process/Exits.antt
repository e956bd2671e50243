-- ===== src/Process/Exits.antt =====
-- The exit code of `Run` in internal/process, by what the system says of the end of the client.
use slush.Base.Int.{ℤ, pos}
use slush.Base.{
  Bool, true, false, Option, none, some, List, [], ◌∷◌, ◌++◌, ◌≡◌, ◌⊎◌, inl, inr, refl, subst, sym,
  ap, ◌∙◌, append_assoc, Result, ok, ok-injective, Option-cases,
}
use slush.Machine.{
  Event, starts, started, waited, reads_foreground, sets_foreground, Machine, outcome, after,
}
use slush.Process.{exit_code, finish, take_terminal, foreground_group, start_client, run_process}
use slush.Text.{Bytes}

-- No error is the code zero; the error of a command that ended has its code; another error is one.
abbrev pub IsExitCode : Option Bytes → Option ℤ → ℤ → Type 0
IsExitCode none given code = code ≡ pos 0
IsExitCode (some e) (some n) code = code ≡ n
IsExitCode (some e) none code = code ≡ pos 1

-- A client is the last child that was started, and at most the terminal has changed hands since.
abbrev pub IsBehindStart : List Event → Bytes → List Bytes → Type 0
IsBehindStart log path args =
    (before : List Event) × ((log ≡ started path args ∷ before)
      ⊎ ((group : Bytes) × (log ≡ sets_foreground group ∷ started path args ∷ before)))

-- A client was started and waited for, and the code is that of its end.
pub record ClientExits (m : Machine) (code : ℤ) : Type 0 where
  pub path : Bytes
  pub args : List Bytes
  pub log : List Event
  pub later : List Event
  pub runs : IsBehindStart log path args
  pub ends : m.log ≡ later ++ waited ∷ log
  pub exits : IsExitCode (m.answer log waited).failure (m.answer log waited).exit_code code

-- The one machine has gone on from the other.
pub record Follows (m' m : Machine) : Type 0 where
  pub later : List Event
  pub same_log : m'.log ≡ later ++ m.log
  pub same_answer : m'.answer ≡ m.answer

pub Follows-ClientExits :
    {m' m : Machine} {code : ℤ} → Follows m' m → ClientExits m code → ClientExits m' code
Follows-ClientExits {m'} {m} {code} f c = record {
  path = c.path;
  args = c.args;
  log = c.log;
  later = f.later ++ c.later;
  runs = c.runs;
  ends =
      f.same_log ∙ ap (◌++◌ f.later) c.ends ∙ sym (append_assoc f.later c.later (waited ∷ c.log));
  exits =
      subst
        (λ answer. IsExitCode (answer c.log waited).failure (answer c.log waited).exit_code code)
        (sym f.same_answer) c.exits;
}

exit_code-IsExitCode :
    (failure : Option Bytes) (given : Option ℤ) → IsExitCode failure given (exit_code failure given)
exit_code-IsExitCode none given = refl
exit_code-IsExitCode (some e) (some n) = refl
exit_code-IsExitCode (some e) none = refl

-- The last result is the code of the client.
abbrev pub ResultExits : Machine × Result Bytes ℤ → Type 0
ResultExits (m, result) = (code : ℤ) → result ≡ ok code → ClientExits m code

finish-exits :
    (tty : Bool) (path : Bytes) (args : List Bytes) (m : Machine)
    → IsBehindStart m.log path args
    → ResultExits (finish tty m)
finish-exits false path args m runs code h =
    let out = outcome waited m in
    record {
      path = path;
      args = args;
      log = m.log;
      later = [];
      runs = runs;
      ends = refl;
      exits =
          subst (IsExitCode out.failure out.exit_code) (ok-injective h)
            (exit_code-IsExitCode out.failure out.exit_code);
    }
finish-exits true path args m runs code h =
    let out = outcome waited m in
    record {
      path = path;
      args = args;
      log = m.log;
      later = _ ∷ [];
      runs = runs;
      ends = refl;
      exits =
          subst (IsExitCode out.failure out.exit_code) (ok-injective h)
            (exit_code-IsExitCode out.failure out.exit_code);
    }

take_terminal-exits :
    (tty shared : Bool) (path : Bytes) (args : List Bytes) (m : Machine)
    → ResultExits (take_terminal tty shared (after (started path args) m))
take_terminal-exits false shared path args m =
    finish-exits false path args (after (started path args) m) (m.log, inl refl)
take_terminal-exits true shared path args m =
    let m' = after (started path args) m in
    let takes = sets_foreground (foreground_group shared) in
    elim (Option-cases (outcome takes m').failure) [
      | inl fine ↦
          rw (fine, take_terminal)
            (finish-exits true path args (after takes m')
              (m.log, inr (foreground_group shared, refl)))
      | inr (e, bad) ↦ rw (bad, take_terminal) (λ code h. cc)
    ]

start_client-exits :
    (tty : Bool) (path : Bytes) (args : List Bytes) (shared : Bool) (m : Machine)
    → ResultExits (start_client tty path args shared m)
start_client-exits tty path args shared m =
    elim (Option-cases (outcome (starts path args) m).failure) [
      | inl fine ↦ rw (fine, start_client) (take_terminal-exits tty shared path args m)
      | inr (e, bad) ↦ rw (bad, start_client) (λ code h. cc)
    ]

pub run_process-exits :
    (tty : Bool) (path : Bytes) (args : List Bytes) (shared : Bool) (m : Machine)
    → ResultExits (run_process tty path args shared m)
unfolding run_process
run_process-exits false path args shared m = start_client-exits false path args shared m
run_process-exits true path args shared m =
    elim (Option-cases (outcome reads_foreground m).failure) [
      | inl fine ↦
          rw (fine, run_process)
            (start_client-exits true path args shared (after reads_foreground m))
      | inr (e, bad) ↦ rw (bad, run_process) (λ code h. cc)
    ]
