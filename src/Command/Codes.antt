-- ===== src/Command/Codes.antt =====
-- The exit code of the program.
use slush.Base.Int.{ℤ, pos, negsuc}
use slush.Base.{zero, suc, ◌≡◌, refl, Result, ok, err}
use slush.Command.{execute_session, exit_code_of}
use slush.Session.Run.{RunError}

-- The client's code, or 1 for an error of our own.
abbrev pub program_code : Result RunError ℤ → ℤ
program_code (ok code) = code
program_code (err e) = pos 1

-- The program exits with the code of the session's client, zero or not and negative after a signal, and
-- with 1 when the session did not run.
pub exit_code_of-execute_session :
    (r : Result RunError ℤ) → exit_code_of (execute_session r) ≡ program_code r
unfolding execute_session exit_code_of
exit_code_of-execute_session (err e) = refl
exit_code_of-execute_session (ok (pos zero)) = refl
exit_code_of-execute_session (ok (pos (suc n))) = refl
exit_code_of-execute_session (ok (negsuc n)) = refl
