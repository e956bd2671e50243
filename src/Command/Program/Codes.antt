-- ===== src/Command/Program/Codes.antt =====
-- The exit status of a program that starts a session.
use slush.Base.Int.{ℤ}
use slush.Base.{List, ◌∷◌, ◌≡◌, ◌⊎◌, inl, inr, refl, ap, Result, ok, err}
use slush.Command.Codes.{exit_code_of-execute_session}
use slush.Command.Program.{
  starts_session, World, Setting, Ended, exit_status, ended, session_ended, program,
}
use slush.Command.{options}
use slush.Machine.{Machine}
use slush.Process.Exits.{ClientExits}
use slush.Protocol.Client.{Network}
use slush.Protocol.Listener.{Sockets}
use slush.Session.Options.{Options}
use slush.Session.Run.Exits.{RunExits, run-exits}
use slush.Session.Run.{RunError, run}
use slush.Text.{Bytes}

module _ {D : Type 0} (net : Network D) (set : Setting) where
  -- Of a session that did not run the status is one; of another it is that of its client.
  abbrev pub HasStatus : Ended net set → Result RunError ℤ → Type 0
  HasStatus e result =
      ((text : RunError) × (result ≡ err text) × (e.status ≡ 1))
      ⊎ ((code : ℤ) × ClientExits e.world.machine code × (e.status ≡ exit_status code))

  session_ended-HasStatus :
      (d : D) (m : Machine) (sockets : Sockets) (result : Result RunError ℤ)
      → RunExits m result
      → HasStatus (ended net set (session_ended net set d (m, sockets, result))) result
  session_ended-HasStatus d m sockets (err text) exits =
      inl (text, refl, ap exit_status (exit_code_of-execute_session (err text)))
  session_ended-HasStatus d m sockets (ok code) exits =
      inr (code, exits code refl, ap exit_status (exit_code_of-execute_session (ok code)))

  -- When the command line of a session is accepted, the program's exit status is 1 if the run ends
  -- with an error. Otherwise a client was started and then waited for, with at most a change of
  -- the terminal's foreground group between, and the status is the last eight bits of a code: zero
  -- if that wait had no error, the exit code of its error if that has one, negative after a
  -- signal, and 1 for another error.
  pub program-HasStatus :
      (host : Bytes) (command : List Bytes) (w : World D) (m : Machine) (o : Options)
      → options set.files set.flags set.timed_out (host ∷ command) w.machine ≡ (m, ok o)
      → HasStatus
          (program net set (starts_session (host ∷ command)) w)
          (run set.assets o set.terminal set.arrivals set.random m w.sockets).2
  unfolding program
  program-HasStatus host command w m o e =
      let r = run set.assets o set.terminal set.arrivals set.random m w.sockets in
      rw e (
        session_ended-HasStatus w.desk r.0 r.1 r.2
          (run-exits set.assets o set.terminal set.arrivals set.random m w.sockets))
