-- ===== src/Command/Program/Clean.antt =====
-- The directories, children and listeners at the end of the program of Command.Program.
use slush.Base.{
  Bool, true, false, Option, none, some, List, [], ◌∷◌, ◌≡◌, inl, inr, refl, Result, ok, err,
  Option-cases,
}
use slush.Command.{
  CommandError, Flags, Files, require_host, require_validation_host, options, check_local_agent,
  check_agent_if, with_files, for_host, bad_host, run_install, install_with, install_unless,
  install_found, install_result, refuse_flags, unsupported_flags, install_options,
}
use slush.Command.Program.{
  Invocation, starts_session, validates, installs, World, Setting, session_with, run_root,
  validation_ended, validation_with, run_validate, run_installation, run_command, program,
}
use slush.Machine.Held.{
  HoldsSame, HoldsSame-looked_up, HoldsSame-ran, HoldsSame-refl, HoldsSame-trans,
}
use slush.Machine.{Event, looked_up, Machine, Outcome, outcome, after}
use slush.Protocol.Client.{Network}
use slush.Protocol.Listener.Serving.{IsNumbered, IsBelow}
use slush.Protocol.Token.{TokenError}
use slush.Remote.Provision.{Assets, ssh_exec, install, dropping_output, user_install_script}
use slush.Session.Options.{Options}
use slush.Session.Run.Complete.{run-LeavesNothing}
use slush.Session.Run.Held.{ssh_exec-HoldsSame}
use slush.Text.{Bytes, codes}
use slush.Validate.Run.Whole.{IsSoundRun, run_validation-IsSoundRun}
use slush.Validate.Run.{Validated}

check_local_agent-HoldsSame :
    (timed_out : Bool) (m : Machine) → HoldsSame (check_local_agent timed_out m).0.log m.log
unfolding check_local_agent
check_local_agent-HoldsSame timed_out m =
    elim (Option-cases (outcome (looked_up (codes "ssh-add")) m).failure) [
      | inr (e, bad) ↦ rw (bad, check_local_agent) (HoldsSame-looked_up _ m.log)
      | inl fine ↦
          rw (fine, check_local_agent)
            (HoldsSame-trans (HoldsSame-ran _ _ _ _) (HoldsSame-looked_up _ m.log))
    ]

check_agent_if-HoldsSame :
    (wanted timed_out : Bool) (m : Machine)
    → HoldsSame (check_agent_if wanted timed_out m).0.log m.log
check_agent_if-HoldsSame false timed_out m = HoldsSame-refl m.log
check_agent_if-HoldsSame true timed_out m = check_local_agent-HoldsSame timed_out m

module _ (files : Files) (flags : Flags) where
  with_files-HoldsSame :
      (host : Bytes) (command : List Bytes) (r : Machine × Result CommandError (Unit {0}))
      (before : List Event)
      → HoldsSame r.0.log before
      → HoldsSame (with_files files flags host command r).0.log before
  with_files-HoldsSame host command (m, err e) before h = h
  with_files-HoldsSame host command (m, ok done) before h = h

  for_host-HoldsSame :
      (bad timed_out : Bool) (host : Bytes) (command : List Bytes) (m : Machine)
      → HoldsSame (for_host files flags bad timed_out host command m).0.log m.log
  for_host-HoldsSame true timed_out host command m = HoldsSame-refl m.log
  for_host-HoldsSame false timed_out host command m =
      with_files-HoldsSame host command (check_agent_if flags.forward_agent timed_out m) m.log
        (check_agent_if-HoldsSame flags.forward_agent timed_out m)

  options-HoldsSame :
      (timed_out : Bool) (args : List Bytes) (m : Machine)
      → HoldsSame (options files flags timed_out args m).0.log m.log
  unfolding options
  options-HoldsSame timed_out [] m = HoldsSame-refl m.log
  options-HoldsSame timed_out (host ∷ command) m =
      for_host-HoldsSame (bad_host host) timed_out host command m

dropping_output-HoldsSame :
    (r : Machine × Bytes × Result Bytes Bytes) (before : List Event)
    → HoldsSame r.0.log before
    → HoldsSame (dropping_output r).0.log before
dropping_output-HoldsSame (m, stdin, ok out) before h = h
dropping_output-HoldsSame (m, stdin, err e) before h = h

install-HoldsSame :
    (assets : Assets) (path host : Bytes) (args : List Bytes) (m : Machine)
    → HoldsSame (install assets path host args m).0.log m.log
unfolding install
install-HoldsSame assets path host args m =
    dropping_output-HoldsSame (ssh_exec path host user_install_script assets.shim_script args m)
      m.log (ssh_exec-HoldsSame path host user_install_script assets.shim_script args m)

install_result-HoldsSame :
    (r : Machine × Result Bytes (Unit {0})) (before : List Event)
    → HoldsSame r.0.log before
    → HoldsSame (install_result r).0.log before
install_result-HoldsSame (m, ok done) before h = h
install_result-HoldsSame (m, err e) before h = h

install_found-HoldsSame :
    (assets : Assets) (o : Options) (m : Machine) (out : Outcome) (failure : Option Bytes)
    → HoldsSame (install_found assets o m out failure).0.log m.log
install_found-HoldsSame assets o m out (some e) = HoldsSame-refl m.log
install_found-HoldsSame assets o m out none =
    install_result-HoldsSame (install assets out.stdout o.host (install_options o) m) m.log
      (install-HoldsSame assets out.stdout o.host (install_options o) m)

install_with-HoldsSame :
    (assets : Assets) (r : Machine × Result CommandError Options) (before : List Event)
    → HoldsSame r.0.log before
    → HoldsSame (install_with assets r).0.log before
install_with-HoldsSame assets (m, err e) before h = h
install_with-HoldsSame assets (m, ok o) before h =
    let out = outcome (looked_up (codes "ssh")) m in
    HoldsSame-trans
      (install_found-HoldsSame assets o (after (looked_up (codes "ssh")) m) out out.failure)
      (HoldsSame-trans (HoldsSame-looked_up (codes "ssh") m.log) h)

run_install-HoldsSame :
    (assets : Assets) (files : Files) (flags : Flags) (changed : Bytes → Bool) (timed_out : Bool)
    (host : Bytes) (m : Machine)
    → HoldsSame (run_install assets files flags changed timed_out host m).0.log m.log
unfolding run_install
run_install-HoldsSame assets files flags changed timed_out host m =
    install_unless-HoldsSame (refuse_flags unsupported_flags changed)
  where
    install_unless-HoldsSame :
        (r : Result CommandError (Unit {0}))
        → HoldsSame (install_unless assets files flags timed_out host m r).0.log m.log
    install_unless-HoldsSame (err e) = HoldsSame-refl m.log
    install_unless-HoldsSame (ok done) =
        install_with-HoldsSame assets (options files flags timed_out (host ∷ []) m) m.log
          (options-HoldsSame files flags timed_out (host ∷ []) m)

module _ {D : Type 0} (net : Network D) (set : Setting) where
  -- Directories and children are held as before, and the same listeners are open.
  pub record IsClean (w' w : World D) : Type 0 where
    pub same_held : HoldsSame w'.machine.log w.machine.log
    pub same_listening : w'.sockets.listening ≡ w.sockets.listening

  IsClean-refl : (w : World D) → IsClean w w
  IsClean-refl w = record { same_held = HoldsSame-refl w.machine.log; same_listening = refl }

  module _ (w : World D) (numbered : IsNumbered w.sockets)
      (before : IsBelow w.sockets.calls w.sockets.listening) where
    session_with-IsClean :
        (r : Machine × Result CommandError Options)
        → HoldsSame r.0.log w.machine.log
        → IsClean (session_with net set w r).0 w
    session_with-IsClean (m, err e) h = record { same_held = h; same_listening = refl }
    session_with-IsClean (m, ok o) h =
        let left =
          run-LeavesNothing set.assets o set.terminal set.arrivals m w.sockets set.random numbered
            before in
        record {
          same_held = HoldsSame-trans left.same_held h;
          same_listening = left.same_listening;
        }

    validation_ended-IsClean :
        (m : Machine) (r : Result TokenError (Validated net set.platform))
        → HoldsSame m.log w.machine.log
        → IsSoundRun net set.platform r m w.sockets
        → IsClean (validation_ended net set (record w { machine = m }) r).0 w
    validation_ended-IsClean m (err e) h sound = record { same_held = h; same_listening = refl }
    validation_ended-IsClean m (ok v) h sound = record {
      same_held = HoldsSame-trans sound.same_held h;
      same_listening = sound.same_listening;
    }

    validation_with-IsClean :
        (r : Machine × Result CommandError Options)
        → HoldsSame r.0.log w.machine.log
        → IsClean (validation_with net set w r).0 w
    validation_with-IsClean (m, err e) h = record { same_held = h; same_listening = refl }
    validation_with-IsClean (m, ok o) h = validation_ended-IsClean m _ h (
        run_validation-IsSoundRun net set.platform set.assets o set.arrivals set.times set.client m
          w.sockets set.random w.desk numbered before)

    run_root-IsClean :
        (args : List Bytes) (r : Result CommandError (Unit {0}))
        → IsClean (run_root net set w args r).0 w
    run_root-IsClean args (err e) = IsClean-refl w
    run_root-IsClean args (ok done) =
        session_with-IsClean (options set.files set.flags set.timed_out args w.machine)
          (options-HoldsSame set.files set.flags set.timed_out args w.machine)

    run_validate-IsClean :
        (args : List Bytes) (r : Result CommandError (Unit {0}))
        → IsClean (run_validate net set w args r).0 w
    run_validate-IsClean args (err e) = IsClean-refl w
    run_validate-IsClean args (ok done) =
        validation_with-IsClean (options set.files set.flags set.timed_out args w.machine)
          (options-HoldsSame set.files set.flags set.timed_out args w.machine)

    run_installation-IsClean : (args : List Bytes) → IsClean (run_installation net set w args).0 w
    run_installation-IsClean [] = IsClean-refl w
    run_installation-IsClean (host ∷ []) = record {
      same_held =
          run_install-HoldsSame set.assets set.files set.flags set.changed set.timed_out host
            w.machine;
      same_listening = refl;
    }
    run_installation-IsClean (host ∷ arg ∷ args) = IsClean-refl w

    run_command-IsClean : (invocation : Invocation) → IsClean (run_command net set invocation w).0 w
    run_command-IsClean (starts_session args) = run_root-IsClean args (require_host args)
    run_command-IsClean (validates args) = run_validate-IsClean args (require_validation_host args)
    run_command-IsClean (installs args) = run_installation-IsClean args

    -- Whatever the program is asked to do, at its end, with whatever result, the removal of every
    -- temporary directory that it made has been tried, every child process that it started is
    -- waited for, and just the listeners that were open before it are open. A signal that ends the
    -- program is no such end. Sockets are named by the calls that open them.
    pub program-IsClean : (invocation : Invocation) → IsClean (program net set invocation w).world w
    unfolding program
    program-IsClean invocation = run_command-IsClean invocation
