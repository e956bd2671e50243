-- ===== src/Session/Tunnel/Binding.antt =====
-- bindClipboardForward of internal/session/tunnel.go, with the listener of its server.
use slush.Base.Int.{ℤ}
use slush.Base.{
  ℕ, zero, suc, none, some, Option, List, [], ◌∷◌, ◌++◌, ◌≡◌, refl, inl, inr, ok, Result-cases,
  Bool-cases,
}
use slush.Machine.{Machine, Outcome, outcome, after, Event, ran}
use slush.Protocol.Listener.Serving.{IsServing, relisten-IsServing}
use slush.Protocol.Listener.{Listener, relisten}
use slush.Session.Tunnel.{
  SshTunnel, forward_command, forward_clipboard, forward_result, remote_forward_busy, Bench,
  bind_loop, bind_clipboard_forward,
}
use slush.Text.Decimal.{int_text}
use slush.Text.{Bytes, codes}

forward_result-ok :
    (out : Outcome) (failure : Option Bytes) → forward_result out failure ≡ ok tt → failure ≡ none
forward_result-ok out none h = refl
forward_result-ok out (some e) h = cc

forward_clipboard-ok :
    (t : SshTunnel) (port : ℤ) (m : Machine)
    → (forward_clipboard t port m).1 ≡ ok tt
    → (outcome (forward_command t port) m).failure ≡ none
unfolding forward_clipboard
forward_clipboard-ok t port m h =
    let out = outcome (forward_command t port) m in forward_result-ok out out.failure h

forward_clipboard-log :
    (t : SshTunnel) (port : ℤ) (m : Machine)
    → (forward_clipboard t port m).0 ≡ after (forward_command t port) m
unfolding forward_clipboard
forward_clipboard-log t port m = refl

-- The command that asks the master of the control socket for a remote forward of a port of the host's
-- loopback to the same port of the local one.
abbrev pub asks_forward : SshTunnel → Bytes → Event
asks_forward t port =
    ran t.ssh_path
      (codes "-o"
        ∷ (codes "ControlPath=" ++ t.control_path)
        ∷ codes "-o"
        ∷ codes "ControlMaster=no"
        ∷ codes "-O"
        ∷ codes "forward"
        ∷ codes "-R"
        ∷ (port ++ (codes ":127.0.0.1:" ++ port))
        ∷ t.host
        ∷ [])
      []

-- The last command asked the master to forward the server's port, and it did.
abbrev pub IsForwarded : SshTunnel → Bench → Type 0
IsForwarded t b =
    let command = asks_forward t (int_text b.server.port) in
    (log : List Event) × (b.machine.log ≡ command ∷ log)
    × ((b.machine.answer log command).failure ≡ none)

module _ (t : SshTunnel) (token : Bytes) (others : List Listener) where
  bind_loop-IsServing :
      (attempts : ℕ) (last : Option Bytes) (b : Bench)
      → IsServing b.server b.sockets token others
      → let b' = (bind_loop attempts last t b).0 in
        IsServing b'.server b'.sockets token others
        × ((bind_loop attempts last t b).1 ≡ ok tt → IsForwarded t b')
  unfolding bind_loop forward_command
  bind_loop-IsServing zero last b h = (h, λ contradiction. cc)
  bind_loop-IsServing (suc attempts) last b h =
      let forwarded = forward_clipboard t b.server.port b.machine in
      elim (Result-cases forwarded.1) [
        | inl (tt, good) ↦
            rw (good, bind_loop)
              (
                h,
                λ _. (
                  b.machine.log,
                  rw (forward_clipboard-log t b.server.port b.machine) refl,
                  rw (forward_clipboard-log t b.server.port b.machine)
                      (forward_clipboard-ok t b.server.port b.machine good),
                ),
              )
        | inr (e, bad) ↦ elim (Bool-cases (remote_forward_busy e)) [
          | inr refused ↦ rw (bad, bind_loop, refused) (h, λ contradiction. cc)
          | inl busy ↦
              let kept = relisten-IsServing b.server b.sockets token others h in
              elim (Result-cases (relisten b.server b.sockets).2) [
                | inr (failed, none_free) ↦
                    rw (bad, bind_loop, busy, none_free) (kept, λ contradiction. cc)
                | inl (tt, listened) ↦
                    rw (bad, bind_loop, busy, listened)
                      (bind_loop-IsServing attempts (some e)
                        (record b {
                          machine = forwarded.0;
                          sockets = (relisten b.server b.sockets).0;
                          server = (relisten b.server b.sockets).1;
                        })
                        kept)
              ]
        ]
      ]

  -- However binding ends, the server has one listener, whose port is the server's, its token is the
  -- same, and the other listeners of the machine are as they were. At the start it has one listener
  -- too, and sockets are named by the calls that opened them.
  pub bind_clipboard_forward-IsServing :
      (b : Bench)
      → IsServing b.server b.sockets token others
      → IsServing
          (bind_clipboard_forward t b).0.server
          (bind_clipboard_forward t b).0.sockets
          token
          others
  unfolding bind_clipboard_forward
  bind_clipboard_forward-IsServing b h = (bind_loop-IsServing 8 none b h).0

  -- When binding succeeds, the last command was ssh -O forward on the control socket of the tunnel
  -- with -R P:127.0.0.1:P, where P is the port that the server then has, and it did not fail. At
  -- the start the server has one listener, and sockets are named by the calls that opened them.
  pub bind_clipboard_forward-IsForwarded :
      (b : Bench)
      → IsServing b.server b.sockets token others
      → (bind_clipboard_forward t b).1 ≡ ok tt
      → IsForwarded t (bind_clipboard_forward t b).0
  unfolding bind_clipboard_forward
  bind_clipboard_forward-IsForwarded b h = (bind_loop-IsServing 8 none b h).1
