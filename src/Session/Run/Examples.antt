-- ===== src/Session/Run/Examples.antt =====
-- A whole run on a small machine.
use slush.Base.{true, [], ◌∷◌, ok, arith}
use slush.Session.Run.Complete.{LeavesNothing, run-LeavesNothing}
use slush.Session.Run.{run}
use slush.Session.Tunnel.{ticked}
use slush.Session.Run.Samples.{a_machine, no_sockets, auto_options, empty_assets}

run-LeavesNothing_example :
    LeavesNothing
      (run empty_assets auto_options true (ticked ∷ []) (ok (7 ∷ 8 ∷ [])) a_machine no_sockets)
      a_machine
      no_sockets
run-LeavesNothing_example =
    run-LeavesNothing empty_assets auto_options true (ticked ∷ []) a_machine no_sockets
      (ok (7 ∷ 8 ∷ [])) (λ call port l answered. ground (arith, answered)) tt
