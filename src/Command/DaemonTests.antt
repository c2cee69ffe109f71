-- ===== src/Command/DaemonTests.antt =====
-- How the relay ends in short runs.
use gatelet.Prelude.{inr, ◌≤◌, ◌≡◌, refl, true, false, some, [], ◌∷◌, codes}
use gatelet.Server.Control.{returned_nil, returned_error, accepted, accept_failed, serve_control}
use gatelet.Command.Daemon.{
  Daemon, just_started, shut, accept_fails, shuts_down, returns, here, next,
}
use gatelet.Command.Daemon.Stopped.{at_once, then_moves, IsStopping, Run-stops}
use gatelet.Command.Daemon.Status.{IsOrderly, Reach-IsOrderly}

abbrev stopping : Daemon
stopping = record just_started { ctx_done = true }

abbrev unheard : Daemon
unheard = record stopping { control_closed = true }

-- `ServeControl` fails, and the context ends with it.
abbrev control_lost : Daemon
control_lost = record just_started { control = returned_error (codes "emfile"); ctx_done = true }

abbrev http_shut : Daemon
http_shut = record control_lost { http = shut }

-- The HTTP server is shut and main returns.
Run-stops_example : (2 ≤ 4) × IsStopping (record http_shut { exit_status = some 0 })
Run-stops_example =
    Run-stops control_lost (record http_shut { exit_status = some 0 }) 2
      (next here (accept_fails just_started (codes "emfile") refl refl))
      (inr (codes "emfile", refl))
      (then_moves (then_moves at_once (shuts_down control_lost refl refl refl) refl)
        (returns http_shut refl refl) refl)

control_lost-IsOrderly : IsOrderly (record http_shut { exit_status = some 0 })
control_lost-IsOrderly = Reach-IsOrderly (
    next
      (next (next here (accept_fails just_started (codes "emfile") refl refl))
        (shuts_down control_lost refl refl refl))
      (returns http_shut refl refl))

served :
    serve_control (accepted 4 ∷ accepted 7 ∷ accept_failed true false [] ∷ accepted 9 ∷ [])
    ≡ (4 ∷ 7 ∷ [], returned_nil)
unfolding serve_control
served = refl
