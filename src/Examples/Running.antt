-- ===== src/Examples/Running.antt =====
-- The whole server in the single-request mode, with a connection on each port.
use market_bridge.Base.{◌≢◌, ◌+◌, ◌≤◌, ◌≡◌, ◌⊎◌, refl, false, ◌==◌, length, if◌then◌else◌}
use market_bridge.Config.{single_request, ThrottlingConfig}
use market_bridge.Session.Defs.{Session}
use market_bridge.Server.Loop
use market_bridge.Server.Loop.{
  awaiting, Loop, testing, leaving, ended, on_http, set_up, move, leave, leaves,
  uninstall_signals_handler,
}
use market_bridge.Server.Registry.{uninstall_listeners, init_acceptors}
use market_bridge.Server.Tls.{dispatch_http_request}
use market_bridge.TokenBucket.Floats.{exact}
use market_bridge.Run
use market_bridge.Run.{Running, begin, effect, react, notify, dispatch, loops}
use market_bridge.Run.Potential.{potential}
use market_bridge.Run.Progress.{Rests, GoesOn}
use market_bridge.Run.Returns.{steps, reads, run_returns}
use market_bridge.Run.Single.{single_request_served}
use market_bridge.Run.Twice.{listening, both_served, both_served_reached, single_request_twice}
use market_bridge.Examples.Throttling.{settings}
use market_bridge.Examples.Sessions.{info}

abbrev begun_server : Running exact
begun_server = begin exact single_request 80 443 settings 0

abbrev served : Running exact
served = both_served exact info settings 0

served_reached : Run.Reach exact info false begun_server served
unfolding begin set_up init_acceptors
served_reached = both_served_reached exact info settings 0

single_request_served_example : length served.system.sessions ≤ (if 443 == 80 then 1 else 2)
single_request_served_example =
    single_request_served exact info false 80 443 settings 0 served served_reached

single_request_twice_example :
    (t : Running exact) × Run.Reach exact info false begun_server t × (length t.system.sessions ≡ 2)
single_request_twice_example = single_request_twice exact info settings 0 80 443 refl

-- The HTTP listener leaves, and then the other.
abbrev closed : Running exact
closed = record served { loop = move on_http ended (leave (listening leaving leaving)) }

abbrev ended_both : Running exact
ended_both = record closed { loop = move Loop.on_https ended (leave closed.loop) }

closed_reached : Run.Reach exact info false begun_server closed
unfolding effect react notify dispatch dispatch_http_request
closed_reached =
    Run.next served_reached (loops closed.loop (leaves on_http refl refl) false (λ c. cc) refl)

leaves_again : Run.Reach exact info false closed ended_both
unfolding effect react leave
leaves_again =
    Run.next Run.here (loops ended_both.loop (leaves Loop.on_https refl refl) false (λ c. cc) refl)

run_returns_example :
    (steps exact info false leaves_again + potential exact ended_both
      ≤ potential exact closed + reads exact info false leaves_again)
    × (ended_both.loop.signals ≢ awaiting)
    × (Rests exact ended_both ⊎ GoesOn exact info false ended_both)
unfolding leave uninstall_listeners
run_returns_example =
    run_returns exact info false single_request 80 443 settings 0 closed ended_both closed_reached
      refl leaves_again

abbrev unthrottled : ThrottlingConfig
unthrottled = record settings { enabled = false }
