-- ===== src/Examples/Systems.antt =====
-- A server with one session that forwards a request, and one behind its shutdown.
use market_bridge.Base.{
  ◌+◌, ◌-◌, ◌*◌, ◌≤◌, ◌≡◌, refl, true, false, List, [], ◌∷◌, All, arith, equal,
}
use market_bridge.Http.Parse.{parse_request, trim_leading}
use market_bridge.Session.Defs.{
  Op, starting, reading_header, outgoing_starting, resolving, connecting, handshaking, Session,
  construct,
}
use market_bridge.Session.Handlers.{
  start, stop, run_stop, start_impl, on_header_read, outgoing_start_impl, on_resolved, on_connected,
  send_request,
}
use market_bridge.Session.Steps.{complete}
use market_bridge.Session.Termination.{steps, reads, stop_calls, rank, session_terminates}
use market_bridge.Session.Weights.{total}
use market_bridge.Server.Registry.{register_session}
use market_bridge.Server.Limiter.{init_rate_limiter, allow_request}
use market_bridge.Server.Intake.{opened, begin_session}
use market_bridge.TokenBucket.{make, allow}
use market_bridge.TokenBucket.Floats.{exact, billion}
use market_bridge.System.{
  System, boot, launch, advance, asks_limiter, launches, advances, Reach, here, next,
}
use market_bridge.System.Throttle.{forwarded_total, upstream_protected}
use market_bridge.System.Halt.{histories, shutdown_final}
use market_bridge.System.Upstream.{SendsGets, upstream_sees_gets}
use market_bridge.Examples.Throttling.{settings}
use market_bridge.Examples.Sessions.{
  info, raw, ok_with, rest, halted, forwarding, forwarding_reached,
}

session_terminates_example :
    steps forwarding_reached + total rank forwarding.pending
    ≤ 13 + reads forwarding_reached + 2 * stop_calls forwarding_reached
session_terminates_example = session_terminates 7 info forwarding forwarding_reached

abbrev booted : System exact
booted = boot exact settings 0

abbrev fresh : Session
fresh = start (construct 1 info)

abbrev only : List Session → Session
only [] = fresh
only (x ∷ xs) = x

-- One nanosecond passes, and the given operation of the only session, its first, completes.
abbrev go_on : Op → System exact → System exact
go_on op s =
    let x = only s.sessions in
    advance exact (s.clock + 1) [] op (ok_with raw) (record x { pending = rest x.pending }) [] s

abbrev asked : System exact
asked = go_on reading_header (go_on starting (launch exact info false booted))

abbrev served : System exact
served = go_on handshaking (go_on connecting (go_on resolving (go_on outgoing_starting asked)))

served_reached : Reach exact info booted served
unfolding boot launch begin_session register_session start construct advance asks_limiter
    allow_request init_rate_limiter make allow complete start_impl on_header_read parse_request
    outgoing_start_impl on_resolved on_connected equal
served_reached =
    next
      (next
        (next
          (next
            (next
              (next (next here (launches false refl))
                (advances 1 [] [] _ [] starting [] (ok_with raw) (omega arith) refl refl refl))
              (advances 2 [] [] _ [] reading_header _ (ok_with raw) (omega arith) refl refl refl))
            (advances 3 [] [] _ [] outgoing_starting _ (ok_with raw) (omega arith) refl refl refl))
          (advances 4 [] [] _ [] resolving _ (ok_with raw) (omega arith) refl refl refl))
        (advances 5 [] [] _ [] connecting _ (ok_with raw) (omega arith) refl refl refl))
      (advances 6 [] [] _ [] handshaking _ (ok_with raw) (omega arith) refl refl refl)

upstream_protected_example :
    billion * forwarded_total served.sessions
    ≤ billion * settings.burst_size + settings.requests_per_second * (served.clock - 0)
upstream_protected_example = upstream_protected settings 0 info served refl served_reached

upstream_sees_gets_example : All (SendsGets info.host) served.sessions
unfolding trim_leading
upstream_sees_gets_example =
    upstream_sees_gets exact info settings 0 served
      (record { newline = omega arith; trimmed = refl }) served_reached

served_forwards : forwarded_total served.sessions ≡ 1
unfolding boot launch begin_session register_session start construct advance asks_limiter
    allow_request init_rate_limiter make allow complete start_impl on_header_read parse_request
    outgoing_start_impl on_resolved on_connected send_request equal
served_forwards = refl

-- Behind a shutdown, with one session that was stopped and still reads; then a client connects, and
-- the read completes.
abbrev halted_server : System exact
halted_server = record booted { intake = opened true 8; sessions = halted ∷ [] }

abbrev halted_later : System exact
halted_later = go_on reading_header (launch exact info true halted_server)

halted_run : Reach exact info halted_server halted_later
unfolding boot launch begin_session register_session start construct advance asks_limiter complete
    start_impl run_stop stop
halted_run =
    next (next here (launches true refl))
      (advances 1 [] [] halted [] reading_header _ (ok_with raw) (omega arith) refl refl refl)

shutdown_final_example : histories halted_later.sessions ≡ histories halted_server.sessions
unfolding start construct complete start_impl run_stop stop
shutdown_final_example =
    shutdown_final exact info halted_server halted_later refl
      (record { stopped = refl; idle = refl }, tt) halted_run
