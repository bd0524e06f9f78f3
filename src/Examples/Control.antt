-- ===== src/Examples/Control.antt =====
-- The server's registry, shutdown, listeners and handshakes at concrete inputs.
use market_bridge.Base.{
  none, List, equal, map, ◌-◌, ◌^◌, ◌≤◌, ◌≡◌, ◌≢◌, ◌↔◌, refl, inl, true, false, [], ◌∷◌, some,
  arith, length,
}
use market_bridge.Config.{persistent}
use market_bridge.Session.ErrorCode.{success, operation_aborted}
use market_bridge.Server.Registry.{
  register_session, lock_sessions, identifiers, identifiers-IsDistinct, IsDistinct,
}
use market_bridge.Server.Shutdown.{
  Server, registers, creates, flags, locks, stops, all_stopped, Reach, here, next, running, flagged,
  stopped, update, shutdown_stops_all,
}
use market_bridge.Server.Intake.{
  http_session, https_session, handshake_session, id_of, Event, http_connection, handshake_done,
  take_events, opened,
}
use market_bridge.Server.Intake.Registered.{intake_registered}
use market_bridge.Server.Loop
use market_bridge.Server.Loop.{
  ended, faulted, idle, awaiting, queued, on_http, Loop, set_up, test_flag, begin_accept, on_accept,
  leave, uninstall_signals_handler, on_signal, tests, calls, accepts, leaves, handles,
}
use market_bridge.Server.Loop.Destroyed.{acceptor_used_destroyed}
use market_bridge.Server.Schedule.{IsShutDown, schedule_shutdown, schedule_shutdown_complete}
use market_bridge.Server.Tls.{
  TlsContext, ssl_handshake, drop_connection, dispatch_http_request, dispatch_http_request_iff,
  tls_handshake_sign, handshakes, handshakes_exact,
}

identifiers-IsDistinct_example : IsDistinct ((2 ^ 64 - 2) ∷ (2 ^ 64 - 1) ∷ 0 ∷ 1 ∷ [])
unfolding identifiers
identifiers-IsDistinct_example = identifiers-IsDistinct 4 (2 ^ 64 - 2) (omega arith) (omega arith)

-- A fresh server, on which one session is created and registered.
abbrev fresh : Server
fresh = record {
  registry = record { shutdown_pending = false; sessions = [] };
  alive = λ id. false;
  was_stopped = λ id. false;
  phase = running;
  acceptors = record { http = some true; https = some true };
}

abbrev busy : Server
busy = record fresh {
  registry = record { shutdown_pending = false; sessions = 7 ∷ [] };
  alive = update (λ id. false) 7 true;
}

abbrev halting : Server
halting = record busy {
  registry = record { shutdown_pending = true; sessions = 7 ∷ [] };
  phase = flagged;
}

abbrev halted : Server
halted = record halting { was_stopped = update (λ id. false) 7 true; phase = stopped }

busy_reached : Reach fresh busy
unfolding register_session
busy_reached = next (next here (creates 7 refl refl)) (registers 7 refl)

abbrev halted_reached : Reach busy halted
unfolding lock_sessions
halted_reached =
    next (next (next (next here (flags refl)) (locks refl)) (stops 7 [] refl)) (all_stopped refl)

shutdown_stops_all_example :
    (halted.was_stopped 7 ≡ true) × (register_session halted.registry 8 ≡ (halted.registry, false))
unfolding halted_reached
shutdown_stops_all_example =
    shutdown_stops_all fresh busy halted 7 8 refl refl busy_reached refl halted_reached
      ((((refl, refl), refl), refl), refl) (inl refl)

dispatch_http_request_iff_example :
    ((dispatch_http_request true success 2 tls_handshake_sign ≡ ssl_handshake)
      ↔ ((true ≡ true) × (success ≡ success) × (2 ≤ 2) × (tls_handshake_sign ≡ tls_handshake_sign)))
    × ((dispatch_http_request true success 2 tls_handshake_sign ≡ drop_connection)
        ↔ ((true ≡ true) × (success ≢ success)))
dispatch_http_request_iff_example = dispatch_http_request_iff true success 2 tls_handshake_sign

abbrev fresh_context : TlsContext
fresh_context = record { flag_spent = false; attempts = 0; configured = false }

handshakes_exact_example :
    ((handshakes (false ∷ true ∷ true ∷ []) fresh_context).1 ≡ false ∷ true ∷ true ∷ [])
    × ((handshakes (false ∷ true ∷ true ∷ []) fresh_context).0.attempts ≡ 2)
handshakes_exact_example = handshakes_exact (false ∷ true ∷ true ∷ []) fresh_context refl

-- A plain connection, one that opens with TLS, the end of its handshake, and one that the peek drops.
abbrev events : List Event
events =
    http_connection success 2 (b'G' ∷ b'E' ∷ []) true
    ∷ http_connection success 2 tls_handshake_sign true
    ∷ handshake_done success
    ∷ http_connection operation_aborted 0 (0 ∷ 0 ∷ []) true
    ∷ []

intake_registered_example :
    ((take_events true events (opened false 1)).registry.sessions
      ≡ map id_of (take_events true events (opened false 1)).started)
    × IsDistinct (take_events true events (opened false 1)).registry.sessions
    × (length (take_events true events (opened false 1)).started ≤ 4)
intake_registered_example = intake_registered true false 1 events (omega arith)

events_started :
    (take_events true events (opened false 1)).started
    ≡ http_session 1 ∷ handshake_session 2 ∷ https_session 3 ∷ []
unfolding take_events dispatch_http_request equal
events_started = refl

acceptor_used_destroyed_example :
    (t : Loop) × Loop.Reach (set_up persistent 80 443) t
    × (t.http ≡ faulted)
    × (t.acceptors.http ≡ none)
acceptor_used_destroyed_example = acceptor_used_destroyed persistent 80 443

schedule_shutdown_complete_example :
    IsShutDown busy (schedule_shutdown busy) 7
    × (schedule_shutdown (schedule_shutdown busy) ≡ schedule_shutdown busy)
schedule_shutdown_complete_example = schedule_shutdown_complete busy 7 refl
