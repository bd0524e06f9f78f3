-- ===== src/Session/Steps.antt =====
-- How a session runs: whatever is outstanding completes in any order, as its environment chooses.
use market_bridge.Base.{Bool, false, List, ◌∷◌, ◌++◌, Bytes, ◌≡◌}
use market_bridge.Session.ErrorCode.{ErrorCode}
use market_bridge.Session.Defs.{
  Op, starting, stopping, reading_header, timer_running, timer_handler, timing_out, rejecting,
  answering_health, writing, outgoing_starting, resolving, connecting, handshaking, sending,
  receiving, Session, spawn,
}
use market_bridge.Session.Handlers.{
  stop, run_stop, start_impl, on_timer, on_header_timeout, on_header_read, write_response,
  on_written, disallow_response, health_response, outgoing_start_impl, on_resolved, on_connected,
  send_request, on_sent, on_received,
}

-- What the environment chooses as an operation completes: its error code, the bytes that it read,
-- the verdict of the rate limiter, and whether a call of OpenSSL succeeded.
pub record Completion : Type 0 where
  pub ec : ErrorCode
  pub bytes : Bytes
  pub allowed : Bool
  pub done : Bool

unfoldable pub complete : Op → Completion → Session → Session
complete starting k s = start_impl k.done s
complete stopping k s = run_stop s
complete reading_header k s = on_header_read k.allowed k.ec k.bytes s
complete timer_running k s = spawn (timer_handler k.ec) s
complete (timer_handler ec) k s = on_timer ec s
complete (timing_out ec) k s = on_header_timeout ec s
complete rejecting k s = write_response disallow_response false s
complete answering_health k s = write_response health_response false s
complete (writing then_shutdown) k s = on_written then_shutdown s
complete outgoing_starting k s = outgoing_start_impl k.done s
complete resolving k s = on_resolved k.ec s
complete connecting k s = on_connected k.ec s
complete handshaking k s = send_request k.ec s
complete sending k s = on_sent k.ec s
complete receiving k s = on_received k.ec k.bytes s

-- One outstanding operation completes, or the server calls stop.
pub data Step (s : Session) (t : Session) : Type 0 where
  completes :
      (before : List Op) (op : Op) (after : List Op) (k : Completion)
      → s.pending ≡ before ++ op ∷ after
      → t ≡ complete op k (record s { pending = before ++ after })
      → Step s t
  stops : t ≡ stop s → Step s t

pub data Reach (s : Session) : Session → Type 0 where
  here : Reach s s
  next : {t u : Session} → Reach s t → Step t u → Reach s u
