-- ===== src/Server/Intake.antt =====
-- From a connection to a session: dispatch_http_request, ssl_handshake, on_ssl_handshake_done and
-- launch_http_session of the server, and handshake_session.cpp.
pub mod Registered
use market_bridge.Base.{
  ℕ, ◌+◌, ◌%◌, ◌≤◌, ◌<◌, ◌≡◌, ◌≢◌, refl, ap, sym, inl, inr, Bool-cases, subst, ◌∙◌, Bool, true,
  false, List, [], ◌∷◌, ◌++◌, map, All, All-append, Bytes, length, length-append, arith,
  if◌then◌else◌, ◌^◌,
}
use market_bridge.Session.ErrorCode.{ErrorCode, check_ec}
use market_bridge.Server.Registry.{Registry, register_session, generate_session_id, IsDistinct}
use market_bridge.Server.Tls.{
  Dispatch, launch_http_session, ssl_handshake, drop_connection, dispatch_http_request, TlsContext,
  ssl_handshake_step, fresh_context,
}

-- A session that was started, with its identifier: HTTPSession over a socket or over TLS, or
-- HandshakeSession.
pub data Started : Type 0 where
  http_session https_session handshake_session : ℕ → Started

unfoldable pub id_of : Started → ℕ
id_of (http_session id) = id
id_of (https_session id) = id
id_of (handshake_session id) = id

pub record Intake : Type 0 where
  pub registry : Registry
  pub counter : ℕ
  pub tls : TlsContext
  -- oldest first
  pub started : List Started

-- A session is made with a new identifier; if (register_session(session)) session->start();
unfoldable pub begin_session : (ℕ → Started) → Intake → Intake
unfolding generate_session_id register_session
begin_session kind s =
    let (id, counter) = generate_session_id s.counter in
    let (registry, registered) = register_session s.registry id in
    record s {
      registry = registry;
      counter = counter;
      started = if registered then s.started ++ kind id ∷ [] else s.started;
    }

-- Server::ssl_handshake; `initialized` is the result of init_ssl_context, should it run.
unfoldable pub begin_handshake : Bool → Intake → Intake
unfolding ssl_handshake_step begin_session
begin_handshake initialized s =
    let (tls, created) = ssl_handshake_step initialized s.tls in
    let s' = record s { tls = tls } in if created then begin_session handshake_session s' else s'

-- HandshakeSession::start_impl behind async_handshake, and on_ssl_handshake_done.
unfoldable pub on_handshake : ErrorCode → Intake → Intake
unfolding check_ec begin_session
on_handshake ec s = if check_ec ec then begin_session https_session s else s

unfoldable pub follow : Dispatch → Bool → Intake → Intake
unfolding begin_session begin_handshake
follow launch_http_session initialized s = begin_session http_session s
follow ssl_handshake initialized s = begin_handshake initialized s
follow drop_connection initialized s = s

-- What a listener or a handshake brings: a connection on the HTTP port with what the peek returns, a
-- connection on the HTTPS port, the end of a handshake.
pub data Event : Type 0 where
  http_connection : ErrorCode → ℕ → Bytes → Bool → Event
  https_connection : Bool → Event
  handshake_done : ErrorCode → Event

unfoldable pub take_event : Bool → Event → Intake → Intake
unfolding follow begin_handshake on_handshake
take_event allow_https (http_connection ec n buff initialized) s =
    follow (dispatch_http_request allow_https ec n buff) initialized s
take_event allow_https (https_connection initialized) s = begin_handshake initialized s
take_event allow_https (handshake_done ec) s = on_handshake ec s

unfoldable pub take_events : Bool → List Event → Intake → Intake
unfolding take_event
take_events allow_https [] s = s
take_events allow_https (e ∷ es) s = take_events allow_https es (take_event allow_https e s)

-- Before the first connection.
abbrev pub opened : Bool → ℕ → Intake
opened pending counter = record {
  registry = record { shutdown_pending = pending; sessions = [] };
  counter = counter;
  tls = fresh_context;
  started = [];
}
