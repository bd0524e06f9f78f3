-- ===== src/Server/Handshake.antt =====
-- handshake_session.h and handshake_session.cpp: the sessions between a connection that opens with TLS
-- and its HTTPS session, with server.cpp's ssl_handshake, on_ssl_handshake_done and stop_sessions over
-- them.
pub mod Backed
use market_bridge.Base.{
  All, All-append, All-replace, All-split, subst, Bool-cases, inl, inr, ℕ, ◌+◌, ◌≤◌, ◌≡◌, refl, ap,
  Bool, true, false, ◌&&◌, List, [], ◌∷◌, ◌++◌, length, length-append, if◌then◌else◌, arith,
}
use market_bridge.Session.ErrorCode.{ErrorCode, check_ec}
use market_bridge.Server.Registry.{register_session, generate_session_id}
use market_bridge.Server.Tls.{ssl_handshake_step}
use market_bridge.Server.Intake.{
  Intake, Started, http_session, https_session, handshake_session, begin_session, begin_handshake,
  on_handshake, opened,
}

-- `shaking`: async_handshake is outstanding.
pub record HandshakeSession : Type 0 where
  pub id : ℕ
  pub shaking : Bool

unfoldable pub construct : ℕ → HandshakeSession
construct id = record { id = id; shaking = false }

-- start, up to async_handshake.
unfoldable pub start : HandshakeSession → HandshakeSession
start h = record h { shaking = true }

-- stop() override {}
unfoldable pub stop : HandshakeSession → HandshakeSession
stop h = h

-- start_impl behind async_handshake: the coroutine ends. The test of the error code, and what the
-- notifier does where it passes, is on_handshake.
unfoldable pub finish_handshake : HandshakeSession → HandshakeSession
finish_handshake h = record h { shaking = false }

-- The server, and its handshake sessions, oldest first.
pub record Secured : Type 0 where
  pub intake : Intake
  pub handshakes : List HandshakeSession

-- ssl_handshake; `initialized` is the result of init_ssl_context, should it run.
unfoldable pub shake : Bool → Secured → Secured
unfolding begin_handshake ssl_handshake_step register_session construct start
shake initialized s =
    let created = (ssl_handshake_step initialized s.intake.tls).1 in
    let registered = (register_session s.intake.registry s.intake.counter).1 in
    record {
      intake = begin_handshake initialized s.intake;
      handshakes =
          if created && registered
          then s.handshakes ++ start (construct s.intake.counter) ∷ []
          else s.handshakes;
    }

pub data Step (s : Secured) (t : Secured) : Type 0 where
  -- a plain connection
  connects : t ≡ record s { intake = begin_session http_session s.intake } → Step s t
  -- a connection that opens with TLS
  shakes : (initialized : Bool) → t ≡ shake initialized s → Step s t
  -- async_handshake ends, and on_ssl_handshake_done follows a success
  finishes :
      (before after : List HandshakeSession) (h : HandshakeSession) (ec : ErrorCode)
      → h.shaking ≡ true
      → s.handshakes ≡ before ++ h ∷ after
      → t ≡ record {
        intake = on_handshake ec s.intake;
        handshakes = before ++ finish_handshake h ∷ after;
      }
      → Step s t
  -- schedule_shutdown sets the flag
  flags :
      t ≡ record s {
        intake = record s.intake {
          registry = record s.intake.registry { shutdown_pending = true };
        };
      }
      → Step s t
  -- stop_sessions calls stop
  stops :
      (before after : List HandshakeSession) (h : HandshakeSession)
      → s.handshakes ≡ before ++ h ∷ after
      → t ≡ record s { handshakes = before ++ stop h ∷ after }
      → Step s t

pub data Reach (s : Secured) : Secured → Type 0 where
  here : Reach s s
  next : {t u : Secured} → Reach s t → Step t u → Reach s u
