-- ===== src/System.antt =====
-- The server with its HTTP sessions: server.cpp's launch_http_session and stop_sessions over the
-- sessions of http-session.cpp, which share one rate limiter (HTTPSession::on_request).
pub mod Sessions
mod Debts
pub mod Throttle
pub mod Halt
pub mod Ends
pub mod Upstream
use market_bridge.Base.{
  ℕ, ◌≤◌, ◌≡◌, Bool, true, false, not, ◌&&◌, List, [], ◌∷◌, ◌++◌, if◌then◌else◌,
}
use market_bridge.Config.{ThrottlingConfig}
use market_bridge.Session.ErrorCode.{check_ec}
use market_bridge.Session.Defs.{Op, reading_header, UpstreamInfo, Session, construct}
use market_bridge.Session.Handlers.{start, stop}
use market_bridge.Session.Steps.{Completion, complete}
use market_bridge.Server.Registry.{register_session}
use market_bridge.Server.Limiter.{RateLimiter, allow_request, init_rate_limiter}
use market_bridge.Server.Intake.{
  Intake, Started, http_session, https_session, begin_session, begin_handshake, opened,
}
use market_bridge.TokenBucket.Floats.{Double}

-- Whether the completion of an operation calls rate_limiter_->allow(): a header that arrives at a
-- session that is not stopped.
unfoldable pub asks_limiter : Op → Completion → Session → Bool
unfolding check_ec
asks_limiter reading_header k s = check_ec k.ec && not s.stopped
asks_limiter _ k s = false

module _ (D : Double) where
  pub record System : Type 0 where
    pub intake : Intake
    pub limiter : RateLimiter D
    -- the steady clock at the last completion, in nanoseconds
    pub clock : ℕ
    -- all HTTP sessions that were started, oldest first
    pub sessions : List Session

  -- Behind init_rate_limiter at the time `now`, with no connection yet.
  unfoldable pub boot : ThrottlingConfig → ℕ → System
  unfolding init_rate_limiter
  boot throttling now = record {
    intake = opened false 1;
    limiter = init_rate_limiter D throttling now;
    clock = now;
    sessions = [];
  }

  -- launch_http_session, over a socket or over TLS.
  unfoldable pub launch : UpstreamInfo → Bool → System → System
  unfolding begin_session register_session
  launch info secure s =
      let (registry, registered) = register_session s.intake.registry s.intake.counter in
      record s {
        intake = begin_session (if secure then https_session else http_session) s.intake;
        sessions =
            if registered
            then s.sessions ++ start (construct s.intake.counter info) ∷ []
            else s.sessions;
      }

  -- The session `x`, with `op` taken out of what is outstanding, completes it at the time `now`. The
  -- limiter is asked, and has a say, only where on_request asks it.
  unfoldable pub advance :
      ℕ → List Session → Op → Completion → Session → List Session → System → System
  unfolding asks_limiter allow_request
  advance now before op k x after s =
      let (limiter, allowed) = allow_request D s.limiter now in
      if asks_limiter op k x
      then record s {
        limiter = limiter;
        clock = now;
        sessions = before ++ complete op (record k { allowed = allowed }) x ∷ after;
      }
      else record s { clock = now; sessions = before ++ complete op k x ∷ after }

  pub data Step (info : UpstreamInfo) (s : System) (t : System) : Type 0 where
    -- a connection, or the end of a handshake, leads to a session
    launches : (secure : Bool) → t ≡ launch info secure s → Step info s t
    -- a connection leads to a handshake
    handshakes :
        (initialized : Bool)
        → t ≡ record s { intake = begin_handshake initialized s.intake }
        → Step info s t
    -- an operation of a session completes
    advances :
        (now : ℕ) (before after : List Session) (x : Session) (first : List Op) (op : Op)
        (rest : List Op) (k : Completion)
        → s.clock ≤ now
        → s.sessions ≡ before ++ x ∷ after
        → x.pending ≡ first ++ op ∷ rest
        → t ≡ advance now before op k (record x { pending = first ++ rest }) after s
        → Step info s t
    -- schedule_shutdown sets the flag
    flags :
        t ≡ record s {
          intake = record s.intake {
            registry = record s.intake.registry { shutdown_pending = true };
          };
        }
        → Step info s t
    -- stop_sessions calls stop, behind the flag
    stops :
        (before after : List Session) (x : Session)
        → s.intake.registry.shutdown_pending ≡ true
        → s.sessions ≡ before ++ x ∷ after
        → t ≡ record s { sessions = before ++ stop x ∷ after }
        → Step info s t

  pub data Reach (info : UpstreamInfo) (s : System) : System → Type 0 where
    here : Reach info s s
    next : {t u : System} → Reach info s t → Step info t u → Reach info s u
