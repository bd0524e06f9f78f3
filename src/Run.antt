-- ===== src/Run.antt =====
-- Server::run as a whole: the event loop of Server/Loop, dispatch_http_request and the handshakes on the
-- way from a connection to a session, the sessions of System, and stop_sessions between the flag and
-- close_acceptors.
use market_bridge.Base.{
  ℕ, suc, ◌+◌, ◌≤◌, ◌≡◌, Bool, true, false, not, ◌&&◌, List, [], ◌∷◌, ◌++◌, Option, none, some,
  Bytes, length, if◌then◌else◌,
}
use market_bridge.Config.{ThrottlingConfig, ServerRunningMode}
use market_bridge.Session.ErrorCode.{ErrorCode, check_ec}
use market_bridge.Session.Defs.{Op, UpstreamInfo, Session}
use market_bridge.Session.Handlers
use market_bridge.Session.Steps.{Completion}
use market_bridge.Server.Tls.{
  Dispatch, launch_http_session, ssl_handshake, drop_connection, dispatch_http_request,
}
pub mod Consistent
pub mod Refines
pub mod Potential
mod Feasible
pub mod Progress
pub mod Returns
pub mod Serves
pub mod Single
pub mod Twice
use market_bridge.Server.Loop
use market_bridge.Server.Loop.{
  Port, on_http, on_https, Loop, tests, calls, accepts, leaves, signalled, handles, closes, set_up,
}
use market_bridge.Server.Handshake
use market_bridge.Server.Handshake.{HandshakeSession, Secured, shake, finish_handshake}
use market_bridge.TokenBucket.Floats.{Double}
use market_bridge.System.{System, boot, launch, advance}

-- What a step of the event loop means for the rest of the server.
pub data Effect : Type 0 where
  silent : Effect
  connected : Port → Effect
  shutdown_begun acceptors_closed : Effect

unfoldable pub effect : {s t : Loop} → Loop.Step s t → Effect
unfolding check_ec
effect (accepts p ec e o q) = if check_ec ec then connected p else silent
effect {s} (handles ec e q) =
    if check_ec ec && not s.shutdown_pending then shutdown_begun else silent
effect (closes e q) = acceptors_closed
effect _ = silent

module _ (D : Double) where
  pub record Running : Type 0 where
    pub loop : Loop
    pub system : System D
    pub handshakes : List HandshakeSession
    -- the coroutines of dispatch_http_request that have not ended
    pub dispatching : ℕ
    -- how many calls of stop are left to stop_sessions, once it has locked the sessions
    pub stop_calls : Option ℕ

  -- run, up to the threads.
  unfoldable pub begin : ServerRunningMode → ℕ → ℕ → ThrottlingConfig → ℕ → Running
  begin mode http_port https_port throttling now = record {
    loop = set_up mode http_port https_port;
    system = boot D throttling now;
    handshakes = [];
    dispatching = 0;
    stop_calls = none;
  }

  -- ssl_handshake
  unfoldable pub secure : Bool → Running → Running
  unfolding shake
  secure initialized s =
      let u = shake initialized (record { intake = s.system.intake; handshakes = s.handshakes }) in
      record s { system = record s.system { intake = u.intake }; handshakes = u.handshakes }

  -- The handlers of install_listeners, and the flag of schedule_shutdown.
  unfoldable pub react : Effect → Bool → Running → Running
  unfolding secure
  react silent initialized s = s
  react (connected on_http) initialized s = record s { dispatching = suc s.dispatching }
  react (connected on_https) initialized s = secure initialized s
  react shutdown_begun initialized s = record s {
    system = record s.system {
      intake = record s.system.intake {
        registry = record s.system.intake.registry { shutdown_pending = true };
      };
    };
  }
  react acceptors_closed initialized s = s

  module _ (info : UpstreamInfo) where
    -- dispatch_http_request behind the peek.
    unfoldable pub dispatch : Dispatch → Bool → Running → Running
    unfolding secure launch
    dispatch launch_http_session initialized s = record s { system = launch D info false s.system }
    dispatch ssl_handshake initialized s = secure initialized s
    dispatch drop_connection initialized s = s

    -- on_ssl_handshake_done, which follows a success.
    unfoldable pub notify : ErrorCode → Running → Running
    unfolding check_ec launch
    notify ec s = if check_ec ec then record s { system = launch D info true s.system } else s

    module _ (allow_https : Bool) where
      pub data Step (s : Running) (t : Running) : Type 0 where
        -- a listener, a signal or the end of schedule_shutdown, behind stop_sessions
        loops :
            (l : Loop) (st : Loop.Step s.loop l) (initialized : Bool)
            → (effect st ≡ acceptors_closed → s.stop_calls ≡ some 0)
            → t ≡ react (effect st) initialized (record s { loop = l })
            → Step s t
        dispatches :
            (rest : ℕ) (ec : ErrorCode) (n : ℕ) (buff : Bytes) (initialized : Bool)
            → s.dispatching ≡ suc rest
            → t
              ≡ dispatch
                  (dispatch_http_request allow_https ec n buff)
                  initialized
                  (record s { dispatching = rest })
            → Step s t
        -- the end of async_handshake
        finishes :
            (before after : List HandshakeSession) (h : HandshakeSession) (ec : ErrorCode)
            → h.shaking ≡ true
            → s.handshakes ≡ before ++ h ∷ after
            → t ≡ notify ec (record s { handshakes = before ++ finish_handshake h ∷ after })
            → Step s t
        -- an operation of a session completes
        advances :
            (now : ℕ) (before after : List Session) (x : Session) (first : List Op) (op : Op)
            (rest : List Op) (k : Completion)
            → s.system.clock ≤ now
            → s.system.sessions ≡ before ++ x ∷ after
            → x.pending ≡ first ++ op ∷ rest
            → t ≡ record s {
              system =
                  advance D now before op k (record x { pending = first ++ rest }) after s.system;
            }
            → Step s t
        -- stop_sessions locks the sessions that are alive, and calls stop on each; which of them are alive
        -- is left open here, so that it may be any number and any of them
        locks :
            (n : ℕ)
            → s.loop.closing ≡ true
            → s.stop_calls ≡ none
            → n ≤ length s.system.sessions + length s.handshakes
            → t ≡ record s { stop_calls = some n }
            → Step s t
        stops :
            (n : ℕ) (before after : List Session) (x : Session)
            → s.stop_calls ≡ some (suc n)
            → s.system.sessions ≡ before ++ x ∷ after
            → t ≡ record s {
              system = record s.system { sessions = before ++ Handlers.stop x ∷ after };
              stop_calls = some n;
            }
            → Step s t
        stops_handshake :
            (n : ℕ) (before after : List HandshakeSession) (h : HandshakeSession)
            → s.stop_calls ≡ some (suc n)
            → s.handshakes ≡ before ++ h ∷ after
            → t ≡ record s { handshakes = before ++ Handshake.stop h ∷ after; stop_calls = some n }
            → Step s t

      pub data Reach (s : Running) : Running → Type 0 where
        here : Reach s s
        next : {t u : Running} → Reach s t → Step t u → Reach s u

      pub Reach-trans : {s t u : Running} → Reach s t → Reach t u → Reach s u
      Reach-trans p here = p
      Reach-trans p (next r st) = next (Reach-trans p r) st
