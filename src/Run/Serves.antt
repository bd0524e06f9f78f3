-- ===== src/Run/Serves.antt =====
-- The server as a whole serves a client.
use market_bridge.Base.{ℕ, Bool, List, []}
use market_bridge.Config.{ThrottlingConfig, ServerRunningMode}
use market_bridge.Session.Defs.{UpstreamInfo, Session}
use market_bridge.Server.Limiter.{unlimited}
use market_bridge.Server.Loop
use market_bridge.Server.Loop.{on_http, Loop, set_up, move}
use market_bridge.TokenBucket.Floats.{Double}
use market_bridge.System.{System}
use market_bridge.Run.{Running, begin}

module _ (D : Double) (info : UpstreamInfo) (allow_https : Bool) where
  -- The server with these sessions, and without a limit.
  abbrev serving : Running D → List Session → Running D
  serving s xs = record s { system = record s.system { limiter = unlimited; sessions = xs } }

  module _ (mode : ServerRunningMode) (http_port https_port : ℕ) (throttling : ThrottlingConfig)
      (now : ℕ) where
    abbrev begun : Running D
    begun = begin D mode http_port https_port throttling now

    -- At the beginning, with the HTTP listener at this place.
    abbrev listening : Loop.Place → Running D
    listening place = record (serving begun []) {
      loop = move on_http place (set_up mode http_port https_port);
    }
