-- ===== src/Session/Silence.antt =====
-- What a client is handed as the upstream fails.
use market_bridge.Base.{◌≡◌, true, false, List, [], Bytes}
use market_bridge.Session.ErrorCode.{ErrorCode}
use market_bridge.Session.Defs.{Session}

-- A session whose client is left without an answer: nothing is outstanding and nothing was handed to
-- the client, though its socket was open throughout and the session was not stopped.
pub record IsSilent (requests : List Bytes) (t : Session) : Type 0 where
  pub pending : t.pending ≡ []
  pub sent : t.sent ≡ []
  pub socket_open : t.socket_open ≡ true
  pub stopped : t.stopped ≡ false
  pub forwarded : t.forwarded ≡ requests
