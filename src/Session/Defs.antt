-- ===== src/Session/Defs.antt =====
-- The state of a session and of its OutgoingSession.
use market_bridge.Base.{ℕ, Bool, true, false, List, [], ◌∷◌, Option, none, Bytes, codes}
use market_bridge.Http.Message.{HttpRequest, empty_request}
use market_bridge.Session.ErrorCode.{ErrorCode}

-- UpstreamInfo
pub record UpstreamInfo : Type 0 where
  pub host : Bytes
  pub port : ℕ
  pub ignore_certificate_verification : Bool

-- What a coroutine or a handler of the session waits for, or is queued on the strand to do.
pub data Op : Type 0 where
  -- start_impl, and the lambda that stop dispatches
  starting stopping : Op
  -- async_read_until of the header
  reading_header : Op
  -- the timer of five seconds: running; then its handler, queued with this error code
  timer_running : Op
  timer_handler : ErrorCode → Op
  -- on_header_timeout, on_request_disallow and on_health_request, spawned on the strand
  timing_out : ErrorCode → Op
  rejecting answering_health : Op
  -- async_write to the client, and whether shutdown() follows
  writing : Bool → Op
  -- OutgoingSession: start_impl, and what it waits for in turn
  outgoing_starting resolving connecting handshaking sending receiving : Op

-- set_verify_mode and set_verify_callback of the upstream stream.
pub data VerifyMode : Type 0 where
  verify_none : VerifyMode
  verify_peer : Bytes → VerifyMode

pub record Session : Type 0 where
  pub id : ℕ
  pub stopped : Bool
  pub socket_open : Bool
  pub request : HttpRequest
  pub response : Bytes
  pub upstream_info : UpstreamInfo
  -- whether tls_context_ has the system's certificates
  pub default_verify_paths : Bool
  -- OutgoingSession's stream_, with its verification and the host name of its SNI, and response_
  pub verify : Option VerifyMode
  pub host_name : Option Bytes
  pub received : Bytes
  pub pending : List Op
  -- what was handed to the client's socket and to the upstream's, oldest first
  pub sent : List Bytes
  pub forwarded : List Bytes

-- A session as constructed.
unfoldable pub construct : ℕ → UpstreamInfo → Session
construct id upstream_info = record {
  id = id;
  stopped = false;
  socket_open = true;
  request = empty_request;
  response = [];
  upstream_info = upstream_info;
  default_verify_paths = false;
  verify = none;
  host_name = none;
  received = [];
  pending = [];
  sent = [];
  forwarded = [];
}

-- co_spawn, co_await or async_…: an operation is outstanding.
abbrev pub spawn : Op → Session → Session
spawn op s = record s { pending = op ∷ s.pending }

-- The build's APP_NAME and APP_VERSION (CMakeLists.txt).
abbrev pub app_name : Bytes
app_name = codes "market-bridge"

abbrev pub app_version : Bytes
app_version = codes "1.0.1"
