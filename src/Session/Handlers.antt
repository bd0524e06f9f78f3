-- ===== src/Session/Handlers.antt =====
-- The handlers of HTTPSession and OutgoingSession, each up to the next operation that it waits for.
use market_bridge.Base.{
  ◌==◌, Bool, true, false, not, ◌||◌, [], ◌∷◌, ◌++◌, map, some, Bytes, codes, equal, length,
  if◌then◌else◌,
}
use market_bridge.Base.Decimal.{to_string}
use market_bridge.Base.Map.{insert}
use market_bridge.Http.Message.{
  HttpRequest, request_timeout, too_many_requests, ok, status_of, text_plain, application_json,
  close, content_length, content_type_key, connection_key, response_to_string,
  generate_http_response, generate_request,
}
use market_bridge.Http.Parse.{parse_request}
use market_bridge.Session.ErrorCode.{
  ErrorCode, operation_aborted, is_eof, is_aborted, is_cancelled, check_ec,
}
use market_bridge.Session.Defs.{
  Op, starting, stopping, reading_header, timer_running, timer_handler, timing_out, rejecting,
  answering_health, writing, outgoing_starting, resolving, connecting, handshaking, sending,
  receiving, verify_none, verify_peer, UpstreamInfo, VerifyMode, Session, spawn, app_name,
  app_version,
}

-- SessionBase::request_stop: whether this call was the first, and the session stopped.
unfoldable pub request_stop : Session → Session × Bool
request_stop s = (record s { stopped = true }, not s.stopped)

unfoldable pub shutdown : Session → Session
shutdown s = record s { socket_open = false }

unfoldable pub start : Session → Session
start s = spawn starting s

-- The lambda is always queued here, also where stop is called on the strand and dispatch runs it at once.
unfoldable pub stop : Session → Session
stop s = spawn stopping s

-- The lambda that stop dispatches.
unfoldable pub run_stop : Session → Session
unfolding request_stop shutdown
run_stop s = let (s', first) = request_stop s in if first then shutdown s' else s'

-- response_ = text, and async_write of it; a closed socket takes nothing.
unfoldable pub write_response : Bytes → Bool → Session → Session
write_response text then_shutdown s =
    spawn (writing then_shutdown)
      (record s { response = text; sent = if s.socket_open then s.sent ++ text ∷ [] else s.sent })

-- Behind async_write to the client: the error code is only logged.
unfoldable pub on_written : Bool → Session → Session
unfolding shutdown
on_written then_shutdown s = if then_shutdown then shutdown s else s

unfoldable pub obtain_header : Session → Session
obtain_header s = spawn reading_header (spawn timer_running s)

-- init_tls_context outside Windows and its result; `done` tells whether set_default_verify_paths
-- returned, and did not throw.
unfoldable pub init_tls_context : Bool → Session → Session × Bool
init_tls_context done s =
    (record s { default_verify_paths = if done then true else s.default_verify_paths }, done)

unfoldable pub start_impl : Bool → Session → Session
unfolding init_tls_context obtain_header
start_impl done s =
    let (s', initialized) = init_tls_context done s in if initialized then obtain_header s' else s'

-- The timer's handler.
unfoldable pub on_timer : ErrorCode → Session → Session
unfolding is_aborted
on_timer ec s = if not (is_aborted ec) then spawn (timing_out ec) s else s

-- reading_timeout_guard->cancel(): a running timer's handler is queued with operation_aborted; a
-- handler that is queued already keeps its error code.
abbrev pub cancelled : Op → Op
cancelled timer_running = timer_handler operation_aborted
cancelled op = op

unfoldable pub cancel_timer : Session → Session
cancel_timer s = record s { pending = map cancelled s.pending }

-- The texts of the answers that the program makes itself.
unfoldable pub timeout_response : Bytes
timeout_response =
    response_to_string
      (generate_http_response request_timeout (codes "Request Timeout") [] text_plain close)

abbrev pub too_many : Bytes
too_many = codes "Too Many Requests"

abbrev pub disallow_body : Bytes
disallow_body =
    codes "\n                                {\n                                    \"status\": \""
    ++ (to_string (status_of too_many_requests)
        ++ (codes "\",\n                                    \"error\": \""
            ++ (too_many ++ codes "\"\n                                }")))

unfoldable pub disallow_response : Bytes
disallow_response =
    let r =
      generate_http_response too_many_requests too_many disallow_body application_json close in
    response_to_string (record r { headers = insert (codes "Retry-After") (codes "1") r.headers })

abbrev pub health_body : Bytes
health_body =
    codes
      "\n                                    {\n                                        \"service\": \""
    ++ (app_name
        ++ (codes
              "\",\n                                        \"status\": \"UP\",\n                                        \"version\": \""
            ++ (app_version ++ codes "\" \n                                    }")))

unfoldable pub health_response : Bytes
health_response = response_to_string (record {
  status_code = status_of ok;
  reason = codes "OK";
  headers = insert connection_key (codes "close") (
      insert content_length (to_string (length health_body))
        (insert content_type_key (codes "application/json") []));
  body = health_body;
})

unfoldable pub on_header_timeout : ErrorCode → Session → Session
unfolding is_cancelled check_ec stop request_stop write_response
on_header_timeout ec s =
    if is_cancelled ec
    then s
    else if not (check_ec ec)
    then stop s
    else (let (s', first) = request_stop s in
        if first then write_response timeout_response true s' else s')

-- `allowed` is the answer of rate_limiter_->allow().
unfoldable pub on_request : Bool → HttpRequest → Session → Session
on_request allowed request s =
    if s.stopped
    then s
    else if not allowed
    then spawn rejecting s
    else if equal request.target (codes "/health")
    then spawn answering_health s
    else spawn outgoing_starting (record s { request = request })

unfoldable pub on_header_obtained : Bool → ErrorCode → Bytes → Session → Session
unfolding is_aborted check_ec stop on_request
on_header_obtained allowed ec raw s =
    if is_aborted ec || s.stopped
    then s
    else if not (check_ec ec)
    then stop s
    else on_request allowed (parse_request raw) s

-- obtain_header behind async_read_until.
unfoldable pub on_header_read : Bool → ErrorCode → Bytes → Session → Session
unfolding check_ec cancel_timer on_header_obtained
on_header_read allowed ec raw s =
    if not (check_ec ec) then s else on_header_obtained allowed ec raw (cancel_timer s)

unfoldable pub verify_mode_of : UpstreamInfo → VerifyMode
verify_mode_of info =
    if info.ignore_certificate_verification then verify_none else verify_peer info.host

-- What a C string holds of a std::string.
unfoldable pub c_str : Bytes → Bytes
c_str [] = []
c_str (c ∷ s) = let rest = c_str s in if c == 0 then [] else c ∷ rest

-- init_ssl and its result; `done` tells whether SSL_set_tlsext_host_name succeeded.
unfoldable pub init_ssl : Bool → Session → Session × Bool
unfolding verify_mode_of c_str
init_ssl done s = (
  record s {
    verify = some (verify_mode_of s.upstream_info);
    host_name = if done then some (c_str s.upstream_info.host) else s.host_name;
  },
  done,
)

-- OutgoingSession::start_impl
unfoldable pub outgoing_start_impl : Bool → Session → Session
unfolding init_ssl
outgoing_start_impl done s =
    let (s', initialized) = init_ssl done s in if initialized then spawn resolving s' else s'

-- Behind async_resolve, async_connect and async_handshake; a failed handshake throws, which ends the
-- detached coroutine.
unfoldable pub on_resolved : ErrorCode → Session → Session
unfolding check_ec
on_resolved ec s = if check_ec ec then spawn connecting s else s

unfoldable pub on_connected : ErrorCode → Session → Session
unfolding check_ec
on_connected ec s = if check_ec ec then spawn handshaking s else s

-- on_connect behind the handshake, and send_request.
unfoldable pub send_request : ErrorCode → Session → Session
unfolding check_ec
send_request ec s =
    if check_ec ec
    then spawn sending (record s {
      forwarded = s.forwarded ++ generate_request s.request s.upstream_info.host ∷ [];
    })
    else s

-- Behind async_write to the upstream.
unfoldable pub on_sent : ErrorCode → Session → Session
unfolding check_ec
on_sent ec s = if check_ec ec then spawn receiving s else s

-- One round of read_response: the end of the stream completes the session with all that was read.
unfoldable pub on_received : ErrorCode → Bytes → Session → Session
unfolding is_eof check_ec write_response
on_received ec chunk s =
    if is_eof ec
    then write_response s.received true s
    else if not (check_ec ec)
    then s
    else spawn receiving (record s { received = s.received ++ chunk })
