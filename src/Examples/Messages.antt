-- ===== src/Examples/Messages.antt =====
-- Requests and responses at concrete inputs.
use market_bridge.Base.{
  ◌≡◌, refl, true, false, [], ◌∷◌, ◌++◌, some, Bytes, codes, arith, length, is_empty,
}
use market_bridge.Base.Decimal.{to_string}
use market_bridge.Base.Map.{find, insert, insert_all}
use market_bridge.Http.Message.{
  message, request_line, HttpRequest, request_to_string, response_to_string, generate_request,
  generate_http_response, ok, application_json, close, status_of, content_length, content_type_key,
  content_type_text, connection_key,
}
use market_bridge.Http.Parse.{parse_request, trim_leading, is_space}
use market_bridge.Http.Clean.{IsClean}
use market_bridge.Http.RoundTrip.{request_line-Lacks, IsRequest, parse_request-request_to_string}
use market_bridge.Http.Clean.{parse_request-IsClean}
use market_bridge.Http.Generated.{generate_http_response_framed}
use market_bridge.Http.Forwarded.{read_back, generate_request_read}
use market_bridge.Http.Order.{parse_request-perm}
use market_bridge.Http.Delimiter.{message-IsReadUntil}
use market_bridge.Session.ErrorCode.{success}
use market_bridge.Session.Defs.{timer_running, Session, construct}
use market_bridge.Session.Handlers.{on_header_read, on_request, cancel_timer}
use market_bridge.Session.Header.{header_parsed}
use mathlib.Core.List.Permᴰ

abbrev host : Bytes
host = codes "api.binance.com"

-- A request with an upper-case value, blanks around it and a body.
abbrev raw : Bytes
raw =
    codes "GET /api/v3/time HTTP/1.1"
    ++ (b'\r'
        ∷ b'\n'
        ∷ (codes "User-Agent:   curl/8" ++ (b'\r' ∷ b'\n' ∷ b'\r' ∷ b'\n' ∷ codes "x=1")))

abbrev time_request : HttpRequest
time_request = record {
  method = codes "GET";
  target = codes "/api/v3/time";
  version = codes "HTTP/1.1";
  headers = (codes "User-Agent", codes "curl/8") ∷ [];
  body = codes "x=1";
}

raw_read : parse_request raw ≡ time_request
unfolding parse_request insert
raw_read = refl

time_IsRequest : IsRequest time_request
unfolding is_space trim_leading
time_IsRequest = record {
  method = record { solid = ground arith; nonempty = λ e. cc };
  target = record { solid = ground arith; nonempty = λ e. cc };
  version = record { solid = ground arith; nonempty = λ e. cc };
  headers = (
    (
      record {
        name_colon = omega arith;
        name_newline = omega arith;
        value_newline = omega arith;
        trimmed = refl;
      },
      tt,
    ),
    (tt, tt),
  );
  body = omega arith;
}

parse_request-request_to_string_example :
    parse_request (request_to_string time_request) ≡ time_request
parse_request-request_to_string_example =
    parse_request-request_to_string time_request time_IsRequest

parse_request-IsClean_example : IsClean (parse_request raw)
parse_request-IsClean_example = parse_request-IsClean raw

abbrev reply : Bytes
reply = codes "{\"status\": \"UP\"}"

generate_http_response_framed_example :
    let seen =
      parse_request (
        response_to_string (generate_http_response ok (codes "OK") reply application_json close)) in
    (seen.target ≡ to_string (status_of ok))
    × (seen.body ≡ reply)
    × (find content_length seen.headers ≡ some (to_string (length reply)))
    × (find content_type_key seen.headers ≡ some (codes "application/json"))
    × (find connection_key seen.headers ≡ some (codes "close"))
unfolding is_empty content_type_text
generate_http_response_framed_example =
    generate_http_response_framed ok (codes "OK") reply application_json close (omega arith)
      (omega arith)

generate_request_read_example :
    parse_request (generate_request (parse_request raw) host) ≡ read_back (parse_request raw) host
unfolding trim_leading
generate_request_read_example =
    generate_request_read raw host (record { newline = omega arith; trimmed = refl })

abbrev accept_line : Bytes × Bytes
accept_line = (codes "Accept", codes "*/*")

abbrev agent_line : Bytes × Bytes
agent_line = (codes "User-Agent", codes "curl/8")

parse_request-perm_example :
    parse_request (message (codes "GET /t HTTP/1.1") (accept_line ∷ agent_line ∷ []) [])
    ≡ parse_request (message (codes "GET /t HTTP/1.1") (agent_line ∷ accept_line ∷ []) [])
unfolding trim_leading
parse_request-perm_example =
    parse_request-perm (codes "GET /t HTTP/1.1") (accept_line ∷ agent_line ∷ [])
      (agent_line ∷ accept_line ∷ []) [] (omega arith)
      (
        record {
          name_colon = omega arith;
          name_newline = omega arith;
          value_newline = omega arith;
          trimmed = refl;
        },
        (
          record {
            name_colon = omega arith;
            name_newline = omega arith;
            value_newline = omega arith;
            trimmed = refl;
          },
          tt,
        ),
      )
      (((λ e. cc), tt), (tt, tt)) (omega arith) ∣ Permᴰ.swap refl refl ∣₁

-- A client that sends a second request behind its first.
abbrev reading : Session
reading =
    record (construct 7
      (record { host = host; port = 443; ignore_certificate_verification = false })) {
        pending = timer_running ∷ [];
      }

abbrev line : Bytes
line = request_line time_request.method time_request.target time_request.version

header_parsed_example :
    on_header_read true success (message line time_request.headers []) reading
    ≡ on_request true (record time_request { body = [] }) (cancel_timer reading)
unfolding construct insert_all insert
header_parsed_example =
    let h = time_IsRequest in
    header_parsed time_request.method time_request.target time_request.version time_request.headers
      (codes "GET /b HTTP/1.1" ++ (b'\r' ∷ b'\n' ∷ b'\r' ∷ b'\n' ∷ []))
      (message line time_request.headers []) true reading h.method h.target h.version h.headers.0
      (message-IsReadUntil line time_request.headers _
        (request_line-Lacks _ _ _ h.method h.target h.version) h.headers.0)
      refl
