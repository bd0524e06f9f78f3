-- ===== src/Http/Message.antt =====
-- utils/http-helper.h: requests, responses, their to_string, and generate_http_response.
use market_bridge.Base.{ℕ, [], ◌∷◌, ◌++◌, none, some, Bytes, codes, length, is_empty, if◌then◌else◌}
use market_bridge.Base.Decimal.{to_string}
use market_bridge.Base.Map.{Map, find, insert}

pub data HttpResponseCodes : Type 0 where
  ok created no_content bad_request unauthorized forbidden not_found : HttpResponseCodes
  request_timeout too_many_requests bad_gateway : HttpResponseCodes

unfoldable pub status_of : HttpResponseCodes → ℕ
status_of ok = 200
status_of created = 201
status_of no_content = 204
status_of bad_request = 400
status_of unauthorized = 401
status_of forbidden = 403
status_of not_found = 404
status_of request_timeout = 408
status_of too_many_requests = 429
status_of bad_gateway = 502

pub data HttpResponseConnection : Type 0 where
  close keep_alive : HttpResponseConnection

pub data HttpResponseContentType : Type 0 where
  text_plain application_json : HttpResponseContentType

pub record HttpRequest : Type 0 where
  pub method : Bytes
  pub target : Bytes
  pub version : Bytes
  pub headers : Map
  pub body : Bytes

-- A default-constructed request.
abbrev pub empty_request : HttpRequest
empty_request = record { method = []; target = []; version = []; headers = []; body = [] }

-- What stands for one header before its line end.
abbrev pub header_line : Bytes → Bytes → Bytes
header_line k v = k ++ (b':' ∷ b' ' ∷ v)

unfoldable pub render_headers : Map → Bytes
render_headers [] = []
render_headers ((k, v) ∷ m) = header_line k v ++ (b'\r' ∷ b'\n' ∷ render_headers m)

-- The first line, the headers, the empty line, the body.
unfoldable pub message : Bytes → Map → Bytes → Bytes
unfolding render_headers
message line headers body =
    line ++ (b'\r' ∷ b'\n' ∷ (render_headers headers ++ (b'\r' ∷ b'\n' ∷ body)))

abbrev pub request_line : Bytes → Bytes → Bytes → Bytes
request_line method target version = method ++ (b' ' ∷ (target ++ (b' ' ∷ version)))

unfoldable pub request_to_string : HttpRequest → Bytes
request_to_string r = message (request_line r.method r.target r.version) r.headers r.body

pub record HttpResponse : Type 0 where
  pub status_code : ℕ
  pub reason : Bytes
  pub headers : Map
  pub body : Bytes

abbrev pub content_length : Bytes
content_length = codes "Content-Length"

abbrev pub content_type_key : Bytes
content_type_key = codes "Content-Type"

abbrev pub connection_key : Bytes
connection_key = codes "Connection"

-- The headers as written: a Content-Length is added behind them if they have none.
unfoldable pub sent_headers : HttpResponse → Map
sent_headers r = elim (find content_length r.headers) [
  | some v ↦ r.headers
  | none ↦ r.headers ++ (content_length, to_string (length r.body)) ∷ []
]

abbrev pub status_line : ℕ → Bytes → Bytes
status_line status reason = codes "HTTP/1.1 " ++ (to_string status ++ (b' ' ∷ reason))

unfoldable pub response_to_string : HttpResponse → Bytes
response_to_string r = message (status_line r.status_code r.reason) (sent_headers r) r.body

unfoldable pub content_type_text : HttpResponseContentType → Bytes
content_type_text application_json = codes "application/json"
content_type_text text_plain = codes "text/plain"

unfoldable pub entity_headers : Bytes → HttpResponseContentType → Map
unfolding content_type_text
entity_headers body content_type =
    if is_empty body
    then insert content_length (codes "0") []
    else insert content_length (to_string (length body))
        (insert content_type_key (content_type_text content_type) [])

unfoldable pub with_connection : HttpResponseConnection → Map → Map
with_connection close m = insert connection_key (codes "close") m
with_connection keep_alive m = m

unfoldable pub generate_http_response :
    HttpResponseCodes
    → Bytes
    → Bytes
    → HttpResponseContentType
    → HttpResponseConnection
    → HttpResponse
unfolding status_of entity_headers with_connection
generate_http_response status_code reason body content_type connection = record {
  status_code = status_of status_code;
  reason = reason;
  headers = with_connection connection (entity_headers body content_type);
  body = body;
}

-- generate_request: the user agent of the client, or the program's own.
unfoldable pub user_agent_of : Map → Bytes
user_agent_of headers = elim (find (codes "User-Agent") headers) [
  | some agent ↦ agent
  | none ↦ codes "market-bridge/1.0.0"
]

abbrev pub outgoing_headers : Bytes → Bytes → Map
outgoing_headers host user_agent =
    (codes "Host", host)
    ∷ (codes "User-Agent", user_agent)
    ∷ (codes "Accept", codes "*/*")
    ∷ (connection_key, codes "close")
    ∷ []

unfoldable pub generate_request : HttpRequest → Bytes → Bytes
generate_request request host =
    message (request_line (codes "GET") request.target (codes "HTTP/1.1"))
      (outgoing_headers host (user_agent_of request.headers)) []
