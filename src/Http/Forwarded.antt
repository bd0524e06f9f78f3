-- ===== src/Http/Forwarded.antt =====
-- What a server reads from a request that generate_request writes, whatever the client has sent.
use market_bridge.Base.{
  true, false, ◌≡◌, refl, ap, ◌∙◌, [], ◌∷◌, Bytes, codes, is_empty, arith, if◌then◌else◌,
}
use market_bridge.Http.Message.{
  HttpRequest, message, request_line, outgoing_headers, user_agent_of, generate_request,
}
use market_bridge.Http.Parse.{parse_request, read_word}
use market_bridge.Http.Lines.{IsValue}
use market_bridge.Http.Clean.{parse_request-IsClean}
use market_bridge.Http.RoundTrip.{parse_request-message}
use market_bridge.Http.Outgoing.{
  sent_map, generate_request_exact, insert_all-outgoing_headers, outgoing_headers-IsHeader,
  user_agent_of-IsValue,
}

-- The request that is read: without a target the version takes its place.
abbrev pub read_back : HttpRequest → Bytes → HttpRequest
read_back request host = record {
  method = codes "GET";
  target = if is_empty request.target then codes "HTTP/1.1" else request.target;
  version = if is_empty request.target then [] else codes "HTTP/1.1";
  headers = sent_map host (user_agent_of request.headers);
  body = [];
}

generate_request_empty :
    (raw host : Bytes)
    → (parse_request raw).target ≡ []
    → IsValue host
    → parse_request (generate_request (parse_request raw) host) ≡ record {
      method = codes "GET";
      target = codes "HTTP/1.1";
      version = [];
      headers = sent_map host (user_agent_of (parse_request raw).headers);
      body = [];
    }
unfolding generate_request read_word
generate_request_empty raw host e h =
    let agent = user_agent_of (parse_request raw).headers in
    let c = parse_request-IsClean raw in
    ap
      (λ (t : Bytes). parse_request (
        message (request_line (codes "GET") t (codes "HTTP/1.1")) (outgoing_headers host agent) []))
      e
    ∙ parse_request-message (request_line (codes "GET") [] (codes "HTTP/1.1"))
        (outgoing_headers host agent) [] (omega arith)
        (outgoing_headers-IsHeader host agent h
          (user_agent_of-IsValue (parse_request raw).headers c.headers.0))
        tt
    ∙ rw (insert_all-outgoing_headers host agent)

-- No request smuggling, on every branch: whatever bytes a client sends, a server that reads the request
-- written for them as parse_request does sees a GET with exactly the headers Accept, Connection, Host and
-- User-Agent and no body, the last header being the client's own or the program's; its target is the
-- client's, or, where the client has named none, the word HTTP/1.1, with no version. The configured host
-- must hold no newline and begin with no blank.
pub generate_request_read :
    (raw host : Bytes)
    → IsValue host
    → parse_request (generate_request (parse_request raw) host) ≡ read_back (parse_request raw) host
unfolding is_empty
generate_request_read raw host h = go (parse_request raw).target refl
  where
    go :
        (t : Bytes)
        → (parse_request raw).target ≡ t
        → parse_request (generate_request (parse_request raw) host)
          ≡ read_back (parse_request raw) host
    go [] e =
        let b : is_empty (parse_request raw).target ≡ true = ap is_empty e in
        rw b (generate_request_empty raw host e h)
    go (c ∷ t) e =
        let b : is_empty (parse_request raw).target ≡ false = ap is_empty e in
        rw b (generate_request_exact raw host (λ q. cc) h)
