-- ===== src/Session/Header.antt =====
-- The request that a session reads from what its client sends.
use market_bridge.Base.{◌≡◌, refl, ap, ◌∙◌, Bool, false, [], Bytes, All}
use market_bridge.Base.Map.{Map, insert_all}
use market_bridge.Http.Message.{request_line, message}
use market_bridge.Http.Parse.{parse_request}
use market_bridge.Http.Lines.{IsHeader}
use market_bridge.Http.Words.{IsWord}
use market_bridge.Http.RoundTrip.{parse_request-request_line, request_line-Lacks}
use market_bridge.Http.Delimiter.{
  http_request_headers_delimiter, IsReadUntil, message-IsReadUntil, read_until_unique,
}
use market_bridge.Session.ErrorCode.{success}
use market_bridge.Session.Defs.{Session}
use market_bridge.Session.Handlers.{on_header_read, on_request, cancel_timer}

parsed :
    (allowed : Bool) (raw : Bytes) (s : Session)
    → s.stopped ≡ false
    → on_header_read allowed success raw s ≡ on_request allowed (parse_request raw) (cancel_timer s)
unfolding on_header_read
parsed allowed raw s h = rw h refl

-- A client sends a request line of three words, headers in any order whose names hold no colon and no
-- newline and whose values hold no newline and begin with no blank, the empty line, and then any
-- bytes. Whatever async_read_until counts up to the delimiter's first end, a session that is not
-- stopped cancels the timer and goes on with exactly these three words, the map of these headers and
-- an empty body: nothing behind the empty line is part of the request.
pub header_parsed :
    (m t v : Bytes) (hs : Map) (body raw : Bytes) (allowed : Bool) (s : Session)
    → IsWord m
    → IsWord t
    → IsWord v
    → All IsHeader hs
    → IsReadUntil http_request_headers_delimiter (message (request_line m t v) hs body) raw
    → s.stopped ≡ false
    → on_header_read allowed success raw s
      ≡ on_request allowed
          (record { method = m; target = t; version = v; headers = insert_all [] hs; body = [] })
          (cancel_timer s)
header_parsed m t v hs body raw allowed s hm ht hv h r running =
    let e =
      read_until_unique http_request_headers_delimiter _ raw (message (request_line m t v) hs []) r
        (message-IsReadUntil (request_line m t v) hs body (request_line-Lacks m t v hm ht hv) h) in
    parsed allowed raw s running
    ∙ ap (λ x. on_request allowed (parse_request x) (cancel_timer s)) e
    ∙ ap (λ q. on_request allowed q (cancel_timer s))
        (parse_request-request_line m t v hs [] hm ht hv h tt)
