-- ===== src/Http/Outgoing.antt =====
-- HTTPSession::OutgoingSession::generate_request, on requests that parse_request has read.
use market_bridge.Base.{
  ◌≡◌, ◌≢◌, refl, ◌∙◌, [], ◌∷◌, some, Bytes, codes, All, arith, Option-cases, compare_bytes, inl,
  inr,
}
use market_bridge.Base.Map.{Map, find, insert, insert_all}
use market_bridge.Http.Message.{outgoing_headers, user_agent_of, connection_key, generate_request}
use market_bridge.Http.Parse.{trim_leading, parse_request}
use market_bridge.Http.Lines.{IsHeader, IsValue}
use market_bridge.Http.Words.{get-IsWord, http-IsWord}
use market_bridge.Http.Clean.{parse_request-IsClean}
use market_bridge.Http.RoundTrip.{parse_request-request_line}

find-IsValue : (k : Bytes) (m : Map) (v : Bytes) → All IsHeader m → find k m ≡ some v → IsValue v
unfolding find
find-IsValue k [] v h e = cc
find-IsValue k ((j, w) ∷ m) v h e = ground (arith, find-IsValue k m v h.1)

pub user_agent_of-IsValue : (m : Map) → All IsHeader m → IsValue (user_agent_of m)
unfolding user_agent_of trim_leading
user_agent_of-IsValue m h = elim (Option-cases (find (codes "User-Agent") m)) [
  | inl e ↦ rw (e, user_agent_of) (record { newline = omega arith; trimmed = refl })
  | inr (v, e) ↦ rw (e, user_agent_of) (find-IsValue (codes "User-Agent") m v h e)
]

-- The map that a server reads from the four headers.
abbrev pub sent_map : Bytes → Bytes → Map
sent_map host user_agent =
    (codes "Accept", codes "*/*")
    ∷ (connection_key, codes "close")
    ∷ (codes "Host", host)
    ∷ (codes "User-Agent", user_agent)
    ∷ []

pub insert_all-outgoing_headers :
    (host user_agent : Bytes)
    → insert_all [] (outgoing_headers host user_agent) ≡ sent_map host user_agent
unfolding insert_all insert compare_bytes
insert_all-outgoing_headers host user_agent = refl

pub outgoing_headers-IsHeader :
    (host user_agent : Bytes)
    → IsValue host
    → IsValue user_agent
    → All IsHeader (outgoing_headers host user_agent)
unfolding trim_leading
outgoing_headers-IsHeader host user_agent h u = (
  record {
    name_colon = omega arith;
    name_newline = omega arith;
    value_newline = h.newline;
    trimmed = h.trimmed;
  },
  (
    record {
      name_colon = omega arith;
      name_newline = omega arith;
      value_newline = u.newline;
      trimmed = u.trimmed;
    },
    (
      record {
        name_colon = omega arith;
        name_newline = omega arith;
        value_newline = omega arith;
        trimmed = refl;
      },
      (
        record {
          name_colon = omega arith;
          name_newline = omega arith;
          value_newline = omega arith;
          trimmed = refl;
        },
        tt,
      ),
    ),
  ),
)

-- No request smuggling: whatever bytes a client sends, if they name a target, then a server that
-- reads the request written for them as parse_request does sees exactly a GET of that target with the
-- four headers Accept, Connection, Host and User-Agent and no body, the last being the client's own or
-- the program's. The configured host must hold no newline and begin with no blank.
pub generate_request_exact :
    (raw host : Bytes)
    → (parse_request raw).target ≢ []
    → IsValue host
    → parse_request (generate_request (parse_request raw) host) ≡ record {
      method = codes "GET";
      target = (parse_request raw).target;
      version = codes "HTTP/1.1";
      headers = sent_map host (user_agent_of (parse_request raw).headers);
      body = [];
    }
unfolding generate_request
generate_request_exact raw host t h =
    let c = parse_request-IsClean raw in
    let agent = user_agent_of (parse_request raw).headers in
    parse_request-request_line (codes "GET") (parse_request raw).target (codes "HTTP/1.1")
      (outgoing_headers host agent) [] get-IsWord (record { solid = c.target; nonempty = t })
      http-IsWord
      (outgoing_headers-IsHeader host agent h
        (user_agent_of-IsValue (parse_request raw).headers c.headers.0))
      tt
    ∙ rw (insert_all-outgoing_headers host agent)
