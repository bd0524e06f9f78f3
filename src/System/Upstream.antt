-- ===== src/System/Upstream.antt =====
-- What the upstream server reads from the sessions of the system.
use market_bridge.Base.{ℕ, ◌≡◌, ap, ◌∙◌, [], Bytes, codes, All, All-map}
use market_bridge.Config.{ThrottlingConfig}
use market_bridge.Http.Parse.{parse_request}
use market_bridge.Http.Message.{HttpRequest}
use market_bridge.Http.Lines.{IsValue}
use market_bridge.Http.Outgoing.{sent_map}
use market_bridge.Http.Forwarded.{generate_request_read}
use market_bridge.Session.Defs.{UpstreamInfo, Session}
use market_bridge.Session.Origin.{IsGenerated, forwarded-IsGenerated}
use market_bridge.TokenBucket.Floats.{Double}
use market_bridge.System.{System, boot, Reach}
use market_bridge.System.Sessions.{IsRun, sessions-IsRun}

-- A GET of the program's own, under the four headers for the host, with no body.
pub record IsOwnGet (host text : Bytes) : Type 0 where
  pub method : (parse_request text).method ≡ codes "GET"
  pub headers : (agent : Bytes) × ((parse_request text).headers ≡ sent_map host agent)
  pub body : (parse_request text).body ≡ []

abbrev pub SendsGets : Bytes → Session → Type 0
SendsGets host x = All (IsOwnGet host) x.forwarded

generated-IsOwnGet : (host text : Bytes) → IsValue host → IsGenerated host text → IsOwnGet host text
generated-IsOwnGet host text h (raw, e) =
    let read = ap parse_request e ∙ generate_request_read raw host h in
    record {
      method = ap (λ (r : HttpRequest). r.method) read;
      headers = (_, ap (λ (r : HttpRequest). r.headers) read);
      body = ap (λ (r : HttpRequest). r.body) read;
    }

run-SendsGets :
    (info : UpstreamInfo) → IsValue info.host → (x : Session) → IsRun info x → SendsGets info.host x
run-SendsGets info h x (id, r) =
    All-map (IsGenerated info.host) (IsOwnGet info.host)
      (λ text. generated-IsOwnGet info.host text h) x.forwarded (forwarded-IsGenerated id info x r)

-- Nothing of a client's request but its target and its user agent comes through: whatever clients send
-- to the server and in whatever order its sessions go on, the upstream server, which reads what it is
-- sent as parse_request does, sees GET requests only, with exactly the program's four headers for the
-- configured host and no body. The configured host must hold no newline and begin with no blank.
pub upstream_sees_gets :
    (D : Double) (info : UpstreamInfo) (throttling : ThrottlingConfig) (now : ℕ) (t : System D)
    → IsValue info.host
    → Reach D info (boot D throttling now) t
    → All (SendsGets info.host) t.sessions
upstream_sees_gets D info throttling now t h r =
    All-map (IsRun info) (SendsGets info.host) (run-SendsGets info h) t.sessions
      (sessions-IsRun D info throttling now t r)
