-- ===== src/Session/Delivery.antt =====
-- The run of a session in which everything succeeds.
use market_bridge.Base.{
  ℕ, ◌≡◌, refl, true, false, List, [], ◌∷◌, ◌++◌, Option, none, some, Bytes, codes, equal,
}
use market_bridge.Http.Message.{generate_request}
use market_bridge.Http.Parse.{parse_request}
use market_bridge.Session.ErrorCode.{ErrorCode, success, eof, operation_aborted}
use market_bridge.Session.Defs.{
  Op, starting, reading_header, timer_running, timer_handler, outgoing_starting, resolving,
  connecting, handshaking, sending, receiving, VerifyMode, Session, UpstreamInfo, construct, spawn,
}
use market_bridge.Session.Handlers.{
  start, start_impl, on_header_read, verify_mode_of, c_str, outgoing_start_impl, on_resolved,
  on_connected, send_request, on_sent, on_received,
}
use market_bridge.Session.Steps.{Completion, complete, completes, Reach, here, next}
use market_bridge.Session.Forward.{deliver, concat, deliver_exact}
use market_bridge.Session.Secure.{configured}
use market_bridge.Session.Race.{succeeds}

abbrev pub reads : ErrorCode → Bytes → Completion
reads ec chunk = record { ec = ec; bytes = chunk; allowed = true; done = true }

-- A run in which the limiter admits what asks it, and in which the server does not call stop.
pub data Admitted (s : Session) : Session → Type 0 where
  arrived : Admitted s s
  goes_on :
      {t u : Session} (before : List Op) (op : Op) (after : List Op) (k : Completion)
      → Admitted s t
      → k.allowed ≡ true
      → t.pending ≡ before ++ op ∷ after
      → u ≡ complete op k (record t { pending = before ++ after })
      → Admitted s u

pub Admitted-Reach : {s t : Session} → Admitted s t → Reach s t
Admitted-Reach arrived = here
Admitted-Reach (goes_on before op after k r a e q) =
    next (Admitted-Reach r) (completes before op after k e q)

-- A session that waits for the upstream can receive any chunks and then the end of the stream.
deliver-Admitted :
    (chunks : List Bytes) (origin s : Session)
    → Admitted origin (spawn receiving s)
    → Admitted origin (deliver chunks s)
unfolding complete on_received
deliver-Admitted [] origin s r = goes_on [] receiving s.pending (reads eof []) r refl refl refl
deliver-Admitted (chunk ∷ chunks) origin s r =
    deliver-Admitted chunks origin (record (on_received success chunk s) { pending = s.pending })
      (goes_on [] receiving s.pending (reads success chunk) r refl refl refl)

-- Receiving changes neither what was forwarded nor how it was verified.
deliver-keeps :
    (chunks : List Bytes) (s : Session)
    → ((deliver chunks s).forwarded ≡ s.forwarded) × ((deliver chunks s).verify ≡ s.verify)
unfolding on_received
deliver-keeps [] s = (refl, refl)
deliver-keeps (chunk ∷ chunks) s =
    deliver-keeps chunks (record (on_received success chunk s) { pending = s.pending })

-- What a session waits for on the upstream's side: for the response with the chunks that it has read,
-- the latest first.
pub data Wait : Type 0 where
  for_resolver for_connection for_handshake for_write : Wait
  for_response : List Bytes → Wait

abbrev pub outstanding : Wait → Op
outstanding for_resolver = resolving
outstanding for_connection = connecting
outstanding for_handshake = handshaking
outstanding for_write = sending
outstanding (for_response chunks) = receiving

abbrev pub gathered : Wait → Bytes
gathered (for_response (chunk ∷ chunks)) = gathered (for_response chunks) ++ chunk
gathered _ = []

module _ (id : ℕ) (info : UpstreamInfo) (raw : Bytes) where
  -- Behind the header, with the operation of the upstream side before the cancelled timer.
  abbrev stage : Option VerifyMode → Option Bytes → List Op → List Bytes → Session
  stage verify host_name ops forwarded = record {
    id = id;
    stopped = false;
    socket_open = true;
    request = parse_request raw;
    response = [];
    upstream_info = info;
    default_verify_paths = true;
    verify = verify;
    host_name = host_name;
    received = [];
    pending = ops;
    sent = [];
    forwarded = forwarded;
  }

  abbrev timer : List Op
  timer = timer_handler operation_aborted ∷ []

  abbrev verified : Option VerifyMode
  verified = some (configured info)

  abbrev named : Option Bytes
  named = some (c_str info.host)

  abbrev outgoing : List Bytes
  outgoing = generate_request (parse_request raw) info.host ∷ []

  header_arrives :
      equal (parse_request raw).target (codes "/health") ≡ false
      → Admitted (start (construct id info)) (stage none none (outgoing_starting ∷ timer) [])
  unfolding start construct complete start_impl on_header_read
  header_arrives h =
      goes_on [] reading_header (timer_running ∷ []) (succeeds raw)
        (goes_on [] starting [] (succeeds []) arrived refl refl refl) refl refl (rw h refl)

  -- What the session has forwarded and has read as it waits for the upstream.
  abbrev pub forwarded_while : Wait → List Bytes
  forwarded_while (for_response chunks) = outgoing
  forwarded_while for_write = outgoing
  forwarded_while _ = []

  abbrev pub waiting : Wait → Session
  waiting w = record (stage verified named (outstanding w ∷ timer) (forwarded_while w)) {
    received = gathered w;
  }

  -- The session comes to wait.
  abbrev Comes : Wait → Type 0
  Comes w = Admitted (start (construct id info)) (waiting w)

  resolver_reached : equal (parse_request raw).target (codes "/health") ≡ false → Comes for_resolver
  unfolding complete outgoing_start_impl verify_mode_of
  resolver_reached h =
      goes_on [] outgoing_starting timer (succeeds []) (header_arrives h) refl refl refl

  connection_reached : Comes for_resolver → Comes for_connection
  unfolding complete on_resolved
  connection_reached r = goes_on [] resolving timer (succeeds []) r refl refl refl

  handshake_reached : Comes for_connection → Comes for_handshake
  unfolding complete on_connected
  handshake_reached r = goes_on [] connecting timer (succeeds []) r refl refl refl

  write_reached : Comes for_handshake → Comes for_write
  unfolding complete send_request
  write_reached r = goes_on [] handshaking timer (succeeds []) r refl refl refl

  response_reached : Comes for_write → (chunks : List Bytes) → Comes (for_response chunks)
  unfolding complete on_sent on_received
  response_reached r [] = goes_on [] sending timer (succeeds []) r refl refl refl
  response_reached r (chunk ∷ chunks) =
      goes_on [] receiving timer (reads success chunk) (response_reached r chunks) refl refl refl

  pub waiting_reached :
      equal (parse_request raw).target (codes "/health") ≡ false → (w : Wait) → Comes w
  waiting_reached h w =
      let resolver = resolver_reached h in
      let connection = connection_reached resolver in
      let handshake = handshake_reached connection in
      let write = write_reached handshake in
      elim w as (λ x. Comes x) [
        | for_resolver ↦ resolver
        | for_connection ↦ connection
        | for_handshake ↦ handshake
        | for_write ↦ write
        | for_response chunks ↦ response_reached write chunks
      ]

  -- A session with what a served client and the upstream have been handed.
  pub record HasServed (chunks : List Bytes) (t : Session) : Type 0 where
    pub forwarded : t.forwarded ≡ generate_request (parse_request raw) info.host ∷ []
    pub verify : t.verify ≡ some (configured info)
    pub sent : t.sent ≡ concat chunks ∷ []

  pub proxy_serves :
      (chunks : List Bytes)
      → equal (parse_request raw).target (codes "/health") ≡ false
      → (t : Session) × Admitted (start (construct id info)) t × HasServed chunks t
  proxy_serves chunks h =
      let s = stage verified named timer outgoing in
      let (forwarded, verify) = deliver-keeps chunks s in
      (
        deliver chunks s,
        deliver-Admitted chunks _ s (waiting_reached h (for_response [])),
        record { forwarded = forwarded; verify = verify; sent = (deliver_exact chunks s refl).0 },
      )

  -- The proxy does its work: for every request for a target other than /health that the limiter
  -- admits and any chunks that the upstream answers with, there is a run, in which no operation fails,
  -- that sends the upstream the one generated request over a stream with the configured verification
  -- and hands the client exactly the chunks in order.
  proxy_delivers :
      (chunks : List Bytes)
      → equal (parse_request raw).target (codes "/health") ≡ false
      → (t : Session) × Reach (start (construct id info)) t
        × (t.forwarded ≡ generate_request (parse_request raw) info.host ∷ [])
        × (t.verify ≡ some (configured info))
        × (t.sent ≡ concat chunks ∷ [])
  proxy_delivers chunks h =
      let (t, r, served) = proxy_serves chunks h in
      (t, Admitted-Reach r, served.forwarded, served.verify, served.sent)
