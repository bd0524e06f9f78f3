-- ===== src/Examples/Sessions.antt =====
-- A session that forwards a request, and one that is stopped.
use market_bridge.Base.{
  All, ◌+◌, ◌≤◌, ◌≡◌, ◌≢◌, refl, true, false, List, [], ◌∷◌, ◌++◌, some, Bytes, codes, length,
  equal, if◌then◌else◌, arith,
}
use market_bridge.Http.Parse.{parse_request}
use market_bridge.Session.ErrorCode.{success, operation_aborted}
use market_bridge.Session.Defs.{
  verify_peer, starting, stopping, reading_header, timer_running, writing, answering_health,
  timer_handler, outgoing_starting, resolving, connecting, handshaking, UpstreamInfo, Session,
  construct, Op,
}
use market_bridge.Session.Handlers.{
  c_str, start, stop, start_impl, on_header_read, outgoing_start_impl, on_resolved, on_connected,
  send_request, on_timer, write_response, health_response, timeout_response,
}
use market_bridge.Session.Steps.{Completion, complete, completes, Reach, here, next}
use market_bridge.Session.Responses.{at_most_one_response}
use market_bridge.Session.Forward.{at_most_one_forwarded}
use market_bridge.Session.Answers.{IsAnswer, bytes_read, sent-IsAnswer}
use market_bridge.Session.Delivery.{proxy_serves, Admitted-Reach}
use market_bridge.Session.Secure.{forwarded_secured}
use market_bridge.Session.Weights.{total}
use market_bridge.Session.Buffer.{writes, response_stable}
use market_bridge.Session.Race.{late_timeout}

abbrev pub info : UpstreamInfo
info = record { host = codes "h"; port = 443; ignore_certificate_verification = false }

abbrev pub raw : Bytes
raw = codes "GET /t HTTP/1.1" ++ (b'\r' ∷ b'\n' ∷ b'\r' ∷ b'\n' ∷ [])

abbrev pub ok_with : Bytes → Completion
ok_with bytes = record { ec = success; bytes = bytes; allowed = true; done = true }

-- The first of the outstanding operations completes.
abbrev pub rest : List Op → List Op
rest [] = []
rest (op ∷ ops) = ops

abbrev pub first : Op → Session → Session
first op s = complete op (ok_with raw) (record s { pending = rest s.pending })

abbrev pub begun : Session
begun = first starting (start (construct 7 info))

abbrev header_read : Session
header_read = first reading_header begun

abbrev pub forwarding : Session
forwarding =
    first handshaking (first connecting (first resolving (first outgoing_starting header_read)))

begun_reached : Reach (start (construct 7 info)) begun
unfolding start construct
begun_reached = next here (completes [] starting [] (ok_with raw) refl refl)

pub forwarding_reached : Reach (start (construct 7 info)) forwarding
unfolding start construct complete start_impl on_header_read parse_request outgoing_start_impl
    on_resolved on_connected equal
forwarding_reached =
    next
      (next
        (next
          (next
            (next begun_reached
              (completes [] reading_header (timer_running ∷ []) (ok_with raw) refl refl))
            (completes [] outgoing_starting _ (ok_with raw) refl refl))
          (completes [] resolving _ (ok_with raw) refl refl))
        (completes [] connecting _ (ok_with raw) refl refl))
      (completes [] handshaking _ (ok_with raw) refl refl)

at_most_one_response_example : length forwarding.sent ≤ 1 + (if forwarding.stopped then 1 else 0)
at_most_one_response_example = at_most_one_response 7 info forwarding forwarding_reached

at_most_one_forwarded_example : length forwarding.forwarded ≤ 1
at_most_one_forwarded_example = at_most_one_forwarded 7 info forwarding forwarding_reached

cons-ne : (x : Bytes) (xs : List Bytes) → (x ∷ xs) ≢ []
cons-ne x xs e = cc

forwarded_secured_example :
    (forwarding.default_verify_paths ≡ true)
    × (forwarding.verify ≡ some (verify_peer (codes "h")))
    × (forwarding.host_name ≡ some (codes "h"))
unfolding start construct complete start_impl on_header_read parse_request outgoing_start_impl
    on_resolved on_connected send_request equal c_str
forwarded_secured_example = forwarded_secured 7 info forwarding forwarding_reached (cons-ne _ _)

-- Stopped before the header arrives.
abbrev pub halted : Session
halted = first stopping (stop begun)

late_timeout_example :
    (t : Session) × Reach (start (construct 7 info)) t
    × (t.sent ≡ health_response ∷ timeout_response ∷ [])
    × (t.pending ≡ writing true ∷ writing false ∷ [])
    × (t.response ≡ timeout_response)
unfolding parse_request equal
late_timeout_example =
    late_timeout 7 info (codes "GET /health HTTP/1.1" ++ (b'\r' ∷ b'\n' ∷ [])) refl

-- A session that writes the answer to a request for /health, as the cancelled timer's handler runs.
abbrev health : Bytes
health = codes "GET /health HTTP/1.1" ++ (b'\r' ∷ b'\n' ∷ b'\r' ∷ b'\n' ∷ [])

abbrev answering : Session
answering =
    first answering_health
      (complete reading_header (ok_with health) (record begun { pending = timer_running ∷ [] }))

abbrev later : Session
later =
    complete (timer_handler operation_aborted) (ok_with [])
      (record answering { pending = writing false ∷ [] })

answering_reached : Reach (start (construct 7 info)) answering
unfolding start construct complete start_impl on_header_read parse_request equal
answering_reached =
    next
      (next begun_reached
        (completes [] reading_header (timer_running ∷ []) (ok_with health) refl refl))
      (completes [] answering_health _ (ok_with raw) refl refl)

response_stable_example :
    (total writes answering.pending ≡ 1) × (later.response ≡ answering.response)
unfolding start construct complete start_impl on_header_read parse_request equal on_timer
    write_response
response_stable_example =
    response_stable 7 info answering later answering_reached
      (completes (writing false ∷ []) (timer_handler operation_aborted) [] (ok_with []) refl refl)
      refl (omega arith)

-- A session whose client is handed the two chunks that were read.
abbrev served : (t : Session) × Reach (start (construct 7 info)) t
unfolding parse_request equal
served =
    let (t, r, handed) = proxy_serves 7 info raw (codes "HTTP/1.1 200" ∷ codes " OK" ∷ []) refl in
    (t, Admitted-Reach r)

sent-IsAnswer_example : All (IsAnswer (bytes_read served.1)) served.0.sent
sent-IsAnswer_example = sent-IsAnswer 7 info served.0 served.1
