-- ===== src/Session/Forward.antt =====
-- What a session sends upstream, and what it makes of the answer.
use market_bridge.Base.{
  ℕ, ◌+◌, ◌≤◌, ◌≡◌, ap, ◌∙◌, true, List, [], ◌∷◌, ◌++◌, Bytes, length, length-append, append_assoc,
  append-nil, arith,
}
use market_bridge.Http.Message.{generate_request}
use market_bridge.Session.ErrorCode.{success, eof}
use market_bridge.Session.Defs.{
  Op, starting, stopping, reading_header, timer_running, timer_handler, timing_out, rejecting,
  answering_health, writing, outgoing_starting, resolving, connecting, handshaking, sending,
  receiving, Session, UpstreamInfo, construct,
}
use market_bridge.Session.Handlers.{
  start, stop, run_stop, start_impl, on_timer, on_header_timeout, on_header_read, write_response,
  on_written, outgoing_start_impl, on_resolved, on_connected, send_request, on_sent, on_received,
}
use market_bridge.Session.Weights.{total, total_remove, total-cancelled, Reach-keeps}
use market_bridge.Session.Steps.{Completion, complete, Reach}

-- The operations on the way to the request to the upstream.
abbrev leads : Op → ℕ
leads starting = 1
leads reading_header = 1
leads outgoing_starting = 1
leads resolving = 1
leads connecting = 1
leads handshaking = 1
leads _ = 0

abbrev IsSingle : Session → ℕ → Type 0
IsSingle s more = length s.forwarded + total leads s.pending + more ≤ 1

complete-IsSingle :
    (op : Op) (k : Completion) (s : Session) → IsSingle s (leads op) → IsSingle (complete op k s) 0
unfolding complete
complete-IsSingle starting k s h = unfold start_impl in ground arith
complete-IsSingle stopping k s h = unfold run_stop in ground arith
complete-IsSingle reading_header k s h =
    unfold on_header_read in ground (arith, total-cancelled leads s.pending (omega arith))
complete-IsSingle timer_running k s h = ground arith
complete-IsSingle (timer_handler ec) k s h = unfold on_timer in ground arith
complete-IsSingle (timing_out ec) k s h = unfold on_header_timeout in ground arith
complete-IsSingle rejecting k s h = unfold write_response in ground arith
complete-IsSingle answering_health k s h = unfold write_response in ground arith
complete-IsSingle (writing then_shutdown) k s h = unfold on_written in ground arith
complete-IsSingle outgoing_starting k s h = unfold outgoing_start_impl in ground arith
complete-IsSingle resolving k s h = unfold on_resolved in ground arith
complete-IsSingle connecting k s h = unfold on_connected in ground arith
complete-IsSingle handshaking k s h =
    unfold send_request in
    ground (arith, length-append s.forwarded (generate_request s.request s.upstream_info.host ∷ []))
complete-IsSingle sending k s h = unfold on_sent in ground arith
complete-IsSingle receiving k s h = unfold on_received in ground arith

Reach-IsSingle : (s t : Session) → Reach s t → IsSingle s 0 → IsSingle t 0
unfolding stop
Reach-IsSingle =
    Reach-keeps IsSingle leads
      (λ s before op after e h. omega (arith, h, total_remove leads s.pending before op after e))
      complete-IsSingle (λ s h. omega (arith, h))

-- However its operations complete, a started session sends at most one request to the upstream.
pub at_most_one_forwarded :
    (id : ℕ) (info : UpstreamInfo) (t : Session)
    → Reach (start (construct id info)) t
    → length t.forwarded ≤ 1
unfolding start construct
at_most_one_forwarded id info t r =
    omega (arith, Reach-IsSingle (start (construct id info)) t r (omega arith))

-- The reads of read_response completing in turn with these chunks, and then with the end of the stream.
abbrev pub deliver : List Bytes → Session → Session
deliver [] s = on_received eof [] s
deliver (chunk ∷ chunks) s =
    deliver chunks (record (on_received success chunk s) { pending = s.pending })

abbrev pub concat : List Bytes → Bytes
concat [] = []
concat (chunk ∷ chunks) = chunk ++ concat chunks

-- The response reaches the client unchanged: while the client's socket is open, reads of any chunks
-- up to the end of the stream hand it the bytes of all chunks in order, after what was read before, in
-- one response, and the session shuts down behind it.
pub deliver_exact :
    (chunks : List Bytes) (s : Session)
    → s.socket_open ≡ true
    → ((deliver chunks s).sent ≡ s.sent ++ (s.received ++ concat chunks) ∷ [])
      × ((deliver chunks s).pending ≡ writing true ∷ s.pending)
unfolding on_received
deliver_exact [] s open_ = ground (arith, append-nil s.received)
deliver_exact (chunk ∷ chunks) s open_ =
    let (a, b) = deliver_exact chunks (record s { received = s.received ++ chunk }) open_ in
    (a ∙ ap (λ x. s.sent ++ x ∷ []) (append_assoc s.received chunk (concat chunks)), b)
