-- ===== src/Session/Stopped.antt =====
-- A session that is stopped before its header has arrived serves nothing.
use market_bridge.Base.{ℕ, ◌+◌, ◌≡◌, refl, true, List, Bytes, arith}
use market_bridge.Session.Defs.{
  Op, starting, stopping, reading_header, timer_running, timer_handler, timing_out, rejecting,
  answering_health, writing, outgoing_starting, resolving, connecting, handshaking, sending,
  receiving, Session,
}
use market_bridge.Session.Handlers.{
  stop, run_stop, start_impl, on_timer, on_header_timeout, on_header_read, write_response,
  on_written, outgoing_start_impl, on_resolved, on_connected, send_request, on_sent, on_received,
}
use market_bridge.Session.Weights.{total, total_remove, total-cancelled, Reach-keeps}
use market_bridge.Session.Steps.{Completion, complete, Reach}

-- The operations that follow the admission of a request or its rejection.
abbrev pub serves : Op → ℕ
serves rejecting = 1
serves answering_health = 1
serves outgoing_starting = 1
serves resolving = 1
serves connecting = 1
serves handshaking = 1
serves sending = 1
serves receiving = 1
serves _ = 0

abbrev pub serving : List Op → ℕ
serving = total serves

-- Stopped, with nothing on the way to an answer but `more`, and with this history.
record IsQuiet (sent forwarded : List Bytes) (s : Session) (more : ℕ) : Type 0 where
  stopped : s.stopped ≡ true
  idle : serving s.pending + more ≡ 0
  same_sent : s.sent ≡ sent
  same_forwarded : s.forwarded ≡ forwarded

complete-IsQuiet :
    {sent forwarded : List Bytes} (op : Op) (k : Completion) (s : Session)
    → IsQuiet sent forwarded s (serves op)
    → IsQuiet sent forwarded (complete op k s) 0
unfolding complete
complete-IsQuiet starting k s h = unfold start_impl in ground arith
complete-IsQuiet stopping k s h = unfold run_stop in ground arith
complete-IsQuiet reading_header k s h =
    unfold on_header_read in ground (arith, total-cancelled serves s.pending (omega arith))
complete-IsQuiet timer_running k s h = ground arith
complete-IsQuiet (timer_handler ec) k s h = unfold on_timer in ground arith
complete-IsQuiet (timing_out ec) k s h = unfold on_header_timeout in ground arith
complete-IsQuiet rejecting k s h = unfold write_response in ground arith
complete-IsQuiet answering_health k s h = unfold write_response in ground arith
complete-IsQuiet (writing then_shutdown) k s h = unfold on_written in ground arith
complete-IsQuiet outgoing_starting k s h = unfold outgoing_start_impl in ground arith
complete-IsQuiet resolving k s h = unfold on_resolved in ground arith
complete-IsQuiet connecting k s h = unfold on_connected in ground arith
complete-IsQuiet handshaking k s h = unfold send_request in ground arith
complete-IsQuiet sending k s h = unfold on_sent in ground arith
complete-IsQuiet receiving k s h = unfold on_received in ground arith

Reach-IsQuiet :
    {sent forwarded : List Bytes} (s t : Session)
    → Reach s t
    → IsQuiet sent forwarded s 0
    → IsQuiet sent forwarded t 0
unfolding stop
Reach-IsQuiet {sent} {forwarded} =
    Reach-keeps (IsQuiet sent forwarded) serves
      (λ s before op after e h. record {
        stopped = h.stopped;
        idle = omega (arith, h.idle, total_remove serves s.pending before op after e);
        same_sent = h.same_sent;
        same_forwarded = h.same_forwarded;
      })
      complete-IsQuiet
      (λ s h. record {
        stopped = h.stopped;
        idle = omega (arith, h.idle);
        same_sent = h.same_sent;
        same_forwarded = h.same_forwarded;
      })

-- Once a session is stopped while no request of it is on the way to an answer, nothing more is handed
-- to its client or to the upstream, whatever completes later: a header that arrives late included.
pub stopped_serves_nothing :
    (s t : Session)
    → s.stopped ≡ true
    → serving s.pending ≡ 0
    → Reach s t
    → (t.stopped ≡ true) × (t.sent ≡ s.sent) × (t.forwarded ≡ s.forwarded)
stopped_serves_nothing s t h idle r =
    let q =
      Reach-IsQuiet {sent = s.sent} {forwarded = s.forwarded} s t r
        (record { stopped = h; idle = omega arith; same_sent = refl; same_forwarded = refl }) in
    (q.stopped, q.same_sent, q.same_forwarded)

-- Nor does anything come on the way to an answer.
pub stopped_stays_idle :
    (s t : Session) → s.stopped ≡ true → serving s.pending ≡ 0 → Reach s t → serving t.pending ≡ 0
stopped_stays_idle s t h idle r =
    let q =
      Reach-IsQuiet {sent = s.sent} {forwarded = s.forwarded} s t r
        (record { stopped = h; idle = omega arith; same_sent = refl; same_forwarded = refl }) in
    omega (arith, q.idle)
