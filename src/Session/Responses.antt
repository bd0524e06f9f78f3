-- ===== src/Session/Responses.antt =====
-- How many responses a session hands to its client.
use market_bridge.Base.{ℕ, ◌+◌, ◌≤◌, [], ◌∷◌, length, length-append, arith, if◌then◌else◌}
use market_bridge.Session.Defs.{
  Op, starting, stopping, reading_header, timer_running, timer_handler, timing_out, rejecting,
  answering_health, writing, outgoing_starting, resolving, connecting, handshaking, sending,
  receiving, Session, UpstreamInfo, construct,
}
use market_bridge.Session.Handlers.{
  start, stop, run_stop, start_impl, on_timer, on_header_timeout, on_header_read, write_response,
  on_written, disallow_response, health_response, timeout_response, outgoing_start_impl,
  on_resolved, on_connected, send_request, on_sent, on_received,
}
use market_bridge.Session.Weights.{total, total_remove, total-cancelled, Reach-keeps}
use market_bridge.Session.Steps.{Completion, complete, Reach}

-- The operations on the way to the one answer to a request.
abbrev pub answers : Op → ℕ
answers starting = 1
answers reading_header = 1
answers rejecting = 1
answers answering_health = 1
answers outgoing_starting = 1
answers resolving = 1
answers connecting = 1
answers handshaking = 1
answers sending = 1
answers receiving = 1
answers _ = 0

-- One response, and one more for a session that is stopped.
abbrev pub IsFrugal : Session → ℕ → Type 0
IsFrugal s more = length s.sent + total answers s.pending + more ≤ 1 + (if s.stopped then 1 else 0)

complete-IsFrugal :
    (op : Op) (k : Completion) (s : Session)
    → IsFrugal s (answers op)
    → IsFrugal (complete op k s) 0
unfolding complete
complete-IsFrugal starting k s h = unfold start_impl in ground arith
complete-IsFrugal stopping k s h = unfold run_stop in ground arith
complete-IsFrugal reading_header k s h =
    unfold on_header_read in ground (arith, total-cancelled answers s.pending (omega arith))
complete-IsFrugal timer_running k s h = ground arith
complete-IsFrugal (timer_handler ec) k s h = unfold on_timer in ground arith
complete-IsFrugal (timing_out ec) k s h =
    unfold on_header_timeout in ground (arith, length-append s.sent (timeout_response ∷ []))
complete-IsFrugal rejecting k s h =
    unfold write_response in ground (arith, length-append s.sent (disallow_response ∷ []))
complete-IsFrugal answering_health k s h =
    unfold write_response in ground (arith, length-append s.sent (health_response ∷ []))
complete-IsFrugal (writing then_shutdown) k s h = unfold on_written in ground arith
complete-IsFrugal outgoing_starting k s h = unfold outgoing_start_impl in ground arith
complete-IsFrugal resolving k s h = unfold on_resolved in ground arith
complete-IsFrugal connecting k s h = unfold on_connected in ground arith
complete-IsFrugal handshaking k s h = unfold send_request in ground arith
complete-IsFrugal sending k s h = unfold on_sent in ground arith
complete-IsFrugal receiving k s h =
    unfold on_received in ground (arith, length-append s.sent (s.received ∷ []))

Reach-IsFrugal : (s t : Session) → Reach s t → IsFrugal s 0 → IsFrugal t 0
unfolding stop
Reach-IsFrugal =
    Reach-keeps IsFrugal answers
      (λ s before op after e h. omega (arith, h, total_remove answers s.pending before op after e))
      complete-IsFrugal (λ s h. omega (arith, h))

-- However the operations of a started session complete and whenever the server stops it, it hands its
-- client at most one response while it is not stopped, and at most two in all.
pub at_most_one_response :
    (id : ℕ) (info : UpstreamInfo) (t : Session)
    → Reach (start (construct id info)) t
    → length t.sent ≤ 1 + (if t.stopped then 1 else 0)
unfolding start construct
at_most_one_response id info t r =
    omega (arith, Reach-IsFrugal (start (construct id info)) t r (omega arith))
