-- ===== src/Session/Buffer.antt =====
-- response_, which an outstanding async_write to the client reads.
use market_bridge.Base.{
  ℕ, ◌+◌, ◌≤◌, ◌≡◌, ap, sym, ◌∙◌, false, List, [], ◌∷◌, ◌++◌, arith, if◌then◌else◌,
}
use market_bridge.Session.Defs.{
  Op, starting, stopping, reading_header, timer_running, timer_handler, timing_out, rejecting,
  answering_health, writing, outgoing_starting, resolving, connecting, handshaking, sending,
  receiving, Session, UpstreamInfo, construct,
}
use market_bridge.Session.Handlers.{
  start, stop, run_stop, start_impl, on_timer, on_header_timeout, on_header_read, write_response,
  on_written, outgoing_start_impl, on_resolved, on_connected, send_request, on_sent, on_received,
}
use market_bridge.Session.Steps.{Completion, complete, Step, completes, stops, Reach}
use market_bridge.Session.Weights.{total, total_remove, total-cancelled, Reach-keeps}
use market_bridge.Session.Responses.{answers}

abbrev pub writes : Op → ℕ
writes (writing then_shutdown) = 1
writes _ = 0

-- What is writing to the client, or on the way to it.
abbrev serves_client : Op → ℕ
serves_client op = answers op + writes op

total-writes-le : (ops : List Op) → total writes ops ≤ total serves_client ops
total-writes-le [] = omega arith
total-writes-le (op ∷ ops) = omega (arith, total-writes-le ops)

-- One write at a time, and one more for a session that is stopped.
abbrev IsAlone : Session → ℕ → Type 0
IsAlone s more = total serves_client s.pending + more ≤ 1 + (if s.stopped then 1 else 0)

complete-IsAlone :
    (op : Op) (k : Completion) (s : Session)
    → IsAlone s (serves_client op)
    → IsAlone (complete op k s) 0
unfolding complete
complete-IsAlone starting k s h = unfold start_impl in ground arith
complete-IsAlone stopping k s h = unfold run_stop in ground arith
complete-IsAlone reading_header k s h =
    unfold on_header_read in ground (arith, total-cancelled serves_client s.pending (omega arith))
complete-IsAlone timer_running k s h = ground arith
complete-IsAlone (timer_handler ec) k s h = unfold on_timer in ground arith
complete-IsAlone (timing_out ec) k s h = unfold on_header_timeout in ground arith
complete-IsAlone rejecting k s h = unfold write_response in ground arith
complete-IsAlone answering_health k s h = unfold write_response in ground arith
complete-IsAlone (writing then_shutdown) k s h = unfold on_written in ground arith
complete-IsAlone outgoing_starting k s h = unfold outgoing_start_impl in ground arith
complete-IsAlone resolving k s h = unfold on_resolved in ground arith
complete-IsAlone connecting k s h = unfold on_connected in ground arith
complete-IsAlone handshaking k s h = unfold send_request in ground arith
complete-IsAlone sending k s h = unfold on_sent in ground arith
complete-IsAlone receiving k s h = unfold on_received in ground arith

Reach-IsAlone : (s t : Session) → Reach s t → IsAlone s 0 → IsAlone t 0
unfolding stop
Reach-IsAlone =
    Reach-keeps IsAlone serves_client
      (λ s before op after e h.
        omega (arith, h, total_remove serves_client s.pending before op after e))
      complete-IsAlone (λ s h. omega (arith, h))

-- Beside an outstanding write an operation leaves response_ alone, unless it finds or makes the session
-- stopped.
complete-response :
    (op : Op) (k : Completion) (s : Session)
    → IsAlone s (serves_client op)
    → 1 ≤ total writes s.pending + writes op
    → (complete op k s).stopped ≡ false
    → ((complete op k s).response ≡ s.response) × (s.stopped ≡ false)
unfolding complete
complete-response starting k s h w f = unfold start_impl in ground arith
complete-response stopping k s h w f = unfold run_stop in ground arith
complete-response reading_header k s h w f = unfold on_header_read in ground arith
complete-response timer_running k s h w f = ground arith
complete-response (timer_handler ec) k s h w f = unfold on_timer in ground arith
complete-response (timing_out ec) k s h w f = unfold on_header_timeout in ground arith
complete-response rejecting k s h w f =
    unfold write_response in ground (arith, total-writes-le s.pending)
complete-response answering_health k s h w f =
    unfold write_response in ground (arith, total-writes-le s.pending)
complete-response (writing then_shutdown) k s h w f = unfold on_written in ground arith
complete-response outgoing_starting k s h w f = unfold outgoing_start_impl in ground arith
complete-response resolving k s h w f = unfold on_resolved in ground arith
complete-response connecting k s h w f = unfold on_connected in ground arith
complete-response handshaking k s h w f = unfold send_request in ground arith
complete-response sending k s h w f = unfold on_sent in ground arith
complete-response receiving k s h w f =
    unfold on_received in ground (arith, total-writes-le s.pending)

-- As long as a session is not stopped it has at most one write to its client outstanding, and the text
-- that this write reads, response_, stays as it is until the write has ended, whatever else completes.
pub response_stable :
    (id : ℕ) (info : UpstreamInfo) (s t : Session)
    → Reach (start (construct id info)) s
    → Step s t
    → t.stopped ≡ false
    → 1 ≤ total writes s.pending
    → (total writes s.pending ≡ 1) × (t.response ≡ s.response)
unfolding start construct stop
response_stable id info s t r (stops q) f w =
    let alone = Reach-IsAlone (start (construct id info)) s r (omega arith) in
    (ground (arith, alone, total-writes-le s.pending, q, f), ap (λ (x : Session). x.response) q)
response_stable id info s t r (completes before op after k e q) f w =
    let s' = record s { pending = before ++ after } in
    let alone = Reach-IsAlone (start (construct id info)) s r (omega arith) in
    let (same, free) =
      complete-response op k s'
        (omega (arith, alone, total_remove serves_client s.pending before op after e))
        (omega (arith, w, total_remove writes s.pending before op after e))
        (ap (λ (x : Session). x.stopped) (sym q) ∙ f) in
    (
      ground (arith, alone, total-writes-le s.pending, free),
      ap (λ (x : Session). x.response) q ∙ same,
    )
