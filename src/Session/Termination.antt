-- ===== src/Session/Termination.antt =====
-- How long a session can run.
use market_bridge.Base.{ℕ, ◌+◌, ◌*◌, ◌≤◌, Bool, false, ◌++◌, arith, if◌then◌else◌}
use market_bridge.Session.ErrorCode.{check_ec}
use market_bridge.Session.Defs.{
  Op, starting, stopping, reading_header, timer_running, timer_handler, timing_out, rejecting,
  answering_health, writing, outgoing_starting, resolving, connecting, handshaking, sending,
  receiving, Session, UpstreamInfo, construct,
}
use market_bridge.Session.Handlers.{
  start, stop, run_stop, start_impl, on_timer, on_header_timeout, on_header_read, write_response,
  on_written, outgoing_start_impl, on_resolved, on_connected, send_request, on_sent, on_received,
}
use market_bridge.Session.Weights.{total, total_remove, total-cancelled}
use market_bridge.Session.Steps.{Completion, complete, Step, completes, stops, Reach, here, next}

-- The number of completions that an operation can lead to, its own included.
abbrev pub rank : Op → ℕ
rank starting = 13
rank reading_header = 8
rank outgoing_starting = 7
rank resolving = 6
rank connecting = 5
rank handshaking = 4
rank sending = 3
rank receiving = 2
rank rejecting = 2
rank answering_health = 2
rank timer_running = 4
rank (timer_handler ec) = 3
rank (timing_out ec) = 2
rank stopping = 1
rank (writing then_shutdown) = 1

-- A read of the upstream's response that brings bytes, after which another follows.
abbrev pub is_read : Op → Completion → Bool
is_read receiving k = check_ec k.ec
is_read _ k = false

-- The completions and calls of stop of a run, its reads, and its calls of stop.
abbrev pub steps : {s t : Session} → Reach s t → ℕ
steps here = 0
steps (next r st) = steps r + 1

abbrev pub read_step : {s t : Session} → Step s t → ℕ
read_step (completes before op after k e q) = if is_read op k then 1 else 0
read_step (stops q) = 0

abbrev pub reads : {s t : Session} → Reach s t → ℕ
reads here = 0
reads (next r st) = reads r + read_step st

abbrev pub stop_step : {s t : Session} → Step s t → ℕ
stop_step (completes before op after k e q) = 0
stop_step (stops q) = 1

abbrev pub stop_calls : {s t : Session} → Reach s t → ℕ
stop_calls here = 0
stop_calls (next r st) = stop_calls r + stop_step st

abbrev pub Descends : Op → Completion → Session → Type 0
Descends op k s =
    total rank (complete op k s).pending + 1
    ≤ total rank s.pending + rank op + (if is_read op k then 1 else 0)

pub complete-Descends : (op : Op) (k : Completion) (s : Session) → Descends op k s
unfolding complete
complete-Descends starting k s = unfold start_impl in ground arith
complete-Descends stopping k s = unfold run_stop in ground arith
complete-Descends reading_header k s =
    unfold on_header_read in ground (arith, total-cancelled rank s.pending (omega arith))
complete-Descends timer_running k s = ground arith
complete-Descends (timer_handler ec) k s = unfold on_timer in ground arith
complete-Descends (timing_out ec) k s = unfold on_header_timeout in ground arith
complete-Descends rejecting k s = unfold write_response in ground arith
complete-Descends answering_health k s = unfold write_response in ground arith
complete-Descends (writing then_shutdown) k s = unfold on_written in ground arith
complete-Descends outgoing_starting k s = unfold outgoing_start_impl in ground arith
complete-Descends resolving k s = unfold on_resolved in ground arith
complete-Descends connecting k s = unfold on_connected in ground arith
complete-Descends handshaking k s = unfold send_request in ground arith
complete-Descends sending k s = unfold on_sent in ground arith
complete-Descends receiving k s = unfold on_received in ground arith

Step-Descends :
    (s t : Session) (st : Step s t)
    → total rank t.pending + 1 ≤ total rank s.pending + read_step st + 2 * stop_step st
unfolding stop
Step-Descends s t (completes before op after k e q) = rw q (
    omega (
      arith,
      complete-Descends op k (record s { pending = before ++ after }),
      total_remove rank s.pending before op after e,
    ))
Step-Descends s t (stops q) = rw q (omega arith)

Reach-Descends :
    (s t : Session) (r : Reach s t)
    → total rank t.pending + steps r ≤ total rank s.pending + reads r + 2 * stop_calls r
Reach-Descends s t here = omega arith
Reach-Descends s u (next {t} r st) = omega (arith, Reach-Descends s t r, Step-Descends t u st)

-- Every session comes to its end: in whatever order its operations complete, a run of a started session
-- takes at most thirteen steps, one more for each read that brings bytes of the upstream's response and
-- two for each call of stop; and what is still outstanding counts against this with what it can lead to.
pub session_terminates :
    (id : ℕ) (info : UpstreamInfo) (t : Session) (r : Reach (start (construct id info)) t)
    → steps r + total rank t.pending ≤ 13 + reads r + 2 * stop_calls r
unfolding start construct
session_terminates id info t r = omega (arith, Reach-Descends (start (construct id info)) t r)
