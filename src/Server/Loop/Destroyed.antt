-- ===== src/Server/Loop/Destroyed.antt =====
-- The race between a listener and close_acceptors.
use market_bridge.Base.{ℕ, ◌≡◌, refl, true, false, none}
use market_bridge.Config.{ServerRunningMode}
use market_bridge.Session.ErrorCode.{success}
use market_bridge.Server.Registry.{close_acceptors}
use market_bridge.Server.Loop.{
  calling, faulted, idle, queued, on_http, Loop, set_up, test_flag, begin_accept, on_signal, tests,
  calls, signalled, handles, closes, Reach, here, next,
}

-- In every mode and with any ports there is a run in which the HTTP listener uses an acceptor that is
-- destroyed: it has tested shutdown_pending_ on one thread, a signal arrives, schedule_shutdown destroys
-- the acceptors on another, and then the listener calls async_accept.
pub acceptor_used_destroyed :
    (mode : ServerRunningMode) (http_port https_port : ℕ)
    → (t : Loop) × Reach (set_up mode http_port https_port) t
      × (t.http ≡ faulted)
      × (t.acceptors.http ≡ none)
unfolding set_up test_flag on_signal close_acceptors begin_accept
acceptor_used_destroyed mode http_port https_port =
    let s0 = set_up mode http_port https_port in
    let s1 = record s0 { http = calling } in
    let s2 = record s1 { signals = queued success } in
    let s3 = record s2 { signals = idle; shutdown_pending = true; closing = true } in
    let s4 = record s3 { acceptors = close_acceptors s3.acceptors; closing = false } in
    let r1 : Reach s0 s1 = next here (tests on_http refl refl) in
    let r2 : Reach s0 s2 = next r1 (signalled refl refl) in
    let r3 : Reach s0 s3 = next r2 (handles success refl refl) in
    let r4 : Reach s0 s4 = next r3 (closes refl refl) in
    (record s4 { http = faulted }, next r4 (calls on_http refl refl), refl, refl)
