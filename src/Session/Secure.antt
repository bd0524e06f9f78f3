-- ===== src/Session/Secure.antt =====
-- How the stream to the upstream is secured.
use market_bridge.Base.{if◌then◌else◌, ℕ, ◌+◌, ◌≡◌, ◌≢◌, ◌⊎◌, refl, true, [], some, arith, inr}
use market_bridge.Session.Defs.{
  Op, starting, stopping, reading_header, timer_running, timer_handler, timing_out, rejecting,
  answering_health, writing, outgoing_starting, resolving, connecting, handshaking, sending,
  receiving, Session, UpstreamInfo, construct, VerifyMode, verify_none, verify_peer,
}
use market_bridge.Session.Handlers.{
  start, stop, run_stop, start_impl, on_timer, on_header_timeout, on_header_read, write_response,
  on_written, outgoing_start_impl, on_resolved, on_connected, send_request, on_sent, on_received,
  verify_mode_of, c_str,
}
use market_bridge.Session.Weights.{total, total_remove, total-cancelled, Reach-keeps}
use market_bridge.Session.Steps.{Completion, complete, Reach}

-- The operations on the upstream stream.
abbrev uses : Op → ℕ
uses resolving = 1
uses connecting = 1
uses handshaking = 1
uses sending = 1
uses receiving = 1
uses _ = 0

-- What the configuration asks for: certificates are verified against the upstream's host name unless it
-- says to ignore them.
abbrev pub configured : UpstreamInfo → VerifyMode
configured info =
    if info.ignore_certificate_verification then verify_none else verify_peer info.host

-- Either the stream has the verification that the configuration asks for, or it is not in use.
record IsVerified (info : UpstreamInfo) (s : Session) (more : ℕ) : Type 0 where
  same : s.upstream_info ≡ info
  ready :
      ((s.verify ≡ some (configured info)) × (s.host_name ≡ some (c_str info.host)))
      ⊎ ((s.forwarded ≡ []) × (total uses s.pending + more ≡ 0))

complete-IsVerified :
    {info : UpstreamInfo} (op : Op) (k : Completion) (s : Session)
    → IsVerified info s (uses op)
    → IsVerified info (complete op k s) 0
unfolding complete
complete-IsVerified starting k s h = unfold start_impl in ground arith
complete-IsVerified stopping k s h = unfold run_stop in ground arith
complete-IsVerified reading_header k s h =
    unfold on_header_read in ground (arith, total-cancelled uses s.pending (omega arith))
complete-IsVerified timer_running k s h = ground arith
complete-IsVerified (timer_handler ec) k s h = unfold on_timer in ground arith
complete-IsVerified (timing_out ec) k s h = unfold on_header_timeout in ground arith
complete-IsVerified rejecting k s h = unfold write_response in ground arith
complete-IsVerified answering_health k s h = unfold write_response in ground arith
complete-IsVerified (writing then_shutdown) k s h = unfold on_written in ground arith
complete-IsVerified outgoing_starting k s h =
    unfold outgoing_start_impl in unfold verify_mode_of in ground arith
complete-IsVerified resolving k s h = unfold on_resolved in ground arith
complete-IsVerified connecting k s h = unfold on_connected in ground arith
complete-IsVerified handshaking k s h = unfold send_request in ground arith
complete-IsVerified sending k s h = unfold on_sent in ground arith
complete-IsVerified receiving k s h = unfold on_received in ground arith

Reach-IsVerified :
    {info : UpstreamInfo} (s t : Session) → Reach s t → IsVerified info s 0 → IsVerified info t 0
unfolding stop
Reach-IsVerified {info} =
    Reach-keeps (IsVerified info) uses
      (λ s before op after e h. record {
        same = h.same;
        ready = ground (arith, h.ready, total_remove uses s.pending before op after e);
      })
      complete-IsVerified (λ s h. record { same = h.same; ready = ground (arith, h.ready) })

-- The operations behind init_tls_context.
abbrev follows : Op → ℕ
follows reading_header = 1
follows outgoing_starting = 1
follows op = uses op

-- Either the system's certificates are there, or nothing that follows them is.
abbrev IsTrusted : Session → ℕ → Type 0
IsTrusted s more =
    (s.default_verify_paths ≡ true) ⊎ ((s.forwarded ≡ []) × (total follows s.pending + more ≡ 0))

complete-IsTrusted :
    (op : Op) (k : Completion) (s : Session)
    → IsTrusted s (follows op)
    → IsTrusted (complete op k s) 0
unfolding complete
complete-IsTrusted starting k s h = unfold start_impl in ground arith
complete-IsTrusted stopping k s h = unfold run_stop in ground arith
complete-IsTrusted reading_header k s h =
    unfold on_header_read in ground (arith, total-cancelled follows s.pending (omega arith))
complete-IsTrusted timer_running k s h = ground arith
complete-IsTrusted (timer_handler ec) k s h = unfold on_timer in ground arith
complete-IsTrusted (timing_out ec) k s h = unfold on_header_timeout in ground arith
complete-IsTrusted rejecting k s h = unfold write_response in ground arith
complete-IsTrusted answering_health k s h = unfold write_response in ground arith
complete-IsTrusted (writing then_shutdown) k s h = unfold on_written in ground arith
complete-IsTrusted outgoing_starting k s h = unfold outgoing_start_impl in ground arith
complete-IsTrusted resolving k s h = unfold on_resolved in ground arith
complete-IsTrusted connecting k s h = unfold on_connected in ground arith
complete-IsTrusted handshaking k s h = unfold send_request in ground arith
complete-IsTrusted sending k s h = unfold on_sent in ground arith
complete-IsTrusted receiving k s h = unfold on_received in ground arith

Reach-IsTrusted : (s t : Session) → Reach s t → IsTrusted s 0 → IsTrusted t 0
unfolding stop
Reach-IsTrusted =
    Reach-keeps IsTrusted follows
      (λ s before op after e h. ground (arith, h, total_remove follows s.pending before op after e))
      complete-IsTrusted (λ s h. ground (arith, h))

-- No request goes upstream over a stream that is not secured as configured: if a request was
-- forwarded, the system's certificates were loaded, the verification is set against the upstream's
-- host name, or off where the configuration ignores certificates, and the host name is sent to the
-- upstream as SNI, up to its first NUL.
pub forwarded_secured :
    (id : ℕ) (info : UpstreamInfo) (t : Session)
    → Reach (start (construct id info)) t
    → t.forwarded ≢ []
    → (t.default_verify_paths ≡ true)
      × (t.verify ≡ some (configured info))
      × (t.host_name ≡ some (c_str info.host))
unfolding start construct
forwarded_secured id info t r h =
    let s = start (construct id info) in
    let v =
      Reach-IsVerified {info = info} s t r (record { same = refl; ready = inr (refl, refl) }) in
    let c = Reach-IsTrusted s t r (inr (refl, refl)) in ground (arith, v.ready, c)
