-- ===== src/Session/Answers.antt =====
-- What a session hands its client.
use market_bridge.Base.{
  ◌++◌, ap, append-nil, sym, subst, ◌∙◌, ℕ, ◌+◌, ◌≤◌, ◌≡◌, ◌⊎◌, refl, inl, inr, [], ◌∷◌, Bytes, All,
  All-append, All-map, arith, Bool, true, false, Bool-cases,
}
use market_bridge.Session.ErrorCode.{ErrorCode, success, eof, operation_aborted, failure, is_eof}
use market_bridge.Session.Defs.{
  Op, starting, stopping, reading_header, timer_running, timer_handler, timing_out, rejecting,
  answering_health, writing, outgoing_starting, resolving, connecting, handshaking, sending,
  receiving, Session, UpstreamInfo, construct,
}
use market_bridge.Session.Handlers.{
  start, stop, run_stop, start_impl, on_timer, on_header_timeout, on_header_read, write_response,
  on_written, disallow_response, health_response, timeout_response, outgoing_start_impl,
  on_resolved, on_connected, send_request, on_sent, on_received,
}
use market_bridge.Session.Weights.{total, total_remove, total-cancelled, Reach-keeps}
use market_bridge.Session.Steps.{Completion, complete, completes, stops, Reach, here, next}

-- The operations on the way to the end of the upstream's response.
abbrev path : Op → ℕ
path starting = 1
path reading_header = 1
path outgoing_starting = 1
path resolving = 1
path connecting = 1
path handshaking = 1
path sending = 1
path receiving = 1
path _ = 0

-- The answers that the program makes itself.
abbrev pub IsOwn : Bytes → Type 0
IsOwn text = (text ≡ timeout_response) ⊎ ((text ≡ disallow_response) ⊎ (text ≡ health_response))

abbrev pub IsAnswer : Bytes → Bytes → Type 0
IsAnswer received text = IsOwn text ⊎ (text ≡ received)

-- The upstream's response is handed on only as no operation that adds to it is outstanding.
record IsRelayed (s : Session) (more : ℕ) : Type 0 where
  single : total path s.pending + more ≤ 1
  origin : All IsOwn s.sent ⊎ ((total path s.pending + more ≡ 0) × All (IsAnswer s.received) s.sent)

-- A text is written to the client.
write-sent :
    (text : Bytes) (b : Bool) (s : Session) (P : Bytes → Type 0)
    → P text
    → All P s.sent
    → All P (write_response text b s).sent
unfolding write_response
write-sent text b s P own h = elim (Bool-cases s.socket_open) [
  | inl e ↦ rw e (All-append P s.sent (text ∷ []) h (own, tt))
  | inr e ↦ rw e h
]

write-pending :
    (text : Bytes) (b : Bool) (s : Session)
    → (total path (write_response text b s).pending ≡ total path s.pending)
      × ((write_response text b s).received ≡ s.received)
unfolding write_response
write-pending text b s = (omega arith, refl)

write-IsRelayed :
    (text : Bytes) (b : Bool) (s : Session)
    → IsOwn text
    → IsRelayed s 0
    → IsRelayed (write_response text b s) 0
write-IsRelayed text b s own h =
    let (n, r) = write-pending text b s in
    record {
      single = omega (arith, n, h.single);
      origin = elim h.origin [
        | inl o ↦ inl (write-sent text b s IsOwn own o)
        | inr (z, o) ↦ inr (omega (arith, n, z), rw r (write-sent text b s _ (inl own) o))
      ];
    }

-- The end of the response.
relay-IsRelayed : (s : Session) → IsRelayed s 1 → IsRelayed (write_response s.received true s) 0
relay-IsRelayed s h =
    let (n, r) = write-pending s.received true s in
    record {
      single = omega (arith, n, h.single);
      origin = elim h.origin [
        | inl o ↦ inr (
          omega (arith, n, h.single),
          rw r (
              write-sent s.received true s (IsAnswer s.received) (inr refl)
                (All-map IsOwn (IsAnswer s.received) (λ x o. inl o) s.sent o)),
        )
        | inr (z, o) ↦ absurd (omega (arith, z))
      ];
    }

receive-IsRelayed :
    (k : Completion) (s : Session) → IsRelayed s 1 → IsRelayed (on_received k.ec k.bytes s) 0
unfolding on_received
receive-IsRelayed k s h = elim (Bool-cases (is_eof k.ec)) [
  | inl e ↦ rw e (relay-IsRelayed s h)
  | inr e ↦ rw e (ground arith)
]

complete-IsRelayed :
    (op : Op) (k : Completion) (s : Session) → IsRelayed s (path op) → IsRelayed (complete op k s) 0
unfolding complete
complete-IsRelayed starting k s h = unfold start_impl in ground arith
complete-IsRelayed stopping k s h = unfold run_stop in ground arith
complete-IsRelayed reading_header k s h =
    unfold on_header_read in ground (arith, total-cancelled path s.pending (omega arith))
complete-IsRelayed timer_running k s h = ground arith
complete-IsRelayed (timer_handler ec) k s h = unfold on_timer in ground arith
complete-IsRelayed (timing_out ec) k s h =
    unfold on_header_timeout in
    ground (arith, write-IsRelayed timeout_response true (record s { stopped = true }) (inl refl))
complete-IsRelayed rejecting k s h = write-IsRelayed disallow_response false s (inr (inl refl)) h
complete-IsRelayed answering_health k s h =
    write-IsRelayed health_response false s (inr (inr refl)) h
complete-IsRelayed (writing then_shutdown) k s h = unfold on_written in ground arith
complete-IsRelayed outgoing_starting k s h = unfold outgoing_start_impl in ground arith
complete-IsRelayed resolving k s h = unfold on_resolved in ground arith
complete-IsRelayed connecting k s h = unfold on_connected in ground arith
complete-IsRelayed handshaking k s h = unfold send_request in ground arith
complete-IsRelayed sending k s h = unfold on_sent in ground arith
complete-IsRelayed receiving k s h = receive-IsRelayed k s h

Reach-IsRelayed : (s t : Session) → Reach s t → IsRelayed s 0 → IsRelayed t 0
unfolding stop
Reach-IsRelayed =
    Reach-keeps IsRelayed path
      (λ s before op after e h. record {
        single = omega (arith, h.single, total_remove path s.pending before op after e);
        origin = ground (arith, h.origin, total_remove path s.pending before op after e);
      })
      complete-IsRelayed
      (λ s h. record { single = omega (arith, h.single); origin = ground (arith, h.origin) })

-- What the environment gives a session to read of the upstream's response as an operation completes: the
-- bytes of a read that ends without an error.
abbrev pub read_by : Op → ErrorCode → Bytes → Bytes
read_by receiving success bytes = bytes
read_by _ _ _ = []

-- The bytes of a run's reads, in the order in which the reads complete.
abbrev pub bytes_read : {s t : Session} → Reach s t → Bytes
bytes_read here = []
bytes_read (next r (completes before op after k e q)) = bytes_read r ++ read_by op k.ec k.bytes
bytes_read (next r (stops q)) = bytes_read r

receive-received :
    (ec : ErrorCode) (bytes : Bytes) (s : Session)
    → (on_received ec bytes s).received ≡ s.received ++ read_by receiving ec bytes
unfolding on_received
receive-received success bytes s = refl
receive-received eof bytes s = sym (append-nil s.received)
receive-received operation_aborted bytes s = sym (append-nil s.received)
receive-received (failure n) bytes s = sym (append-nil s.received)

-- No other operation touches what was received.
complete-received :
    (op : Op) (k : Completion) (s : Session)
    → (complete op k s).received ≡ s.received ++ read_by op k.ec k.bytes
unfolding complete
complete-received starting k s = unfold start_impl in ground (arith, append-nil s.received)
complete-received stopping k s = unfold run_stop in ground (arith, append-nil s.received)
complete-received reading_header k s =
    unfold on_header_read in ground (arith, append-nil s.received)
complete-received timer_running k s = ground (arith, append-nil s.received)
complete-received (timer_handler ec) k s = unfold on_timer in ground (arith, append-nil s.received)
complete-received (timing_out ec) k s =
    unfold on_header_timeout in ground (arith, append-nil s.received)
complete-received rejecting k s = unfold write_response in ground (arith, append-nil s.received)
complete-received answering_health k s =
    unfold write_response in ground (arith, append-nil s.received)
complete-received (writing then_shutdown) k s =
    unfold on_written in ground (arith, append-nil s.received)
complete-received outgoing_starting k s =
    unfold outgoing_start_impl in ground (arith, append-nil s.received)
complete-received resolving k s = unfold on_resolved in ground (arith, append-nil s.received)
complete-received connecting k s = unfold on_connected in ground (arith, append-nil s.received)
complete-received handshaking k s = unfold send_request in ground (arith, append-nil s.received)
complete-received sending k s = unfold on_sent in ground (arith, append-nil s.received)
complete-received receiving k s = receive-received k.ec k.bytes s

-- A session keeps all that it reads, in order.
Reach-received : {s t : Session} (r : Reach s t) → s.received ≡ [] → t.received ≡ bytes_read r
unfolding stop
Reach-received here h = h
Reach-received (next {t} r (completes before op after k e q)) h =
    ap (λ (x : Session). x.received) q
    ∙ complete-received op k (record t { pending = before ++ after })
    ∙ ap (λ s. s ++ read_by op k.ec k.bytes) (Reach-received r h)
Reach-received (next {t} r (stops q)) h = ap (λ (x : Session). x.received) q ∙ Reach-received r h

received-IsAnswer :
    (id : ℕ) (info : UpstreamInfo) (t : Session)
    → Reach (start (construct id info)) t
    → All (IsAnswer t.received) t.sent
unfolding start construct
received-IsAnswer id info t r =
    let h =
      Reach-IsRelayed (start (construct id info)) t r
        (record { single = omega arith; origin = inl tt }) in
    elim h.origin [
      | inl o ↦ All-map IsOwn (IsAnswer t.received) (λ x o. inl o) t.sent o
      | inr (z, o) ↦ o
    ]

-- Responses come back without modification: in every run of a session, however its operations complete
-- and whenever the server stops it, each text that it hands its client is either one of the program's
-- three own answers, 408, 429 and the one to /health, or exactly the bytes of all the run's reads of
-- the upstream's response, in order.
pub sent-IsAnswer :
    (id : ℕ) (info : UpstreamInfo) (t : Session) (r : Reach (start (construct id info)) t)
    → All (IsAnswer (bytes_read r)) t.sent
unfolding start construct
sent-IsAnswer id info t r =
    subst (λ s. All (IsAnswer s) t.sent) (Reach-received r refl) (received-IsAnswer id info t r)
