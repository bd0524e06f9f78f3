-- ===== src/Session/Origin.antt =====
-- Where the requests to the upstream come from.
use market_bridge.Base.{
  ℕ, ◌≡◌, ◌⊎◌, inl, inr, refl, sym, ap, subst, ◌∙◌, [], ◌∷◌, ◌++◌, Bytes, All, All-append, arith,
}
use market_bridge.Http.Message.{HttpRequest, generate_request}
use market_bridge.Http.Parse.{parse_request, getline}
use market_bridge.Session.Defs.{
  Op, starting, stopping, reading_header, timer_running, timer_handler, timing_out, rejecting,
  answering_health, writing, outgoing_starting, resolving, connecting, handshaking, sending,
  receiving, Session, UpstreamInfo, construct,
}
use market_bridge.Session.Handlers.{
  start, stop, run_stop, start_impl, on_timer, on_header_timeout, on_header_read, write_response,
  on_written, outgoing_start_impl, on_resolved, on_connected, send_request, on_sent, on_received,
}
use market_bridge.Session.Steps.{Completion, complete, Reach}
use market_bridge.Session.Weights.{Reach-keeps}

-- The request of a session is one that was read, of no bytes at first; and so is each that was sent
-- upstream.
abbrev pub IsRead : HttpRequest → Type 0
IsRead request = (raw : Bytes) × (request ≡ parse_request raw)

abbrev pub IsGenerated : Bytes → Bytes → Type 0
IsGenerated host text = (raw : Bytes) × (text ≡ generate_request (parse_request raw) host)

record IsFaithful (info : UpstreamInfo) (s : Session) : Type 0 where
  same : s.upstream_info ≡ info
  read : IsRead s.request
  generated : All (IsGenerated info.host) s.forwarded

-- A session that agrees with another in what it has read and sent.
IsFaithful-same :
    {info : UpstreamInfo} (s t : Session)
    → t.upstream_info ≡ s.upstream_info
    → t.request ≡ s.request
    → t.forwarded ≡ s.forwarded
    → IsFaithful info s
    → IsFaithful info t
IsFaithful-same {info} s t i r f h = record {
  same = i ∙ h.same;
  read = (h.read.0, r ∙ h.read.1);
  generated = subst (All (IsGenerated info.host)) (sym f) h.generated;
}

-- The header's handler keeps the request or takes in the one that it has read.
read-request :
    (k : Completion) (s : Session)
    → ((complete reading_header k s).request ≡ s.request)
      ⊎ ((complete reading_header k s).request ≡ parse_request k.bytes)
unfolding complete on_header_read
read-request k s = ground arith

read-keeps :
    (k : Completion) (s : Session)
    → ((complete reading_header k s).upstream_info ≡ s.upstream_info)
      × ((complete reading_header k s).forwarded ≡ s.forwarded)
unfolding complete on_header_read
read-keeps k s = (ground arith, ground arith)

read-IsFaithful :
    {info : UpstreamInfo} (k : Completion) (s : Session)
    → IsFaithful info s
    → IsFaithful info (complete reading_header k s)
read-IsFaithful {info} k s h =
    let (i, f) = read-keeps k s in
    let generated = subst (All (IsGenerated info.host)) (sym f) h.generated in
    elim (read-request k s) [
      | inl r ↦ record { same = i ∙ h.same; read = (h.read.0, r ∙ h.read.1); generated = generated }
      | inr r ↦ record { same = i ∙ h.same; read = (k.bytes, r); generated = generated }
    ]

-- Only the request that was read is written to the upstream.
send-keeps :
    (k : Completion) (s : Session)
    → ((complete handshaking k s).upstream_info ≡ s.upstream_info)
      × ((complete handshaking k s).request ≡ s.request)
      × (((complete handshaking k s).forwarded ≡ s.forwarded)
          ⊎ ((complete handshaking k s).forwarded
              ≡ s.forwarded ++ generate_request s.request s.upstream_info.host ∷ []))
unfolding complete send_request
send-keeps k s = (ground arith, ground arith, ground arith)

send-IsFaithful :
    {info : UpstreamInfo} (k : Completion) (s : Session)
    → IsFaithful info s
    → IsFaithful info (complete handshaking k s)
send-IsFaithful {info} k s h =
    let (i, r, f) = send-keeps k s in
    let (raw, read) = h.read in
    let text : generate_request s.request s.upstream_info.host
        ≡ generate_request (parse_request raw) info.host =
      ap (λ (q : HttpRequest). generate_request q s.upstream_info.host) read
      ∙ ap (λ (u : UpstreamInfo). generate_request (parse_request raw) u.host) h.same in
    record {
      same = i ∙ h.same;
      read = (raw, r ∙ read);
      generated = elim f [
        | inl e ↦ subst (All (IsGenerated info.host)) (sym e) h.generated
        | inr e ↦
            subst (All (IsGenerated info.host)) (sym e)
              (All-append (IsGenerated info.host) s.forwarded _ h.generated ((raw, text), tt))
      ];
    }

-- No other operation touches the request or what was forwarded.
abbrev Keeps : Op → Completion → Session → Type 0
Keeps op k s =
    ((complete op k s).upstream_info ≡ s.upstream_info)
    × ((complete op k s).request ≡ s.request)
    × ((complete op k s).forwarded ≡ s.forwarded)

Keeps-IsFaithful :
    {info : UpstreamInfo} (op : Op) (k : Completion) (s : Session)
    → Keeps op k s
    → IsFaithful info s
    → IsFaithful info (complete op k s)
Keeps-IsFaithful op k s (i, r, f) h = IsFaithful-same s (complete op k s) i r f h

complete-IsFaithful :
    {info : UpstreamInfo} (op : Op) (k : Completion) (s : Session)
    → IsFaithful info s
    → IsFaithful info (complete op k s)
unfolding complete
complete-IsFaithful reading_header k s h = read-IsFaithful k s h
complete-IsFaithful handshaking k s h = send-IsFaithful k s h
complete-IsFaithful starting k s h =
    Keeps-IsFaithful starting k s (unfold start_impl in ground arith) h
complete-IsFaithful stopping k s h =
    Keeps-IsFaithful stopping k s (unfold run_stop in ground arith) h
complete-IsFaithful timer_running k s h = Keeps-IsFaithful timer_running k s (ground arith) h
complete-IsFaithful (timer_handler ec) k s h =
    Keeps-IsFaithful (timer_handler ec) k s (unfold on_timer in ground arith) h
complete-IsFaithful (timing_out ec) k s h =
    Keeps-IsFaithful (timing_out ec) k s (unfold on_header_timeout in ground arith) h
complete-IsFaithful rejecting k s h =
    Keeps-IsFaithful rejecting k s (unfold write_response in ground arith) h
complete-IsFaithful answering_health k s h =
    Keeps-IsFaithful answering_health k s (unfold write_response in ground arith) h
complete-IsFaithful (writing then_shutdown) k s h =
    Keeps-IsFaithful (writing then_shutdown) k s (unfold on_written in ground arith) h
complete-IsFaithful outgoing_starting k s h =
    Keeps-IsFaithful outgoing_starting k s (unfold outgoing_start_impl in ground arith) h
complete-IsFaithful resolving k s h =
    Keeps-IsFaithful resolving k s (unfold on_resolved in ground arith) h
complete-IsFaithful connecting k s h =
    Keeps-IsFaithful connecting k s (unfold on_connected in ground arith) h
complete-IsFaithful sending k s h = Keeps-IsFaithful sending k s (unfold on_sent in ground arith) h
complete-IsFaithful receiving k s h =
    Keeps-IsFaithful receiving k s (unfold on_received in ground arith) h

Reach-IsFaithful :
    {info : UpstreamInfo} (s t : Session) → Reach s t → IsFaithful info s → IsFaithful info t
unfolding stop
Reach-IsFaithful {info} =
    Reach-keeps (λ s n. IsFaithful info s) (λ op. 0)
      (λ s before op after e h. record { same = h.same; read = h.read; generated = h.generated })
      complete-IsFaithful (λ s h. record { same = h.same; read = h.read; generated = h.generated })

-- Whatever completes in whatever order, each text that a started session writes to the upstream is the
-- one that generate_request makes, for the configured host, of a request that parse_request has read.
pub forwarded-IsGenerated :
    (id : ℕ) (info : UpstreamInfo) (t : Session)
    → Reach (start (construct id info)) t
    → All (IsGenerated info.host) t.forwarded
unfolding start construct parse_request getline
forwarded-IsGenerated id info t r =
    (Reach-IsFaithful (start (construct id info)) t r
      (record { same = refl; read = ([], refl); generated = tt })).generated
