-- ===== src/Session/Race.antt =====
-- The race between the header's timer and its reader.
use market_bridge.Base.{ℕ, ◌≡◌, refl, Bool, true, false, List, [], ◌∷◌, none, Bytes, codes, equal}
use market_bridge.Http.Message.{empty_request}
use market_bridge.Http.Parse.{parse_request}
use market_bridge.Session.ErrorCode.{success}
use market_bridge.Session.Defs.{
  Op, starting, reading_header, timer_running, timer_handler, timing_out, answering_health, writing,
  Session, UpstreamInfo, construct,
}
use market_bridge.Session.Handlers.{
  start, start_impl, on_timer, on_header_timeout, on_header_read, write_response, health_response,
  timeout_response,
}
use market_bridge.Session.Steps.{Completion, complete, Step, completes, Reach, here, next}

abbrev pub succeeds : Bytes → Completion
succeeds raw = record { ec = success; bytes = raw; allowed = true; done = true }

abbrev pub at : ℕ → UpstreamInfo → Bool → Bytes → List Op → List Bytes → Session
at id info stopped response pending sent = record {
  id = id;
  stopped = stopped;
  socket_open = true;
  request = empty_request;
  response = response;
  upstream_info = info;
  default_verify_paths = true;
  verify = none;
  host_name = none;
  received = [];
  pending = pending;
  sent = sent;
  forwarded = [];
}

module _ (id : ℕ) (info : UpstreamInfo) (raw : Bytes) where
  pub begins :
      Step
        (start (construct id info))
        (at id info false [] (reading_header ∷ timer_running ∷ []) [])
  unfolding start construct complete start_impl
  begins = completes [] starting [] (succeeds []) refl refl

  -- The timer expires, and its handler is queued, before the reader resumes.
  expires :
      Step
        (at id info false [] (reading_header ∷ timer_running ∷ []) [])
        (at id info false [] (timer_handler success ∷ reading_header ∷ []) [])
  unfolding complete
  expires = completes (reading_header ∷ []) timer_running [] (succeeds []) refl refl

  reads :
      equal (parse_request raw).target (codes "/health") ≡ true
      → Step
          (at id info false [] (timer_handler success ∷ reading_header ∷ []) [])
          (at id info false [] (answering_health ∷ timer_handler success ∷ []) [])
  unfolding complete on_header_read
  reads h = completes (timer_handler success ∷ []) reading_header [] (succeeds raw) refl (rw h)

  answers : Step (at id info false [] (answering_health ∷ timer_handler success ∷ []) []) (
      at id info false health_response
        (writing false ∷ timer_handler success ∷ [])
        (health_response ∷ []))
  unfolding complete write_response
  answers = completes [] answering_health (timer_handler success ∷ []) (succeeds []) refl refl

  handles :
      Step
        (at id info false health_response
          (writing false ∷ timer_handler success ∷ [])
          (health_response ∷ []))
        (at id info false health_response
          (timing_out success ∷ writing false ∷ [])
          (health_response ∷ []))
  unfolding complete on_timer
  handles = completes (writing false ∷ []) (timer_handler success) [] (succeeds []) refl refl

  times_out :
      Step
        (at id info false health_response
          (timing_out success ∷ writing false ∷ [])
          (health_response ∷ []))
        (at id info true timeout_response
          (writing true ∷ writing false ∷ [])
          (health_response ∷ timeout_response ∷ []))
  unfolding complete on_header_timeout
  times_out = completes [] (timing_out success) (writing false ∷ []) (succeeds []) refl refl

  -- A timer that expires just before the header arrives is not cancelled: for every request for
  -- /health there is a run in which the client is handed the answer and then a 408 as well, and in which
  -- response_ holds the latter while the write of the answer, which reads response_, is outstanding.
  pub late_timeout :
      equal (parse_request raw).target (codes "/health") ≡ true
      → (t : Session) × Reach (start (construct id info)) t
        × (t.sent ≡ health_response ∷ timeout_response ∷ [])
        × (t.pending ≡ writing true ∷ writing false ∷ [])
        × (t.response ≡ timeout_response)
  late_timeout h = (
    at id info true timeout_response (writing true ∷ writing false ∷ [])
        (health_response ∷ timeout_response ∷ []),
    next (next (next (next (next (next here begins) expires) (reads h)) answers) handles) times_out,
    refl,
    refl,
    refl,
  )
