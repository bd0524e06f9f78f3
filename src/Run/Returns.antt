-- ===== src/Run/Returns.antt =====
-- Server::run returns.
use market_bridge.Base.{ℕ, ◌+◌, ◌≤◌, ◌≡◌, ◌≢◌, ◌⊎◌, Bool, false, arith}
use market_bridge.Config.{ThrottlingConfig, ServerRunningMode}
use market_bridge.Session.Defs.{UpstreamInfo}
use market_bridge.Server.Loop
use market_bridge.Server.Loop.Ends.{Reach-left}
use market_bridge.Server.Loop.{awaiting, is_open, set_up}
use market_bridge.Server.Loop.Tidy.{IsShut, IsTidy, Reach-IsTidy, set_up-IsTidy}
use market_bridge.TokenBucket.Floats.{Double}
use market_bridge.Run.{Running, begin, Reach, here, next, Reach-trans}
use market_bridge.Run.Potential.{potential, read_step, Step-potential}
use market_bridge.Run.Feasible.{IsFeasible, Reach-IsFeasible}
use market_bridge.Run.Progress.{Rests, GoesOn, run_progress}
use market_bridge.Run.Refines.{Step-loop, run_refines}

module _ (D : Double) (info : UpstreamInfo) (allow_https : Bool) where
  -- The steps of a run, and its reads that bring bytes of an upstream's response.
  abbrev pub steps : {s t : Running D} → Reach D info allow_https s t → ℕ
  steps here = 0
  steps (next r st) = steps r + 1

  abbrev pub reads : {s t : Running D} → Reach D info allow_https s t → ℕ
  reads here = 0
  reads (next r st) = reads r + read_step D info allow_https st

  Reach-potential :
      (s t : Running D) (r : Reach D info allow_https s t)
      → IsShut s.loop
      → (steps r + potential D t ≤ potential D s + reads r) × IsShut t.loop
  Reach-potential s t here h = (omega arith, h)
  Reach-potential s u (next {t} r st) h =
      let (a, b) = Reach-potential s t r h in
      let moved = Step-loop D info allow_https t u t.loop st Loop.here in
      (
        omega (arith, a, Step-potential D info allow_https t u st b),
        (Reach-left t.loop u.loop moved b).1,
      )

  -- From its beginning on, once the HTTP acceptor is closed.
  module _ (mode : ServerRunningMode) (http_port https_port : ℕ) (throttling : ThrottlingConfig)
      (now : ℕ) where
    abbrev FromBegin : Running D → Type 0
    FromBegin = Reach D info allow_https (begin D mode http_port https_port throttling now)

    tidy : (s : Running D) → FromBegin s → IsTidy s.loop
    tidy s r =
        Reach-IsTidy _ s.loop
          (run_refines D info allow_https mode http_port https_port throttling now s r).0
          (set_up-IsTidy mode http_port https_port)

    shut : (s : Running D) → FromBegin s → is_open s.loop.acceptors.http ≡ false → IsShut s.loop
    shut s r h = record { http = h; https = (tidy s r).both h }

    feasible : (s : Running D) → FromBegin s → IsFeasible D s
    unfolding begin
    feasible s r = Reach-IsFeasible D info allow_https _ s r (λ n e. cc)

    -- The run of the whole server comes to its end. Once the HTTP acceptor is closed, behind the single
    -- request, on an error or by the shutdown that a signal schedules, the steps still to come, of
    -- listeners, signals, dispatches, handshakes, sessions and calls of stop together, are no more than
    -- what was outstanding then can lead to, and one for each read that brings bytes of an upstream's
    -- response; no signal is awaited any more; and as long as anything is outstanding a step is possible,
    -- which therefore is no signal from outside: one of the server's own, or the end, be it a failure,
    -- of what it waits for from a client or the upstream. With nothing
    -- outstanding io_.run() returns.
    pub run_returns :
        (s t : Running D)
        → FromBegin s
        → is_open s.loop.acceptors.http ≡ false
        → (r : Reach D info allow_https s t)
        → (steps r + potential D t ≤ potential D s + reads r)
          × (t.loop.signals ≢ awaiting)
          × (Rests D t ⊎ GoesOn D info allow_https t)
    run_returns s t before closed r =
        let all = Reach-trans D info allow_https before r in
        let (fewer, still) = Reach-potential s t r (shut s before closed) in
        let quiet = (tidy t all).quiet still.http in
        (fewer, quiet, run_progress D info allow_https t quiet (feasible t all))
