-- ===== src/System/Ends.antt =====
-- How long the sessions of the system keep io_.run() busy behind a shutdown.
use market_bridge.Base.{
  ℕ, ◌+◌, ◌≤◌, ◌≡◌, ap, ◌∙◌, refl, Bool, true, List, [], ◌∷◌, ◌++◌, arith, if◌then◌else◌,
}
use market_bridge.Session.Defs.{Op, receiving, UpstreamInfo, Session}
use market_bridge.Session.Handlers.{stop}
use market_bridge.Session.Weights.{total, total_remove}
use market_bridge.Session.Steps.{Completion, complete}
use market_bridge.Session.Termination.{rank, is_read, complete-Descends}
use market_bridge.Server.Intake.{http_session, https_session}
use market_bridge.TokenBucket.Floats.{Double}
use market_bridge.System.{
  System, launch, advance, Step, launches, handshakes, advances, flags, stops, Reach, here, next,
}
use market_bridge.System.Sessions.{advance-sessions}
use market_bridge.System.Halt.{
  begin_session-flag, begin_handshake-flag, advance-flag, launch-sessions,
}

-- What the outstanding operations of all sessions can lead to.
abbrev pub ranks : List Session → ℕ
ranks [] = 0
ranks (x ∷ xs) = total rank x.pending + ranks xs

pub ranks-append : (xs ys : List Session) → ranks (xs ++ ys) ≡ ranks xs + ranks ys
ranks-append [] ys = omega arith
ranks-append (x ∷ xs) ys = omega (arith, ranks-append xs ys)

pub ranks_replace :
    (all before : List Session) (x y : Session) (after : List Session)
    → all ≡ before ++ x ∷ after
    → ranks (before ++ y ∷ after) + total rank x.pending ≡ ranks all + total rank y.pending
ranks_replace all before x y after e =
    omega (arith, ap ranks e, ranks-append before (x ∷ after), ranks-append before (y ∷ after))

is_read-allowed :
    (op : Op) (k : Completion) (b : Bool) → is_read op (record k { allowed = b }) ≡ is_read op k
is_read-allowed receiving k b = refl
is_read-allowed _ k b = refl

module _ (D : Double) (info : UpstreamInfo) where
  -- Whether a step completes an operation, brings bytes of an upstream's response, or calls stop.
  abbrev pub completion_step : {s t : System D} → Step D info s t → ℕ
  completion_step (advances now before after x first op rest k later e p q) = 1
  completion_step _ = 0

  abbrev pub read_step : {s t : System D} → Step D info s t → ℕ
  read_step (advances now before after x first op rest k later e p q) =
      if is_read op k then 1 else 0
  read_step _ = 0

  abbrev pub stop_step : {s t : System D} → Step D info s t → ℕ
  stop_step (stops before after x flag e q) = 1
  stop_step _ = 0

  abbrev pub completions : {s t : System D} → Reach D info s t → ℕ
  completions here = 0
  completions (next r st) = completions r + completion_step st

  abbrev pub reads : {s t : System D} → Reach D info s t → ℕ
  reads here = 0
  reads (next r st) = reads r + read_step st

  abbrev pub stop_calls : {s t : System D} → Reach D info s t → ℕ
  stop_calls here = 0
  stop_calls (next r st) = stop_calls r + stop_step st

  Step-flag :
      (s t : System D)
      → Step D info s t
      → s.intake.registry.shutdown_pending ≡ true
      → t.intake.registry.shutdown_pending ≡ true
  unfolding launch
  Step-flag s t (launches secure q) h =
      rw q (begin_session-flag (if secure then https_session else http_session) s.intake ∙ h)
  Step-flag s t (handshakes initialized q) h = rw q (begin_handshake-flag initialized s.intake ∙ h)
  Step-flag s t (advances now before after x first op rest k later e p q) h =
      rw (q, advance-flag D info now before after op k (record x { pending = first ++ rest }) s) h
  Step-flag s t (flags q) h = rw q refl
  Step-flag s t (stops before after x flag e q) h = rw q h

  -- One completion of one session.
  pub advance-ranks :
      (now : ℕ) (before after : List Session) (x : Session) (first : List Op) (op : Op)
      (rest : List Op) (k : Completion) (s : System D)
      → s.sessions ≡ before ++ x ∷ after
      → x.pending ≡ first ++ op ∷ rest
      → 1
          + ranks
              (advance D now before op k (record x { pending = first ++ rest }) after s).sessions
        ≤ ranks s.sessions + (if is_read op k then 1 else 0)
  advance-ranks now before after x first op rest k s e p =
      let x' = record x { pending = first ++ rest } in
      let (b, a) = advance-sessions D info now before after op k x' s in
      let k' = record k { allowed = b } in
      let descends : total rank (complete op k' x').pending + 1
          ≤ total rank x'.pending + rank op + (if is_read op k then 1 else 0) =
        rw (← is_read-allowed op k b) (complete-Descends op k' x') in
      rw a (
        omega (
          arith,
          descends,
          total_remove rank x.pending first op rest p,
          ranks_replace s.sessions before x (complete op k' x') after e,
        ))

  Step-ranks :
      (s t : System D) (st : Step D info s t)
      → s.intake.registry.shutdown_pending ≡ true
      → completion_step st + ranks t.sessions ≤ ranks s.sessions + read_step st + stop_step st
  unfolding stop
  Step-ranks s t (launches secure q) h = rw (q, launch-sessions D info secure s h) (omega arith)
  Step-ranks s t (handshakes initialized q) h = rw q (omega arith)
  Step-ranks s t (advances now before after x first op rest k later e p q) h =
      rw q (omega (arith, advance-ranks now before after x first op rest k s e p))
  Step-ranks s t (flags q) h = rw q (omega arith)
  Step-ranks s t (stops before after x flag e q) h =
      rw q (omega (arith, ranks_replace s.sessions before x (stop x) after e))

  Reach-flag :
      (s t : System D)
      → Reach D info s t
      → s.intake.registry.shutdown_pending ≡ true
      → t.intake.registry.shutdown_pending ≡ true
  Reach-flag s t here h = h
  Reach-flag s u (next {t} r st) h = Step-flag t u st (Reach-flag s t r h)

  -- A shutdown comes to its end: once it is flagged, whatever connects and in whatever order the
  -- sessions go on, the completions that are still to come are no more than what the operations
  -- outstanding at the flag can lead to (thirteen at most for a session that has just started), one for
  -- each read that brings bytes of an upstream's response, and one for each call of stop; and what is
  -- still outstanding counts against this.
  pub shutdown_ends :
      (s t : System D) (r : Reach D info s t)
      → s.intake.registry.shutdown_pending ≡ true
      → completions r + ranks t.sessions ≤ ranks s.sessions + reads r + stop_calls r
  shutdown_ends s t here h = omega arith
  shutdown_ends s u (next {t} r st) h =
      omega (arith, shutdown_ends s t r h, Step-ranks t u st (Reach-flag s t r h))
