-- ===== src/System/Halt.antt =====
-- The end of the system's work, behind a shutdown.
use market_bridge.Base.{
  ℕ, ◌≡◌, refl, ap, sym, ◌∙◌, Bool, true, List, [], ◌∷◌, ◌++◌, Bytes, All, All-replace, All-split,
  if◌then◌else◌, arith, subst, inl, inr, Bool-cases,
}
use market_bridge.Session.Defs.{Op, UpstreamInfo, Session}
use market_bridge.Session.Handlers.{stop}
use market_bridge.Session.Steps.{Completion, complete}
use market_bridge.Session.Steps
use market_bridge.Session.Stopped.{serving, stopped_serves_nothing, stopped_stays_idle}
use market_bridge.Server.Registry.{register_session}
use market_bridge.Server.Tls.{ssl_handshake_step}
use market_bridge.Server.Intake.{
  Intake, Started, http_session, https_session, handshake_session, begin_session, begin_handshake,
}
use market_bridge.TokenBucket.Floats.{Double}
use market_bridge.System.{
  asks_limiter, System, launch, advance, Step, launches, handshakes, advances, flags, stops, Reach,
  here, next,
}
use market_bridge.System.Sessions.{advance-sessions}

-- Stopped, with no request on the way to an answer.
pub record IsIdle (x : Session) : Type 0 where
  pub stopped : x.stopped ≡ true
  pub idle : serving x.pending ≡ 0

-- What a session has handed to its client and to the upstream.
abbrev pub history : Session → List Bytes × List Bytes
history x = (x.sent, x.forwarded)

abbrev pub histories : List Session → List (List Bytes × List Bytes)
histories [] = []
histories (x ∷ xs) = history x ∷ histories xs

histories_replace :
    (all before : List Session) (x y : Session) (after : List Session)
    → all ≡ before ++ x ∷ after
    → history y ≡ history x
    → histories (before ++ y ∷ after) ≡ histories all
histories_replace all before x y after e h = go before ∙ ap histories (sym e)
  where
    go : (xs : List Session) → histories (xs ++ y ∷ after) ≡ histories (xs ++ x ∷ after)
    go [] = ap (λ z. z ∷ histories after) h
    go (z ∷ zs) = ap (◌∷◌ (history z)) (go zs)

step-history : (x y : Session) → IsIdle x → Steps.Step x y → history y ≡ history x
step-history x y h st =
    let (_, a, b) = stopped_serves_nothing x y h.stopped h.idle (Steps.next Steps.here st) in
    (λ i. (a i, b i))

step-IsIdle : (x y : Session) → IsIdle x → Steps.Step x y → IsIdle y
step-IsIdle x y h st =
    let r = Steps.next Steps.here st in
    record {
      stopped = (stopped_serves_nothing x y h.stopped h.idle r).0;
      idle = stopped_stays_idle x y h.stopped h.idle r;
    }

pub begin_session-flag :
    (kind : ℕ → Started) (s : Intake)
    → (begin_session kind s).registry.shutdown_pending ≡ s.registry.shutdown_pending
unfolding begin_session register_session
begin_session-flag kind s = ground arith

pub begin_handshake-flag :
    (initialized : Bool) (s : Intake)
    → (begin_handshake initialized s).registry.shutdown_pending ≡ s.registry.shutdown_pending
unfolding begin_handshake ssl_handshake_step
begin_handshake-flag initialized s = ground (
  arith,
  begin_session-flag handshake_session
      (record s { tls = (ssl_handshake_step initialized s.tls).0 }),
)

module _ (D : Double) (info : UpstreamInfo) where
  pub advance-flag :
      (now : ℕ) (before after : List Session) (op : Op) (k : Completion) (x : Session)
      (s : System D)
      → (advance D now before op k x after s).intake ≡ s.intake
  unfolding advance
  advance-flag now before after op k x s = elim (Bool-cases (asks_limiter op k x)) [
    | inl e ↦ rw e refl
    | inr e ↦ rw e refl
  ]

  -- With a shutdown pending no session is started.
  pub launch-sessions :
      (secure : Bool) (s : System D)
      → s.intake.registry.shutdown_pending ≡ true
      → (launch D info secure s).sessions ≡ s.sessions
  unfolding launch register_session
  launch-sessions secure s h = ground arith

  record IsHalted (past : List (List Bytes × List Bytes)) (s : System D) : Type 0 where
    flag : s.intake.registry.shutdown_pending ≡ true
    idle : All IsIdle s.sessions
    same : histories s.sessions ≡ past

  Step-IsHalted :
      (past : List (List Bytes × List Bytes)) (s t : System D)
      → Step D info s t
      → IsHalted past s
      → IsHalted past t
  unfolding launch
  Step-IsHalted past s t (launches secure q) h =
      let kept = launch-sessions secure s h.flag in
      rw q (record {
        flag =
            begin_session-flag (if secure then https_session else http_session) s.intake ∙ h.flag;
        idle = subst (All IsIdle) (sym kept) h.idle;
        same = ap histories kept ∙ h.same;
      })
  Step-IsHalted past s t (handshakes initialized q) h = rw q (record {
    flag = begin_handshake-flag initialized s.intake ∙ h.flag;
    idle = h.idle;
    same = h.same;
  })
  Step-IsHalted past s t (advances now before after x first op rest k later e p q) h =
      let x' = record x { pending = first ++ rest } in
      let (b, a) = advance-sessions D info now before after op k x' s in
      let moved : Steps.Step x (complete op (record k { allowed = b }) x') =
        Steps.completes first op rest (record k { allowed = b }) p refl in
      let still = (All-split IsIdle before (x ∷ after) (subst (All IsIdle) e h.idle)).1.0 in
      rw q (record {
        flag =
            ap (λ (i : Intake). i.registry.shutdown_pending)
              (advance-flag now before after op k x' s)
            ∙ h.flag;
        idle = subst (All IsIdle) (sym a) (
            All-replace IsIdle s.sessions before x _ after e (λ i. step-IsIdle x _ i moved) h.idle);
        same =
            ap histories a
            ∙ histories_replace s.sessions before x _ after e (step-history x _ still moved)
            ∙ h.same;
      })
  Step-IsHalted past s t (flags q) h = rw q (record { flag = refl; idle = h.idle; same = h.same })
  Step-IsHalted past s t (stops before after x flag e q) h =
      let moved : Steps.Step x (stop x) = Steps.stops refl in
      let still = (All-split IsIdle before (x ∷ after) (subst (All IsIdle) e h.idle)).1.0 in
      rw q (record {
        flag = h.flag;
        idle =
            All-replace IsIdle s.sessions before x (stop x) after e
              (λ i. step-IsIdle x (stop x) i moved) h.idle;
        same =
            histories_replace s.sessions before x (stop x) after e (step-history x _ still moved)
            ∙ h.same;
      })

  Reach-IsHalted :
      (past : List (List Bytes × List Bytes)) (s t : System D)
      → Reach D info s t
      → IsHalted past s
      → IsHalted past t
  Reach-IsHalted past s t here h = h
  Reach-IsHalted past s u (next {t} r st) h =
      Step-IsHalted past t u st (Reach-IsHalted past s t r h)

  -- A shutdown is final: once it is flagged and every session is stopped with no request on the way to
  -- an answer, then whatever connects and whatever completes later, no session is started, and none
  -- hands anything more to its client or to the upstream.
  pub shutdown_final :
      (s t : System D)
      → s.intake.registry.shutdown_pending ≡ true
      → All IsIdle s.sessions
      → Reach D info s t
      → histories t.sessions ≡ histories s.sessions
  shutdown_final s t flag idle r =
      (Reach-IsHalted (histories s.sessions) s t r
        (record { flag = flag; idle = idle; same = refl })).same
