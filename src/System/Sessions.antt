-- ===== src/System/Sessions.antt =====
-- Every session of the system runs as a session by itself.
use market_bridge.Base.{
  ℕ, ◌≡◌, refl, Bool, List, ◌∷◌, ◌++◌, All, All-append, All-replace, inl, inr, Bool-cases,
}
use market_bridge.Config.{ThrottlingConfig}
use market_bridge.Session.Defs.{Op, UpstreamInfo, Session, construct}
use market_bridge.Session.Handlers.{start, stop}
use market_bridge.Session.Steps.{Completion, complete}
use market_bridge.Session.Steps
use market_bridge.Server.Registry.{register_session}
use market_bridge.Server.Limiter.{allow_request}
use market_bridge.TokenBucket.Floats.{Double}
use market_bridge.System.{
  asks_limiter, System, boot, launch, advance, Step, launches, handshakes, advances, flags, stops,
  Reach, here, next,
}

-- What a session can have come to since it was started, whichever its identifier.
abbrev pub IsRun : UpstreamInfo → Session → Type 0
IsRun info x = (id : ℕ) × Steps.Reach (start (construct id info)) x

stop-IsRun : (info : UpstreamInfo) (x : Session) → IsRun info x → IsRun info (stop x)
stop-IsRun info x (id, r) = (id, Steps.next r (Steps.stops refl))

complete-IsRun :
    (info : UpstreamInfo) (first rest : List Op) (op : Op) (k : Completion) (x : Session)
    → x.pending ≡ first ++ op ∷ rest
    → IsRun info x
    → IsRun info (complete op k (record x { pending = first ++ rest }))
complete-IsRun info first rest op k x e (id, r) =
    (id, Steps.next r (Steps.completes first op rest k e refl))

module _ (D : Double) (info : UpstreamInfo) where
  pub advance-sessions :
      (now : ℕ) (before after : List Session) (op : Op) (k : Completion) (x : Session)
      (s : System D)
      → (b : Bool) × ((advance D now before op k x after s).sessions
          ≡ before ++ complete op (record k { allowed = b }) x ∷ after)
  unfolding advance
  advance-sessions now before after op k x s = elim (Bool-cases (asks_limiter op k x)) [
    | inl e ↦ ((allow_request D s.limiter now).1, rw e refl)
    | inr e ↦ (k.allowed, rw e refl)
  ]

  Step-AreRuns :
      (s t : System D) → Step D info s t → All (IsRun info) s.sessions → All (IsRun info) t.sessions
  unfolding launch
  Step-AreRuns s t (launches secure q) h =
      rw q (elim (Bool-cases (register_session s.intake.registry s.intake.counter).1) [
        | inl e ↦ rw e (All-append (IsRun info) s.sessions _ h ((s.intake.counter, Steps.here), tt))
        | inr e ↦ rw e h
      ])
  Step-AreRuns s t (handshakes initialized q) h = rw q h
  Step-AreRuns s t (advances now before after x first op rest k later e p q) h =
      let x' = record x { pending = first ++ rest } in
      let (b, a) = advance-sessions now before after op k x' s in
      rw (q, a)
        (All-replace (IsRun info) s.sessions before x _ after e
          (complete-IsRun info first rest op (record k { allowed = b }) x p) h)
  Step-AreRuns s t (flags q) h = rw q h
  Step-AreRuns s t (stops before after x flag e q) h =
      rw q (All-replace (IsRun info) s.sessions before x (stop x) after e (stop-IsRun info x) h)

  -- The system refines its sessions: whatever it does, each of its sessions has come to its state by a
  -- run of its own, so that what holds of every run of a session holds of every session of the system.
  pub sessions-IsRun :
      (throttling : ThrottlingConfig) (now : ℕ) (t : System D)
      → Reach D info (boot D throttling now) t
      → All (IsRun info) t.sessions
  unfolding boot
  sessions-IsRun throttling now t here = tt
  sessions-IsRun throttling now u (next {t} r st) =
      Step-AreRuns t u st (sessions-IsRun throttling now t r)
