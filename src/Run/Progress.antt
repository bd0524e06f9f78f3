-- ===== src/Run/Progress.antt =====
-- As long as anything is outstanding, the server can go on.
use market_bridge.Base.{
  ℕ, zero, suc, ◌≡◌, ◌≢◌, ◌⊎◌, refl, ap, Bool, true, false, List, [], ◌∷◌, ◌++◌, some, length,
  arith, inl, inr, Bool-cases, Option-cases,
}
use market_bridge.Session.ErrorCode.{failure}
use market_bridge.Session.Defs.{Op, UpstreamInfo, Session}
use market_bridge.Session.Weights.{total}
use market_bridge.Session.Termination.{rank}
use market_bridge.Server.Loop
use market_bridge.Server.Loop.{
  Loop, tests, calls, accepts, leaves, signalled, handles, closes, awaiting,
}
use market_bridge.Server.Loop.Ends.{left, progress}
use market_bridge.Server.Handshake.{HandshakeSession}
use market_bridge.Server.Handshake.Backed.{count, outstanding}
use market_bridge.TokenBucket.Floats.{Double}
use market_bridge.System.Ends.{ranks}
use market_bridge.Run.{
  acceptors_closed, effect, Running, Step, loops, dispatches, finishes, advances, locks, stops,
  stops_handshake,
}
use market_bridge.Run.Feasible.{IsFeasible}

-- An operation of a session that can complete, and a handshake that can end.
record Waits (xs : List Session) : Type 0 where
  before : List Session
  session : Session
  after : List Session
  op : Op
  rest : List Op
  split : xs ≡ before ++ session ∷ after
  first : session.pending ≡ op ∷ rest

record Shaking (hs : List HandshakeSession) : Type 0 where
  before : List HandshakeSession
  session : HandshakeSession
  after : List HandshakeSession
  split : hs ≡ before ++ session ∷ after
  shaking : session.shaking ≡ true

sessions-progress : (xs : List Session) → (ranks xs ≡ 0) ⊎ Waits xs
sessions-progress [] = inl refl
sessions-progress (x ∷ xs) = go x.pending (sessions-progress xs) refl
  where
    go :
        (ops : List Op)
        → (ranks xs ≡ 0) ⊎ Waits xs
        → x.pending ≡ ops
        → (ranks (x ∷ xs) ≡ 0) ⊎ Waits (x ∷ xs)
    go (op ∷ ops) later e = inr (record {
      before = [];
      session = x;
      after = xs;
      op = op;
      rest = ops;
      split = refl;
      first = e;
    })
    go [] later e = elim later [
      | inl z ↦ inl (omega (arith, ap (total rank) e, z))
      | inr w ↦ inr (record {
        before = x ∷ w.before;
        session = w.session;
        after = w.after;
        op = w.op;
        rest = w.rest;
        split = ap (◌∷◌ x) w.split;
        first = w.first;
      })
    ]

handshakes-progress : (hs : List HandshakeSession) → (count outstanding hs ≡ 0) ⊎ Shaking hs
handshakes-progress [] = inl refl
handshakes-progress (h ∷ hs) = elim (Bool-cases h.shaking) [
  | inl e ↦ inr (record { before = []; session = h; after = hs; split = refl; shaking = e })
  | inr e ↦ elim (handshakes-progress hs) [
    | inl z ↦ inl (ground (arith, e, z))
    | inr w ↦ inr (record {
      before = h ∷ w.before;
      session = w.session;
      after = w.after;
      split = ap (◌∷◌ h) w.split;
      shaking = w.shaking;
    })
  ]
]

effect-closed : (s t : Loop) (st : Loop.Step s t) → effect st ≡ acceptors_closed → s.closing ≡ true
unfolding effect
effect-closed s t (tests p e q) c = cc
effect-closed s t (calls p e q) c = cc
effect-closed s t (accepts p ec e o q) c = ground (arith, c)
effect-closed s t (leaves p e q) c = cc
effect-closed s t (signalled e q) c = cc
effect-closed s t (handles ec e q) c = ground (arith, c)
effect-closed s t (closes e q) c = e

module _ (D : Double) where
  -- Nothing is outstanding: io_.run() returns.
  pub record Rests (s : Running D) : Type 0 where
    pub loop : left s.loop ≡ 0
    pub dispatched : s.dispatching ≡ 0
    pub shaken : count outstanding s.handshakes ≡ 0
    pub completed : ranks s.system.sessions ≡ 0

  module _ (info : UpstreamInfo) (allow_https : Bool) where
    abbrev pub GoesOn : Running D → Type 0
    GoesOn s = (t : Running D) × Step D info allow_https s t

    -- A shutdown under way calls stop on the next session, or closes the acceptors.
    closing-progress : (s : Running D) → s.loop.closing ≡ true → IsFeasible D s → GoesOn s
    closing-progress s closing h = elim (Option-cases s.stop_calls) [
      | inl e ↦ (_, locks 0 closing e (omega arith) refl)
      | inr (n, e) ↦ go n e s.system.sessions s.handshakes refl refl
    ]
      where
        go :
            (n : ℕ)
            → s.stop_calls ≡ some n
            → (xs : List Session) (hs : List HandshakeSession) → s.system.sessions ≡ xs
            → s.handshakes ≡ hs
            → GoesOn s
        go zero e xs hs p q = (_, loops _ (closes closing refl) false (λ c. e) refl)
        go (suc n) e (x ∷ xs) hs p q = (_, stops n [] xs x e p refl)
        go (suc n) e [] (k ∷ hs) p q = (_, stops_handshake n [] hs k e q refl)
        go (suc n) e [] [] p q = absurd (omega (arith, h (suc n) e, ap length p, ap length q))

    loop-progress :
        (s : Running D) → s.loop.signals ≢ awaiting → IsFeasible D s → (left s.loop ≡ 0) ⊎ GoesOn s
    loop-progress s quiet h = elim (Bool-cases s.loop.closing) [
      | inl c ↦ inr (closing-progress s c h)
      | inr c ↦ elim (progress s.loop quiet) [
        | inl z ↦ inl z
        | inr (l, st) ↦
            inr (_, loops l st false (λ e. absurd (cc (effect-closed s.loop l st e, c))) refl)
      ]
    ]

    dispatch-progress : (s : Running D) → (s.dispatching ≡ 0) ⊎ GoesOn s
    dispatch-progress s = go s.dispatching refl
      where
        go : (n : ℕ) → s.dispatching ≡ n → (s.dispatching ≡ 0) ⊎ GoesOn s
        go zero e = inl e
        go (suc n) e = inr (_, dispatches n (failure 0) 0 [] false e refl)

    -- Whatever clients and the upstream do, a step is possible as long as anything is outstanding.
    pub run_progress :
        (s : Running D) → s.loop.signals ≢ awaiting → IsFeasible D s → Rests s ⊎ GoesOn s
    run_progress s quiet h = elim (loop-progress s quiet h) [
      | inr u ↦ inr u
      | inl a ↦ elim (dispatch-progress s) [
        | inr u ↦ inr u
        | inl b ↦ elim (handshakes-progress s.handshakes) [
          | inr w ↦ inr (_, finishes w.before w.after w.session (failure 0) w.shaking w.split refl)
          | inl c ↦ elim (sessions-progress s.system.sessions) [
            | inr w ↦ inr (
              _,
              advances s.system.clock w.before w.after w.session [] w.op w.rest
                  (record { ec = failure 0; bytes = []; allowed = false; done = false })
                  (omega arith) w.split w.first refl,
            )
            | inl d ↦ inl (record { loop = a; dispatched = b; shaken = c; completed = d })
          ]
        ]
      ]
    ]
