-- ===== src/Run/Consistent.antt =====
-- The two readers of shutdown_pending_ agree, and a shutdown goes through its phases in order.
use market_bridge.Base.{
  ℕ, suc, ◌≡◌, refl, ap, sym, ◌∙◌, Bool, true, false, not, ◌&&◌, ◌++◌, some, if◌then◌else◌, inl,
  inr, Bool-cases,
}
use market_bridge.Config.{ThrottlingConfig, ServerRunningMode}
use market_bridge.Session.ErrorCode.{ErrorCode, check_ec}
use market_bridge.Session.Defs.{UpstreamInfo}
use market_bridge.Server.Tls.{
  Dispatch, launch_http_session, ssl_handshake, drop_connection, dispatch_http_request,
}
use market_bridge.Server.Registry.{close_acceptors}
use market_bridge.Server.Intake.{Intake, http_session, https_session}
use market_bridge.Server.Loop
use market_bridge.Server.Loop.{
  Port, on_http, on_https, Place, Loop, move, leave, tests, calls, accepts, leaves, signalled,
  handles, closes, set_up, on_signal, begin_shutdown, idle,
}
use market_bridge.Server.Handshake.{shake}
use market_bridge.TokenBucket.Floats.{Double}
use market_bridge.System.{System, boot, launch}
use market_bridge.System.Halt.{begin_session-flag, begin_handshake-flag, advance-flag}
use market_bridge.Run.{
  silent, connected, shutdown_begun, effect, Running, begin, secure, react, dispatch, notify, Step,
  loops, dispatches, finishes, advances, locks, stops, stops_handshake, Reach, here, next,
}

module _ (D : Double) where
  -- The flag of the registry, as register_session reads it.
  abbrev pub pending : Running D → Bool
  pending s = s.system.intake.registry.shutdown_pending

  pub record IsConsistent (s : Running D) : Type 0 where
    pub same : s.loop.shutdown_pending ≡ pending s
    pub flagged : s.loop.closing ≡ true → pending s ≡ true
    pub locked : (n : ℕ) → s.stop_calls ≡ some n → pending s ≡ true

  -- The event loop moves on and nothing else.
  silent-IsConsistent :
      (s : Running D) (l : Loop)
      → l.shutdown_pending ≡ s.loop.shutdown_pending
      → (l.closing ≡ true → s.loop.closing ≡ true)
      → IsConsistent s
      → IsConsistent (record s { loop = l })
  silent-IsConsistent s l p c h = record {
    same = p ∙ h.same;
    flagged = λ e. h.flagged (c e);
    locked = h.locked;
  }

  -- Nothing but connections, sessions and handshakes change.
  pending-IsConsistent :
      (s t : Running D)
      → t.loop ≡ s.loop
      → t.stop_calls ≡ s.stop_calls
      → pending t ≡ pending s
      → IsConsistent s
      → IsConsistent t
  pending-IsConsistent s t l c p h = record {
    same = ap (λ (x : Loop). x.shutdown_pending) l ∙ h.same ∙ sym p;
    flagged = λ e. p ∙ h.flagged (ap (λ (x : Loop). x.closing) (sym l) ∙ e);
    locked = λ n e. p ∙ h.locked n (sym c ∙ e);
  }

  pub secure-pending :
      (initialized : Bool) (s : Running D) → pending (secure D initialized s) ≡ pending s
  unfolding secure shake
  secure-pending initialized s = begin_handshake-flag initialized s.system.intake

  launch-pending :
      (info : UpstreamInfo) (secure : Bool) (s : System D)
      → (launch D info secure s).intake.registry.shutdown_pending
        ≡ s.intake.registry.shutdown_pending
  unfolding launch
  launch-pending info secure s =
      begin_session-flag (if secure then https_session else http_session) s.intake

  react-connected :
      (p : Port) (initialized : Bool) (s : Running D)
      → IsConsistent s
      → IsConsistent (react D (connected p) initialized s)
  unfolding react secure
  react-connected on_http initialized s h = record {
    same = h.same;
    flagged = h.flagged;
    locked = h.locked;
  }
  react-connected on_https initialized s h =
      pending-IsConsistent s _ refl refl (secure-pending initialized s) h

  move-flags :
      (p : Port) (place : Place) (l : Loop)
      → ((move p place l).shutdown_pending ≡ l.shutdown_pending)
        × ((move p place l).closing ≡ l.closing)
  move-flags on_http place l = (refl, refl)
  move-flags on_https place l = (refl, refl)

  handles-IsConsistent :
      (ec : ErrorCode) (s : Running D) (initialized : Bool)
      → IsConsistent s
      → IsConsistent (
          react D
            (if check_ec ec && not s.loop.shutdown_pending then shutdown_begun else silent)
            initialized
            (record s { loop = on_signal ec s.loop }))
  unfolding on_signal begin_shutdown react
  handles-IsConsistent ec s initialized h = elim (Bool-cases (check_ec ec)) [
    | inl c ↦ elim (Bool-cases s.loop.shutdown_pending) [
      | inl p ↦ rw (c, p) (record { same = sym p ∙ h.same; flagged = h.flagged; locked = h.locked })
      | inr p ↦ rw (c, p) (record { same = refl; flagged = λ e. refl; locked = λ n e. refl })
    ]
    | inr c ↦ rw c (silent-IsConsistent s (record s.loop { signals = idle }) refl (λ e. e) h)
  ]

  loops-IsConsistent :
      (s : Running D) (l : Loop) (st : Loop.Step s.loop l) (initialized : Bool)
      → IsConsistent s
      → IsConsistent (react D (effect st) initialized (record s { loop = l }))
  unfolding effect react on_signal close_acceptors leave
  loops-IsConsistent s l st initialized h = go l st
    where
      moved :
          (p : Port) (place : Place) (l' : Loop)
          → l' ≡ move p place s.loop
          → IsConsistent (record s { loop = l' })
      moved p place l' q =
          let (a, b) = move-flags p place s.loop in
          rw q (silent-IsConsistent s (move p place s.loop) a (λ e. sym b ∙ e) h)

      go :
          (l' : Loop) (st' : Loop.Step s.loop l')
          → IsConsistent (react D (effect st') initialized (record s { loop = l' }))
      go l' (tests p e q) = moved p _ l' q
      go l' (calls p e q) = moved p _ l' q
      go l' (accepts p ec e o q) = elim (Bool-cases (check_ec ec)) [
        | inl c ↦ rw c (react-connected p initialized (record s { loop = l' }) (moved p _ l' q))
        | inr c ↦ rw c (moved p _ l' q)
      ]
      go l' (leaves p e q) =
          let (a, b) = move-flags p Loop.ended (leave s.loop) in
          rw q (silent-IsConsistent s (move p Loop.ended (leave s.loop)) a (λ c. sym b ∙ c) h)
      go l' (signalled e q) = rw q (silent-IsConsistent s _ refl (λ c. c) h)
      go l' (handles ec e q) = rw q (handles-IsConsistent ec s initialized h)
      go l' (closes e q) = rw q (silent-IsConsistent s _ refl (λ c. cc) h)

  module _ (info : UpstreamInfo) where
    dispatch-IsConsistent :
        (d : Dispatch) (initialized : Bool) (s : Running D)
        → IsConsistent s
        → IsConsistent (dispatch D info d initialized s)
    unfolding dispatch secure
    dispatch-IsConsistent launch_http_session initialized s h =
        pending-IsConsistent s _ refl refl (launch-pending info false s.system) h
    dispatch-IsConsistent ssl_handshake initialized s h =
        pending-IsConsistent s _ refl refl (secure-pending initialized s) h
    dispatch-IsConsistent drop_connection initialized s h = h

    notify-IsConsistent :
        (ec : ErrorCode) (s : Running D) → IsConsistent s → IsConsistent (notify D info ec s)
    unfolding notify
    notify-IsConsistent ec s h = elim (Bool-cases (check_ec ec)) [
      | inl c ↦ rw c (pending-IsConsistent s _ refl refl (launch-pending info true s.system) h)
      | inr c ↦ rw c h
    ]

    module _ (allow_https : Bool) where
      pub Step-IsConsistent :
          (s t : Running D) → Step D info allow_https s t → IsConsistent s → IsConsistent t
      Step-IsConsistent s t (loops l st initialized c q) h =
          rw q (loops-IsConsistent s l st initialized h)
      Step-IsConsistent s t (dispatches rest ec n buff initialized e q) h = rw q (
          dispatch-IsConsistent (dispatch_http_request allow_https ec n buff) initialized
            (record s { dispatching = rest }) (pending-IsConsistent s _ refl refl refl h))
      Step-IsConsistent s t (finishes before after x ec shaking e q) h =
          rw q (notify-IsConsistent ec _ (pending-IsConsistent s _ refl refl refl h))
      Step-IsConsistent s t (advances now before after x first op rest k later e p q) h =
          let same =
            ap (λ (i : Intake). i.registry.shutdown_pending)
              (advance-flag D info now before after op k (record x { pending = first ++ rest })
                s.system) in
          rw q (pending-IsConsistent s _ refl refl same h)
      Step-IsConsistent s t (locks n closing none_yet few q) h =
          rw q (record { same = h.same; flagged = h.flagged; locked = λ m e. h.flagged closing })
      Step-IsConsistent s t (stops n before after x left e q) h =
          rw q
            (record { same = h.same; flagged = h.flagged; locked = λ m c. h.locked (suc n) left })
      Step-IsConsistent s t (stops_handshake n before after x left e q) h =
          rw q
            (record { same = h.same; flagged = h.flagged; locked = λ m c. h.locked (suc n) left })

      pub Reach-IsConsistent :
          (s t : Running D) → Reach D info allow_https s t → IsConsistent s → IsConsistent t
      Reach-IsConsistent s t here h = h
      Reach-IsConsistent s u (next {t} r st) h =
          Step-IsConsistent t u st (Reach-IsConsistent s t r h)

  pub begin-IsConsistent :
      (mode : ServerRunningMode) (http_port https_port : ℕ) (throttling : ThrottlingConfig)
      (now : ℕ)
      → IsConsistent (begin D mode http_port https_port throttling now)
  unfolding begin set_up boot
  begin-IsConsistent mode http_port https_port throttling now = record {
    same = refl;
    flagged = λ e. e;
    locked = λ n e. cc;
  }
