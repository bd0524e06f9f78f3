-- ===== src/Run/Refines.antt =====
-- The server as a whole runs as each of its parts does by itself.
use market_bridge.Base.{
  ℕ, suc, ◌≡◌, refl, subst, Bool, true, false, List, [], ◌∷◌, ◌++◌, arith, inl, inr, Bool-cases,
}
use market_bridge.Config.{ThrottlingConfig, ServerRunningMode}
use market_bridge.Session.ErrorCode.{ErrorCode, check_ec}
use market_bridge.Session.Defs.{UpstreamInfo}
use market_bridge.Server.Tls.{
  Dispatch, launch_http_session, ssl_handshake, drop_connection, dispatch_http_request,
}
use market_bridge.Server.Intake.{Intake, on_handshake, opened}
use market_bridge.Server.Loop
use market_bridge.Server.Loop.{on_http, on_https, Loop, set_up}
use market_bridge.Server.Handshake
use market_bridge.Server.Handshake.{HandshakeSession, Secured, shake, finish_handshake}
use market_bridge.TokenBucket.Floats.{Double}
use market_bridge.System
use market_bridge.System.{
  System, boot, launch, advance, launches, handshakes, flags, stops, advances,
}
use market_bridge.System.Halt.{advance-flag}
use market_bridge.Run.{
  Effect, silent, connected, shutdown_begun, acceptors_closed, effect, Running, begin, secure,
  react, dispatch, notify, Step, loops, dispatches, finishes, locks, stops_handshake, Reach, here,
  next,
}
use market_bridge.Run
use market_bridge.Run.Consistent.{IsConsistent, Reach-IsConsistent, begin-IsConsistent}

module _ (D : Double) where
  -- The connections that open with TLS, as Server/Handshake has them.
  abbrev pub secured : Running D → Secured
  secured s = record { intake = s.system.intake; handshakes = s.handshakes }

  module _ (info : UpstreamInfo) where
    -- A step of the whole is a step of the system of sessions, or leaves it alone.
    abbrev Follows : System D → System D → Type 0
    Follows s t = (o : System D) → System.Reach D info o s → System.Reach D info o t

    react-Follows :
        (e : Effect) (initialized : Bool) (s : Running D)
        → Follows s.system (react D e initialized s).system
    unfolding react secure shake
    react-Follows silent initialized s o r = r
    react-Follows (connected on_http) initialized s o r = r
    react-Follows (connected on_https) initialized s o r =
        System.next r (handshakes initialized refl)
    react-Follows shutdown_begun initialized s o r = System.next r (flags refl)
    react-Follows acceptors_closed initialized s o r = r

    dispatch-Follows :
        (d : Dispatch) (initialized : Bool) (s : Running D)
        → Follows s.system (dispatch D info d initialized s).system
    unfolding dispatch secure shake
    dispatch-Follows launch_http_session initialized s o r = System.next r (launches false refl)
    dispatch-Follows ssl_handshake initialized s o r = System.next r (handshakes initialized refl)
    dispatch-Follows drop_connection initialized s o r = r

    notify-Follows : (ec : ErrorCode) (s : Running D) → Follows s.system (notify D info ec s).system
    unfolding notify
    notify-Follows ec s o r = elim (Bool-cases (check_ec ec)) [
      | inl c ↦ rw c (System.next r (launches true refl))
      | inr c ↦ rw c r
    ]

    module _ (allow_https : Bool) where
      Step-Follows :
          (s t : Running D)
          → Step D info allow_https s t
          → IsConsistent D s
          → Follows s.system t.system
      Step-Follows s t (loops l st initialized c q) h o r =
          rw q (react-Follows (effect st) initialized (record s { loop = l }) o r)
      Step-Follows s t (dispatches rest ec n buff initialized e q) h o r = rw q (
          dispatch-Follows (dispatch_http_request allow_https ec n buff) initialized
            (record s { dispatching = rest }) o r)
      Step-Follows s t (finishes before after x ec shaking e q) h o r =
          rw q (notify-Follows ec _ o r)
      Step-Follows s t (Run.advances now before after x first op rest k later e p q) h o r =
          rw q (System.next r (advances now before after x first op rest k later e p refl))
      Step-Follows s t (locks n closing none_yet few q) h o r = rw q r
      Step-Follows s t (Run.stops n before after x left e q) h o r =
          rw q (System.next r (stops before after x (h.locked (suc n) left) e refl))
      Step-Follows s t (stops_handshake n before after x left e q) h o r = rw q r

  -- The same for the connections that open with TLS.
  abbrev Shakes : Secured → Secured → Type 0
  Shakes s t = (o : Secured) → Handshake.Reach o s → Handshake.Reach o t

  react-Shakes :
      (e : Effect) (initialized : Bool) (s : Running D)
      → Shakes (secured s) (secured (react D e initialized s))
  unfolding react secure
  react-Shakes silent initialized s o r = r
  react-Shakes (connected on_http) initialized s o r = r
  react-Shakes (connected on_https) initialized s o r =
      Handshake.next r (Handshake.shakes initialized refl)
  react-Shakes shutdown_begun initialized s o r = Handshake.next r (Handshake.flags refl)
  react-Shakes acceptors_closed initialized s o r = r

  pub react-loop :
      (e : Effect) (initialized : Bool) (s : Running D) → (react D e initialized s).loop ≡ s.loop
  unfolding react secure
  react-loop silent initialized s = refl
  react-loop (connected on_http) initialized s = refl
  react-loop (connected on_https) initialized s = refl
  react-loop shutdown_begun initialized s = refl
  react-loop acceptors_closed initialized s = refl

  module _ (info : UpstreamInfo) where
    dispatch-Shakes :
        (d : Dispatch) (initialized : Bool) (s : Running D)
        → Shakes (secured s) (secured (dispatch D info d initialized s))
    unfolding dispatch secure launch
    dispatch-Shakes launch_http_session initialized s o r =
        Handshake.next r (Handshake.connects refl)
    dispatch-Shakes ssl_handshake initialized s o r =
        Handshake.next r (Handshake.shakes initialized refl)
    dispatch-Shakes drop_connection initialized s o r = r

    finish-Shakes :
        (before after : List HandshakeSession) (h : HandshakeSession) (ec : ErrorCode)
        (s : Running D)
        → h.shaking ≡ true
        → s.handshakes ≡ before ++ h ∷ after
        → Shakes (secured s) (
            secured
              (notify D info ec (record s { handshakes = before ++ finish_handshake h ∷ after })))
    unfolding notify launch on_handshake
    finish-Shakes before after h ec s shaking e o r =
        let hs = before ++ finish_handshake h ∷ after in
        let step = Handshake.next r (Handshake.finishes before after h ec shaking e refl) in
        let at = λ (i : Intake). Handshake.Reach o (record { intake = i; handshakes = hs }) in
        elim (Bool-cases (check_ec ec)) [
          | inl c ↦ rw c (subst at (rw c refl) step)
          | inr c ↦ rw c (subst at (rw c refl) step)
        ]

    pub dispatch-loop :
        (d : Dispatch) (initialized : Bool) (s : Running D)
        → (dispatch D info d initialized s).loop ≡ s.loop
    unfolding dispatch secure
    dispatch-loop launch_http_session initialized s = refl
    dispatch-loop ssl_handshake initialized s = refl
    dispatch-loop drop_connection initialized s = refl

    pub notify-loop : (ec : ErrorCode) (s : Running D) → (notify D info ec s).loop ≡ s.loop
    unfolding notify
    notify-loop ec s = ground arith

    module _ (allow_https : Bool) where
      Step-Shakes : (s t : Running D) → Step D info allow_https s t → Shakes (secured s) (secured t)
      Step-Shakes s t (loops l st initialized c q) o r =
          rw q (react-Shakes (effect st) initialized (record s { loop = l }) o r)
      Step-Shakes s t (dispatches rest ec n buff initialized e q) o r = rw q (
          dispatch-Shakes (dispatch_http_request allow_https ec n buff) initialized
            (record s { dispatching = rest }) o r)
      Step-Shakes s t (finishes before after x ec shaking e q) o r =
          rw q (finish-Shakes before after x ec s shaking e o r)
      Step-Shakes s t (Run.advances now before after x first op rest k later e p q) o r =
          rw
            (
              q,
              advance-flag D info now before after op k (record x { pending = first ++ rest })
                  s.system,
            )
            r
      Step-Shakes s t (locks n closing none_yet few q) o r = rw q r
      Step-Shakes s t (Run.stops n before after x left e q) o r = rw q r
      Step-Shakes s t (stops_handshake n before after x left e q) o r =
          rw q (Handshake.next r (Handshake.stops before after x e refl))

      -- The event loop moves on by its own steps only.
      pub Step-loop :
          (s t : Running D) (o : Loop)
          → Step D info allow_https s t
          → Loop.Reach o s.loop
          → Loop.Reach o t.loop
      Step-loop s t o (loops l st initialized c q) r =
          rw (q, react-loop (effect st) initialized (record s { loop = l })) (Loop.next r st)
      Step-loop s t o (dispatches rest ec n buff initialized e q) r =
          rw
            (
              q,
              dispatch-loop (dispatch_http_request allow_https ec n buff) initialized
                  (record s { dispatching = rest }),
            )
            r
      Step-loop s t o (finishes before after x ec shaking e q) r =
          rw (q, notify-loop ec (record s { handshakes = before ++ finish_handshake x ∷ after })) r
      Step-loop s t o (Run.advances now before after x first op rest k later e p q) r = rw q r
      Step-loop s t o (locks n closing none_yet few q) r = rw q r
      Step-loop s t o (Run.stops n before after x left e q) r = rw q r
      Step-loop s t o (stops_handshake n before after x left e q) r = rw q r

      -- The server as a whole refines its parts: in every run of it, the listeners with the signals, the
      -- sessions with the rate limiter, and the connections with their handshakes have each come to
      -- where they are by a run of their own, so that what holds of every run of a part holds in the
      -- running server.
      pub run_refines :
          (mode : ServerRunningMode) (http_port https_port : ℕ) (throttling : ThrottlingConfig)
          (now : ℕ) (t : Running D)
          → Reach D info allow_https (begin D mode http_port https_port throttling now) t
          → Loop.Reach (set_up mode http_port https_port) t.loop
            × System.Reach D info (boot D throttling now) t.system
            × Handshake.Reach (record { intake = opened false 1; handshakes = [] }) (secured t)
      unfolding begin boot
      run_refines mode http_port https_port throttling now t here =
          (Loop.here, System.here, Handshake.here)
      run_refines mode http_port https_port throttling now u (next {t} r st) =
          let (a, b, c) = run_refines mode http_port https_port throttling now t r in
          let consistent =
            Reach-IsConsistent D info allow_https _ t r
              (begin-IsConsistent D mode http_port https_port throttling now) in
          (
            Step-loop t u _ st a,
            Step-Follows info allow_https t u st consistent _ b,
            Step-Shakes t u st _ c,
          )
