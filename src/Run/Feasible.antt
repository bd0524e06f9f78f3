-- ===== src/Run/Feasible.antt =====
-- Each call of stop that is to come has a session.
use market_bridge.Base.{
  ℕ, suc, ◌+◌, ◌≤◌, ◌≡◌, refl, ap, sym, ◌∙◌, Bool, true, false, [], ◌∷◌, ◌++◌, Option, none, some,
  length, length-append, arith, inl, inr, Bool-cases,
}
use market_bridge.Session.ErrorCode.{ErrorCode, check_ec}
use market_bridge.Session.Defs.{UpstreamInfo, construct}
use market_bridge.Session.Handlers
use market_bridge.Session.Steps.{complete}
use market_bridge.Server.Tls.{
  Dispatch, launch_http_session, ssl_handshake, drop_connection, dispatch_http_request,
}
use market_bridge.Server.Handshake
use market_bridge.Server.Handshake.{HandshakeSession, Secured, shake, finish_handshake}
use market_bridge.Server.Handshake.Backed.{replace-length}
use market_bridge.TokenBucket.Floats.{Double}
use market_bridge.System.{System, launch, advance}
use market_bridge.System.Sessions.{advance-sessions}
use market_bridge.Run.{
  Effect, on_http, on_https, silent, connected, shutdown_begun, acceptors_closed, effect, Running,
  secure, react, dispatch, notify, Step, loops, dispatches, finishes, advances, locks, stops,
  stops_handshake, Reach, here, next,
}
use market_bridge.Run.Potential.{sessions_replace-length}

some-same : {m n : ℕ} → some m ≡ some n → m ≡ n
some-same {m} e = ap (λ (o : Option ℕ). elim o [ none ↦ m | some k ↦ k ]) e

module _ (D : Double) where
  abbrev pub sizes : Running D → ℕ
  sizes s = length s.system.sessions + length s.handshakes

  -- There is a session for each call of stop that is to come.
  abbrev pub IsFeasible : Running D → Type 0
  IsFeasible s = (n : ℕ) → s.stop_calls ≡ some n → n ≤ sizes s

  grown-IsFeasible :
      (s t : Running D)
      → t.stop_calls ≡ s.stop_calls
      → sizes s ≤ sizes t
      → IsFeasible s
      → IsFeasible t
  grown-IsFeasible s t c g h n e = omega (arith, h n (sym c ∙ e), g)

  launch-sizes :
      (info : UpstreamInfo) (secure : Bool) (s : System D)
      → length s.sessions ≤ length (launch D info secure s).sessions
  unfolding launch
  launch-sizes info secure s =
      ground
        (arith, length-append s.sessions (Handlers.start (construct s.intake.counter info) ∷ []))

  launch-IsFeasible :
      (info : UpstreamInfo) (secure : Bool) (s : Running D)
      → IsFeasible s
      → IsFeasible (record s { system = launch D info secure s.system })
  launch-IsFeasible info secure s h =
      grown-IsFeasible s (record s { system = launch D info secure s.system }) refl
        (omega (arith, launch-sizes info secure s.system)) h

  secure-IsFeasible :
      (initialized : Bool) (s : Running D) → IsFeasible s → IsFeasible (secure D initialized s)
  unfolding secure shake
  secure-IsFeasible initialized s h =
      grown-IsFeasible s (secure D initialized s) refl
        (ground (
          arith,
          length-append s.handshakes
              (Handshake.start (Handshake.construct s.system.intake.counter) ∷ []),
        ))
        h

  react-IsFeasible :
      (e : Effect) (initialized : Bool) (s : Running D)
      → IsFeasible s
      → IsFeasible (react D e initialized s)
  unfolding react
  react-IsFeasible silent initialized s h = h
  react-IsFeasible (connected on_http) initialized s h = h
  react-IsFeasible (connected on_https) initialized s h = secure-IsFeasible initialized s h
  react-IsFeasible shutdown_begun initialized s h = h
  react-IsFeasible acceptors_closed initialized s h = h

  module _ (info : UpstreamInfo) where
    dispatch-IsFeasible :
        (d : Dispatch) (initialized : Bool) (s : Running D)
        → IsFeasible s
        → IsFeasible (dispatch D info d initialized s)
    unfolding dispatch
    dispatch-IsFeasible launch_http_session initialized s h = launch-IsFeasible info false s h
    dispatch-IsFeasible ssl_handshake initialized s h = secure-IsFeasible initialized s h
    dispatch-IsFeasible drop_connection initialized s h = h

    notify-IsFeasible :
        (ec : ErrorCode) (s : Running D) → IsFeasible s → IsFeasible (notify D info ec s)
    unfolding notify
    notify-IsFeasible ec s h = elim (Bool-cases (check_ec ec)) [
      | inl c ↦ rw c (launch-IsFeasible info true s h)
      | inr c ↦ rw c h
    ]

    module _ (allow_https : Bool) where
      Step-IsFeasible :
          (s t : Running D) → Step D info allow_https s t → IsFeasible s → IsFeasible t
      unfolding Handlers.stop
      Step-IsFeasible s t (loops l st initialized c q) h =
          rw q (react-IsFeasible (effect st) initialized (record s { loop = l }) h)
      Step-IsFeasible s t (dispatches rest ec n buff initialized e q) h = rw q (
          dispatch-IsFeasible (dispatch_http_request allow_https ec n buff) initialized
            (record s { dispatching = rest }) h)
      Step-IsFeasible s t (finishes before after x ec shaking e q) h =
          let y = finish_handshake x in
          rw q (
            notify-IsFeasible ec (record s { handshakes = before ++ y ∷ after })
              (grown-IsFeasible s (record s { handshakes = before ++ y ∷ after }) refl
                (omega (arith, replace-length s.handshakes before x y after e)) h))
      Step-IsFeasible s t (advances now before after x first op rest k later e p q) h =
          let x' = record x { pending = first ++ rest } in
          let (b, a) = advance-sessions D info now before after op k x' s.system in
          let y = complete op (record k { allowed = b }) x' in
          rw q (
            grown-IsFeasible s (record s { system = advance D now before op k x' after s.system })
              refl
              (omega
                (arith, ap length a, sessions_replace-length s.system.sessions before x y after e))
              h)
      Step-IsFeasible s t (locks n closing none_yet few q) h =
          rw q (λ m e. omega (arith, few, some-same e))
      Step-IsFeasible s t (stops n before after x left_ e q) h = rw q (λ m c. omega (
        arith,
        h (suc n) left_,
        some-same c,
        sessions_replace-length s.system.sessions before x (Handlers.stop x) after e,
      ))
      Step-IsFeasible s t (stops_handshake n before after x left_ e q) h = rw q (λ m c. omega (
        arith,
        h (suc n) left_,
        some-same c,
        replace-length s.handshakes before x (Handshake.stop x) after e,
      ))

      pub Reach-IsFeasible :
          (s t : Running D) → Reach D info allow_https s t → IsFeasible s → IsFeasible t
      Reach-IsFeasible s t here h = h
      Reach-IsFeasible s u (next {t} r st) h = Step-IsFeasible t u st (Reach-IsFeasible s t r h)
