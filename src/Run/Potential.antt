-- ===== src/Run/Potential.antt =====
-- What the outstanding work of the server can still lead to, once nothing is accepted any more.
use market_bridge.Base.{
  ℕ, ◌+◌, ◌*◌, ◌≤◌, ◌≡◌, ◌≢◌, refl, ap, ◌∙◌, Bool, true, false, List, [], ◌∷◌, ◌++◌, Option, none,
  some, length, length-append, arith, if◌then◌else◌,
}
use market_bridge.Session.ErrorCode.{ErrorCode, check_ec}
use market_bridge.Session.Defs.{UpstreamInfo, Session, construct}
use market_bridge.Session.Handlers
use market_bridge.Session.Handlers.{start}
use market_bridge.Session.Steps.{complete}
use market_bridge.Session.Termination.{is_read}
use market_bridge.Server.Tls.{
  Dispatch, launch_http_session, ssl_handshake, drop_connection, dispatch_http_request,
}
use market_bridge.Server.Loop
use market_bridge.Server.Loop.{
  Port, on_http, on_https, Loop, tests, calls, accepts, leaves, signalled, handles, closes, is_open,
  acceptor_at,
}
use market_bridge.Server.Loop.Ends.{left, Step-left}
use market_bridge.Server.Loop.Tidy.{IsShut}
use market_bridge.Server.Handshake
use market_bridge.Server.Handshake.{HandshakeSession, Secured, shake, finish_handshake}
use market_bridge.Server.Handshake.Backed.{count, outstanding, count-append, replace-length}
use market_bridge.TokenBucket.Floats.{Double}
use market_bridge.System.{launch}
use market_bridge.System.Sessions.{advance-sessions}
use market_bridge.System.Ends.{ranks, ranks-append, ranks_replace, advance-ranks}
use market_bridge.Run.{
  Effect, silent, connected, shutdown_begun, acceptors_closed, effect, Running, secure, react,
  dispatch, notify, Step, loops, dispatches, finishes, advances, locks, stops, stops_handshake,
}

-- The calls of stop that are to come: two steps each, the call's own included. Until the sessions are
-- locked, each of them may be called.
abbrev pub calls_left : Option ℕ → ℕ → ℕ
calls_left none sessions = 1 + 2 * sessions
calls_left (some n) sessions = 2 * n

module _ (D : Double) where
  abbrev pub potential : Running D → ℕ
  potential s =
      left s.loop
      + 19 * s.dispatching
      + 16 * count outstanding s.handshakes
      + ranks s.system.sessions
      + calls_left s.stop_calls (length s.system.sessions + length s.handshakes)

  calls_left-le : (c : Option ℕ) (m n k : ℕ) → n ≤ m + k → calls_left c n ≤ calls_left c m + 2 * k
  calls_left-le none m n k h = omega (arith, h)
  calls_left-le (some l) m n k h = omega arith

  -- A session more costs its thirteen completions and a call of stop.
  launch-potential :
      (info : UpstreamInfo) (secure : Bool) (s : Running D)
      → potential (record s { system = launch D info secure s.system }) ≤ potential s + 15
  unfolding launch start construct
  launch-potential info secure s =
      let one = start (construct s.system.intake.counter info) in
      ground (
        arith,
        ranks-append s.system.sessions (one ∷ []),
        length-append s.system.sessions (one ∷ []),
        calls_left-le s.stop_calls (length s.system.sessions + length s.handshakes)
            (length (s.system.sessions ++ one ∷ []) + length s.handshakes) 1,
      )

  secure-potential :
      (initialized : Bool) (s : Running D) → potential (secure D initialized s) ≤ potential s + 18
  unfolding secure shake
  secure-potential initialized s =
      let one = Handshake.start (Handshake.construct s.system.intake.counter) in
      ground (
        arith,
        count-append outstanding s.handshakes (one ∷ []),
        length-append s.handshakes (one ∷ []),
        calls_left-le s.stop_calls (length s.system.sessions + length s.handshakes)
            (length s.system.sessions + length (s.handshakes ++ one ∷ [])) 1,
      )

  dispatch-potential :
      (info : UpstreamInfo) (d : Dispatch) (initialized : Bool) (s : Running D)
      → potential (dispatch D info d initialized s) ≤ potential s + 18
  unfolding dispatch
  dispatch-potential info launch_http_session initialized s =
      omega (arith, launch-potential info false s)
  dispatch-potential info ssl_handshake initialized s = secure-potential initialized s
  dispatch-potential info drop_connection initialized s = omega arith

  notify-potential :
      (info : UpstreamInfo) (ec : ErrorCode) (s : Running D)
      → potential (notify D info ec s) ≤ potential s + 15
  unfolding notify
  notify-potential info ec s = ground (arith, launch-potential info true s)

  react-potential :
      (e : Effect) (initialized : Bool) (s : Running D)
      → ((p : Port) → e ≢ connected p)
      → potential (react D e initialized s) ≡ potential s
  unfolding react
  react-potential silent initialized s h = refl
  react-potential (connected p) initialized s h = absurd (h p refl)
  react-potential shutdown_begun initialized s h = refl
  react-potential acceptors_closed initialized s h = refl

-- Nothing connects once the acceptors are closed.
effect-unconnected :
    (s t : Loop) (st : Loop.Step s t) → IsShut s → (p : Port) → effect st ≢ connected p
unfolding effect check_ec
effect-unconnected s t (tests p e q) h p' c = cc
effect-unconnected s t (calls p e q) h p' c = cc
effect-unconnected s t (accepts on_http ec e o q) h p' c = ground (arith, o, h.http, c)
effect-unconnected s t (accepts on_https ec e o q) h p' c = ground (arith, o, h.https, c)
effect-unconnected s t (leaves p e q) h p' c = cc
effect-unconnected s t (signalled e q) h p' c = cc
effect-unconnected s t (handles ec e q) h p' c = ground (arith, c)
effect-unconnected s t (closes e q) h p' c = cc

pub sessions_replace-length :
    (all before : List Session) (x y : Session) (after : List Session)
    → all ≡ before ++ x ∷ after
    → length (before ++ y ∷ after) ≡ length all
sessions_replace-length all before x y after e =
    omega (arith, ap length e, length-append before (x ∷ after), length-append before (y ∷ after))

calls_left-same :
    (c : Option ℕ) {m n : ℕ} → m ≡ n → (k : ℕ) → calls_left c (m + k) ≡ calls_left c (n + k)
calls_left-same c e k = ap (λ m. calls_left c (m + k)) e

pub replace-outstanding :
    (all before : List HandshakeSession) (h k : HandshakeSession) (after : List HandshakeSession)
    → all ≡ before ++ h ∷ after
    → count outstanding (before ++ k ∷ after) + outstanding h
      ≡ count outstanding all + outstanding k
replace-outstanding all before h k after e = omega (
  arith,
  ap (count outstanding) e,
  count-append outstanding before (h ∷ after),
  count-append outstanding before (k ∷ after),
)

module _ (D : Double) (info : UpstreamInfo) (allow_https : Bool) where
  -- A read that brings bytes of an upstream's response.
  abbrev pub read_step : {s t : Running D} → Step D info allow_https s t → ℕ
  read_step (advances now before after x first op rest k later e p q) =
      if is_read op k then 1 else 0
  read_step _ = 0

  pub Step-potential :
      (s t : Running D) (st : Step D info allow_https s t)
      → IsShut s.loop
      → potential D t + 1 ≤ potential D s + read_step st
  unfolding finish_handshake Handlers.stop Handshake.stop
  Step-potential s t (loops l st initialized c q) h = rw q (
      omega (
        arith,
        react-potential D (effect st) initialized (record s { loop = l })
            (effect-unconnected s.loop l st h),
        Step-left s.loop l st h,
      ))
  Step-potential s t (dispatches rest ec n buff initialized e q) h = rw q (
      omega (
        arith,
        e,
        dispatch-potential D info (dispatch_http_request allow_https ec n buff) initialized
            (record s { dispatching = rest }),
      ))
  Step-potential s t (finishes before after x ec shaking e q) h =
      let hs = before ++ finish_handshake x ∷ after in
      rw q (
        ground (
          arith,
          shaking,
          notify-potential D info ec (record s { handshakes = hs }),
          replace-outstanding s.handshakes before x (finish_handshake x) after e,
          replace-length s.handshakes before x (finish_handshake x) after e,
        ))
  Step-potential s t (advances now before after x first op rest k later e p q) h =
      let x' = record x { pending = first ++ rest } in
      let (b, a) = advance-sessions D info now before after op k x' s.system in
      let y = complete op (record k { allowed = b }) x' in
      rw q (
        omega (
          arith,
          advance-ranks D info now before after x first op rest k s.system e p,
          calls_left-same s.stop_calls
              (ap length a ∙ sessions_replace-length s.system.sessions before x y after e)
              (length s.handshakes),
        ))
  Step-potential s t (locks n closing none_yet few q) h = rw q (ground (arith, none_yet, few))
  Step-potential s t (stops n before after x calls_ e q) h = rw q (
      omega (
        arith,
        ap (λ c. calls_left c (length s.system.sessions + length s.handshakes)) calls_,
        ranks_replace s.system.sessions before x (Handlers.stop x) after e,
      ))
  Step-potential s t (stops_handshake n before after x calls_ e q) h = rw q (
      omega (
        arith,
        ap (λ c. calls_left c (length s.system.sessions + length s.handshakes)) calls_,
        replace-outstanding s.handshakes before x (Handshake.stop x) after e,
      ))
