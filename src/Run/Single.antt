-- ===== src/Run/Single.antt =====
-- The single-request mode of the server as a whole.
use market_bridge.Base.{
  ℕ, ◌+◌, ◌≤◌, ◌≡◌, refl, ap, ◌∙◌, Bool, true, false, [], ◌∷◌, ◌++◌, Option, none, some, ◌==◌,
  length, length-append, arith, if◌then◌else◌,
}
use market_bridge.Config.{ThrottlingConfig, single_request}
use market_bridge.Session.ErrorCode.{ErrorCode, check_ec, is_aborted}
use market_bridge.Session.Defs.{UpstreamInfo, construct}
use market_bridge.Session.Handlers
use market_bridge.Session.Steps.{complete}
use market_bridge.Server.Tls.{
  Dispatch, launch_http_session, ssl_handshake, drop_connection, dispatch_http_request,
}
use market_bridge.Server.Listener.{is_single}
use market_bridge.Server.Registry.{init_acceptors}
use market_bridge.Server.Loop
use market_bridge.Server.Loop.{
  Place, absent, testing, calling, waiting, leaving, ended, faulted, Port, on_http, on_https, Loop,
  tests, calls, accepts, leaves, signalled, handles, closes, is_open, acceptor_at, place_at, move,
  leave, on_accept, test_flag, begin_accept, on_signal, begin_shutdown, set_up,
}
use market_bridge.Server.Handshake
use market_bridge.Server.Handshake.{HandshakeSession, Secured, shake, finish_handshake}
use market_bridge.Server.Handshake.Backed.{count, outstanding, count-append}
use market_bridge.TokenBucket.Floats.{Double}
use market_bridge.System.{boot, launch}
use market_bridge.System.Sessions.{advance-sessions}
use market_bridge.Run.{
  Effect, silent, connected, shutdown_begun, acceptors_closed, effect, Running, begin, secure,
  react, dispatch, notify, Step, loops, dispatches, finishes, advances, locks, stops,
  stops_handshake, Reach, here, next,
}
use market_bridge.Run.Refines.{react-loop, dispatch-loop, notify-loop}
use market_bridge.Run.Potential.{replace-outstanding, sessions_replace-length}

-- Whether a listener can still accept.
abbrev open_at : Place → ℕ
open_at testing = 1
open_at calling = 1
open_at waiting = 1
open_at _ = 0

abbrev open_in : Loop → ℕ
open_in l = open_at l.http + open_at l.https

abbrev brought : Effect → ℕ
brought (connected p) = 1
brought _ = 0

move-open :
    (p : Port) (place : Place) (s : Loop)
    → (open_in (move p place s) + open_at (place_at p s) ≡ open_in s + open_at place)
      × ((move p place s).mode ≡ s.mode)
move-open on_http place s = (omega arith, refl)
move-open on_https place s = (omega arith, refl)

test_flag-open : (b : Bool) → open_at (test_flag b) ≤ 1
unfolding test_flag
test_flag-open b = ground arith

begin_accept-open : (a : Option Bool) → open_at (begin_accept a) ≤ 1
unfolding begin_accept
begin_accept-open none = omega arith
begin_accept-open (some b) = omega arith

on_accept-open : (ec : ErrorCode) → open_at (on_accept single_request ec) ≡ 0
unfolding on_accept is_aborted check_ec is_single
on_accept-open ec = ground arith

leave-open :
    (p : Port) (s : Loop)
    → (open_in (leave s) ≡ open_in s)
      × (place_at p (leave s) ≡ place_at p s)
      × ((leave s).mode ≡ s.mode)
unfolding leave
leave-open on_http s = (refl, refl, refl)
leave-open on_https s = (refl, refl, refl)

on_signal-open :
    (ec : ErrorCode) (s : Loop)
    → (open_in (on_signal ec s) ≡ open_in s) × ((on_signal ec s).mode ≡ s.mode)
unfolding on_signal begin_shutdown
on_signal-open ec s = (ground arith, ground arith)

-- In the single-request mode an accepted connection uses its listener up.
Step-open :
    (s t : Loop) (st : Loop.Step s t)
    → s.mode ≡ single_request
    → (open_in t + brought (effect st) ≤ open_in s) × (t.mode ≡ single_request)
unfolding effect check_ec
Step-open s t (tests p e q) m =
    let (a, b) = move-open p (test_flag s.shutdown_pending) s in
    rw q (omega (arith, a, ap open_at e, test_flag-open s.shutdown_pending), b ∙ m)
Step-open s t (calls p e q) m =
    let place = begin_accept (acceptor_at p s.acceptors) in
    let (a, b) = move-open p place s in
    rw q (omega (arith, a, ap open_at e, begin_accept-open (acceptor_at p s.acceptors)), b ∙ m)
Step-open s t (accepts p ec e o q) m =
    let (a, b) = move-open p (on_accept s.mode ec) s in
    let used = ap (λ x. open_at (on_accept x ec)) m ∙ on_accept-open ec in
    rw q (ground (arith, a, ap open_at e, used), b ∙ m)
Step-open s t (leaves p e q) m =
    let (a, b) = move-open p ended (leave s) in
    let (same, place, mode) = leave-open p s in
    rw q (omega (arith, a, same, ap open_at (place ∙ e)), b ∙ mode ∙ m)
Step-open s t (signalled e q) m = rw q (omega arith, m)
Step-open s t (handles ec e q) m =
    let (same, mode) = on_signal-open ec s in rw q (ground (arith, same), mode ∙ m)
Step-open s t (closes e q) m = rw q (omega arith, m)

module _ (D : Double) where
  -- The connections that can still be accepted, those on their way to a session, and the sessions.
  abbrev served : Running D → ℕ
  served s =
      open_in s.loop + s.dispatching + count outstanding s.handshakes + length s.system.sessions

  launch-served :
      (info : UpstreamInfo) (secure : Bool) (s : Running D)
      → served (record s { system = launch D info secure s.system }) ≤ served s + 1
  unfolding launch
  launch-served info secure s = ground (
    arith,
    length-append s.system.sessions (Handlers.start (construct s.system.intake.counter info) ∷ []),
  )

  secure-served :
      (initialized : Bool) (s : Running D) → served (secure D initialized s) ≤ served s + 1
  unfolding secure shake
  secure-served initialized s =
      let one = Handshake.start (Handshake.construct s.system.intake.counter) in
      ground (arith, count-append outstanding s.handshakes (one ∷ []))

  react-served :
      (e : Effect) (initialized : Bool) (s : Running D)
      → served (react D e initialized s) ≤ served s + brought e
  unfolding react
  react-served silent initialized s = omega arith
  react-served (connected on_http) initialized s = omega arith
  react-served (connected on_https) initialized s = secure-served initialized s
  react-served shutdown_begun initialized s = omega arith
  react-served acceptors_closed initialized s = omega arith

  module _ (info : UpstreamInfo) where
    dispatch-served :
        (d : Dispatch) (initialized : Bool) (s : Running D)
        → served (dispatch D info d initialized s) ≤ served s + 1
    unfolding dispatch
    dispatch-served launch_http_session initialized s = launch-served info false s
    dispatch-served ssl_handshake initialized s = secure-served initialized s
    dispatch-served drop_connection initialized s = omega arith

    notify-served : (ec : ErrorCode) (s : Running D) → served (notify D info ec s) ≤ served s + 1
    unfolding notify
    notify-served ec s = ground (arith, launch-served info true s)

    module _ (allow_https : Bool) where
      Step-served :
          (s t : Running D)
          → Step D info allow_https s t
          → s.loop.mode ≡ single_request
          → (served t ≤ served s) × (t.loop.mode ≡ single_request)
      unfolding finish_handshake Handlers.stop Handshake.stop
      Step-served s t (loops l st initialized c q) m =
          let (used, mode) = Step-open s.loop l st m in
          rw (q) (
            omega (arith, used, react-served (effect st) initialized (record s { loop = l })),
            rw (react-loop D (effect st) initialized (record s { loop = l })) mode,
          )
      Step-served s t (dispatches rest ec n buff initialized e q) m =
          let d = dispatch_http_request allow_https ec n buff in
          let s' = record s { dispatching = rest } in
          rw q (
            omega (arith, e, dispatch-served d initialized s'),
            rw (dispatch-loop D info d initialized s') m,
          )
      Step-served s t (finishes before after x ec shaking e q) m =
          let y = finish_handshake x in
          let s' = record s { handshakes = before ++ y ∷ after } in
          rw q (
            ground (
              arith,
              shaking,
              notify-served ec s',
              replace-outstanding s.handshakes before x y after e,
            ),
            rw (notify-loop D info ec s') m,
          )
      Step-served s t (advances now before after x first op rest k later e p q) m =
          let x' = record x { pending = first ++ rest } in
          let (b, a) = advance-sessions D info now before after op k x' s.system in
          let y = complete op (record k { allowed = b }) x' in
          rw q (
            omega
                (arith, ap length a, sessions_replace-length s.system.sessions before x y after e),
            m,
          )
      Step-served s t (locks n closing none_yet few q) m = rw q (omega arith, m)
      Step-served s t (stops n before after x left_ e q) m = rw q (
        omega (arith, sessions_replace-length s.system.sessions before x (Handlers.stop x) after e),
        m,
      )
      Step-served s t (stops_handshake n before after x left_ e q) m =
          rw q
            (omega (arith, replace-outstanding s.handshakes before x (Handshake.stop x) after e), m)

      Reach-served :
          (s t : Running D)
          → Reach D info allow_https s t
          → s.loop.mode ≡ single_request
          → (served t ≤ served s) × (t.loop.mode ≡ single_request)
      Reach-served s t here m = (omega arith, m)
      Reach-served s u (next {t} r st) m =
          let (a, b) = Reach-served s t r m in
          let (c, d) = Step-served t u st b in (omega (arith, a, c), d)

      -- In the single-request mode a server that listens on two ports serves two requests at most, one
      -- for each port, and one request at most where both ports are the same: whatever connects, the
      -- sessions it starts are no more than its listeners.
      pub single_request_served :
          (http_port https_port : ℕ) (throttling : ThrottlingConfig) (now : ℕ) (t : Running D)
          → Reach D info allow_https (begin D single_request http_port https_port throttling now) t
          → length t.system.sessions ≤ (if https_port == http_port then 1 else 2)
      unfolding begin boot set_up init_acceptors
      single_request_served http_port https_port throttling now t r =
          let (a, b) = Reach-served _ t r refl in ground (arith, a)
