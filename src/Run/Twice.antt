-- ===== src/Run/Twice.antt =====
-- A run of the single-request mode that serves two requests.
use market_bridge.Base.{ℕ, ◌≡◌, refl, sym, subst, true, false, [], ◌∷◌, some, ◌==◌, length, inl}
use market_bridge.Config.{ThrottlingConfig, single_request}
use market_bridge.Session.ErrorCode.{success}
use market_bridge.Session.Defs.{UpstreamInfo}
use market_bridge.Server.Tls.{dispatch_http_request, ssl_handshake_step}
use market_bridge.Server.Registry.{register_session, generate_session_id, init_acceptors}
use market_bridge.Server.Intake.{begin_session, begin_handshake}
use market_bridge.Server.Loop
use market_bridge.Server.Loop.{
  testing, calling, waiting, leaving, awaiting, on_http, on_https, Loop, tests, calls, accepts,
  on_accept, test_flag, begin_accept, set_up,
}
use market_bridge.Server.Listener.{is_single}
use market_bridge.Server.Handshake.{HandshakeSession, shake, construct, start, finish_handshake}
use market_bridge.TokenBucket.Floats.{Double}
use market_bridge.System.{boot, launch}
use market_bridge.Run.{
  effect, Running, begin, secure, react, dispatch, notify, loops, dispatches, finishes, Reach, here,
  next, Reach-trans,
}

-- Both listeners of the single-request mode at these places.
abbrev pub listening : Loop.Place → Loop.Place → Loop
listening http https = record {
  mode = single_request;
  shutdown_pending = false;
  acceptors = record { http = some true; https = some true };
  http = http;
  https = https;
  signals = awaiting;
  closing = false;
}

two_ports :
    (http_port https_port : ℕ)
    → (https_port == http_port) ≡ false
    → set_up single_request http_port https_port ≡ listening testing testing
unfolding set_up init_acceptors
two_ports http_port https_port h = rw h refl

module _ (D : Double) (info : UpstreamInfo) (throttling : ThrottlingConfig) (now : ℕ) where
  abbrev pub at : Loop → Running D
  at l = record (begin D single_request 80 443 throttling now) { loop = l }

  abbrev pub GoesTo : Running D → Running D → Type 0
  GoesTo = Reach D info false

  -- Both listeners wait for a connection.
  both_wait : GoesTo (at (listening testing testing)) (at (listening waiting waiting))
  unfolding effect react test_flag begin_accept
  both_wait =
      next
        (next
          (next
            (next here
              (loops (listening calling testing) (tests on_http refl refl) false (λ c. cc) refl))
            (loops (listening calling calling) (tests on_https refl refl) false (λ c. cc) refl))
          (loops (listening waiting calling) (calls on_http refl refl) false (λ c. cc) refl))
        (loops (listening waiting waiting) (calls on_https refl refl) false (λ c. cc) refl)

  abbrev pub one_dispatch : Running D
  one_dispatch = record (at (listening leaving waiting)) { dispatching = 1 }

  abbrev pub both_accepted : Running D
  both_accepted = secure D true (record one_dispatch { loop = listening leaving leaving })

  both_accept : GoesTo (at (listening waiting waiting)) both_accepted
  unfolding effect react on_accept is_single begin
  both_accept =
      next
        (next here (
          loops (listening leaving waiting) (accepts on_http success refl (inl refl) refl) false
            (λ c. cc) refl))
        (loops (listening leaving leaving) (accepts on_https success refl (inl refl) refl) true
          (λ c. cc) refl)

  abbrev pub shaken : HandshakeSession
  shaken = record { id = 1; shaking = true }

  -- Behind the dispatch of the one, and the handshake of the other.
  abbrev pub plain : Running D
  plain =
      dispatch D info (dispatch_http_request false success 0 []) true
        (record both_accepted { dispatching = 0 })

  abbrev pub both_served : Running D
  both_served = notify D info success (record plain { handshakes = finish_handshake shaken ∷ [] })

  both_serve : GoesTo both_accepted both_served
  unfolding begin boot secure shake begin_handshake ssl_handshake_step begin_session
      generate_session_id register_session dispatch launch dispatch_http_request construct start
  both_serve =
      next (next here (dispatches 0 success 0 [] true refl refl))
        (finishes [] [] shaken success refl refl refl)

  served_two : length both_served.system.sessions ≡ 2
  unfolding begin boot secure shake begin_handshake ssl_handshake_step begin_session
      generate_session_id register_session dispatch launch dispatch_http_request notify
  served_two = refl

  pub both_served_reached : GoesTo (at (listening testing testing)) both_served
  both_served_reached =
      Reach-trans D info false both_wait (Reach-trans D info false both_accept both_serve)

  -- The bound is met: with two different ports there is a run of the single-request mode in which two
  -- sessions are started, one for a connection on each port; for the listener that has accepted removes
  -- the acceptors only after the other may have accepted as well.
  pub single_request_twice :
      (http_port https_port : ℕ)
      → (https_port == http_port) ≡ false
      → (t : Running D) × Reach D info false
          (begin D single_request http_port https_port throttling now)
          t
        × (length t.system.sessions ≡ 2)
  unfolding begin
  single_request_twice http_port https_port h = (
    both_served,
    subst (λ (l : Loop). GoesTo (at l) both_served) (sym (two_ports http_port https_port h))
        both_served_reached,
    served_two,
  )
