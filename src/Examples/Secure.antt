-- ===== src/Examples/Secure.antt =====
-- The set-up of TLS and handshakes at concrete inputs.
use market_bridge.Base.{◌+◌, ◌≤◌, ◌≡◌, refl, true, false, [], ◌∷◌}
use market_bridge.Session.ErrorCode.{success}
use market_bridge.Server.Registry.{generate_session_id, register_session}
use market_bridge.Server.Intake.{
  https_session, handshake_session, on_handshake, begin_session, begin_handshake, opened,
}
use market_bridge.Server.Handshake
use market_bridge.Server.Handshake.{
  HandshakeSession, Secured, shake, construct, start, finish_handshake, shakes, finishes,
}
use market_bridge.Server.Handshake.Backed.{count, is_https, is_handshake, outstanding, https_backed}
use market_bridge.Server.Tls.{ssl_handshake_step}

-- A connection that opens with TLS, and the success of its handshake.
abbrev unsecured : Secured
unsecured = record { intake = opened false 1; handshakes = [] }

abbrev shaken : HandshakeSession
shaken = record { id = 1; shaking = true }

abbrev secured : Secured
secured = record {
  intake = on_handshake success (shake true unsecured).intake;
  handshakes = finish_handshake shaken ∷ [];
}

secured_reached : Handshake.Reach unsecured secured
unfolding shake begin_handshake ssl_handshake_step register_session construct start begin_session
    generate_session_id
secured_reached =
    Handshake.next (Handshake.next Handshake.here (shakes true refl))
      (finishes [] [] shaken success refl refl refl)

https_backed_example :
    (count is_https secured.intake.started ≤ 1)
    × (1 + count outstanding secured.handshakes ≤ count is_handshake secured.intake.started)
unfolding secured_reached
https_backed_example = https_backed false 1 secured secured_reached

secured_started : secured.intake.started ≡ handshake_session 1 ∷ https_session 2 ∷ []
unfolding shake begin_handshake ssl_handshake_step register_session construct start begin_session
    generate_session_id on_handshake
secured_started = refl
