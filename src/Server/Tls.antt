-- ===== src/Server/Tls.antt =====
-- Telling TLS from plain HTTP on the HTTP port, and the one-time set-up of the TLS context.
use market_bridge.Base.{
  ℕ, ◌+◌, ◌≤◌, ◌≡◌, ◌≢◌, ◌↔◌, refl, Bool, true, false, not, ◌&&◌, List, [], ◌∷◌, leb, equal,
  equal_iff, arith, if◌then◌else◌, Bytes,
}
use market_bridge.Session.ErrorCode.{ErrorCode, success, check_ec}

-- What dispatch_http_request does with a connection.
pub data Dispatch : Type 0 where
  launch_http_session ssl_handshake drop_connection : Dispatch

abbrev pub tls_handshake_sign : Bytes
tls_handshake_sign = 0x16 ∷ 0x03 ∷ []

-- `buff` is the array of two bytes behind async_receive, `n` the number of bytes received.
unfoldable pub is_tls : ℕ → Bytes → Bool
is_tls n buff = leb 2 n && equal buff tls_handshake_sign

unfoldable pub dispatch_http_request : Bool → ErrorCode → ℕ → Bytes → Dispatch
unfolding check_ec is_tls
dispatch_http_request allow_https ec n buff =
    if not allow_https
    then launch_http_session
    else if not (check_ec ec)
    then drop_connection
    else if is_tls n buff
    then ssl_handshake
    else launch_http_session

-- A connection on the HTTP port is handed to the TLS handshake exactly if that is allowed, the peek
-- succeeded with two bytes at least, and these are 0x16 0x03; it is dropped exactly if that is allowed
-- and the peek failed; it is plain HTTP otherwise.
pub dispatch_http_request_iff :
    (allow_https : Bool) (ec : ErrorCode) (n : ℕ) (buff : Bytes)
    → ((dispatch_http_request allow_https ec n buff ≡ ssl_handshake)
        ↔ ((allow_https ≡ true) × (ec ≡ success) × (2 ≤ n) × (buff ≡ tls_handshake_sign)))
      × ((dispatch_http_request allow_https ec n buff ≡ drop_connection)
          ↔ ((allow_https ≡ true) × (ec ≢ success)))
unfolding dispatch_http_request
dispatch_http_request_iff allow_https ec n buff = (
  (
    λ h. ground (arith, equal_iff buff tls_handshake_sign),
    λ h. ground (arith, equal_iff buff tls_handshake_sign),
  ),
  (
    λ h. ground (arith, equal_iff buff tls_handshake_sign),
    λ h. ground (arith, equal_iff buff tls_handshake_sign),
  ),
)

-- ssl_context_init_flag_ and the context: whether the flag is spent, how often init_ssl_context has
-- run, and whether the context is configured.
pub record TlsContext : Type 0 where
  pub flag_spent : Bool
  pub attempts : ℕ
  pub configured : Bool

-- Server::ssl_handshake, under handshake_mtx_: the context behind it, and whether a HandshakeSession
-- is created. `initialized` is the result of init_ssl_context, should it run. Where it fails, the flag
-- is emplaced anew.
unfoldable pub ssl_handshake_step : Bool → TlsContext → TlsContext × Bool
ssl_handshake_step initialized c =
    if c.flag_spent
    then (c, true)
    else if initialized
    then (record { flag_spent = true; attempts = c.attempts + 1; configured = true }, true)
    else (record c { attempts = c.attempts + 1 }, false)

abbrev pub fresh_context : TlsContext
fresh_context = record { flag_spent = false; attempts = 0; configured = false }

-- The handshakes of a row of connections, with the result that init_ssl_context would have at each.
unfoldable pub handshakes : List Bool → TlsContext → TlsContext × List Bool
unfolding ssl_handshake_step
handshakes [] c = (c, [])
handshakes (initialized ∷ rest) c =
    let (c', created) = ssl_handshake_step initialized c in
    let (c'', others) = handshakes rest c' in (c'', created ∷ others)

-- Whether a connection gets a handshake: if this or an earlier set-up succeeds.
abbrev pub succeeded : Bool → List Bool → List Bool
succeeded before [] = []
succeeded before (initialized ∷ rest) =
    (if before then true else initialized) ∷ succeeded (if before then true else initialized) rest

-- The number of set-ups that run: one for each connection up to the first that succeeds.
abbrev pub tries : List Bool → ℕ
tries [] = 0
tries (true ∷ rest) = 1
tries (false ∷ rest) = 1 + tries rest

spent_lem :
    (results : List Bool) (c : TlsContext)
    → c.flag_spent ≡ true
    → handshakes results c ≡ (c, succeeded true results)
unfolding handshakes
spent_lem [] c e = refl
spent_lem (initialized ∷ rest) c e = ground (arith, spent_lem rest c e)

-- A set-up that fails is tried again at the next connection, and the first that succeeds is the last:
-- a connection gets a handshake exactly if its own set-up or an earlier one succeeds, and the set-up
-- runs once for each connection up to that one and never after it.
pub handshakes_exact :
    (results : List Bool) (c : TlsContext)
    → c.flag_spent ≡ false
    → ((handshakes results c).1 ≡ succeeded false results)
      × ((handshakes results c).0.attempts ≡ c.attempts + tries results)
unfolding handshakes
handshakes_exact [] c e = (refl, omega arith)
handshakes_exact (true ∷ rest) c e = ground (
  arith,
  spent_lem rest (record { flag_spent = true; attempts = c.attempts + 1; configured = true }) refl,
)
handshakes_exact (false ∷ rest) c e =
    ground (arith, handshakes_exact rest (record c { attempts = c.attempts + 1 }) e)
