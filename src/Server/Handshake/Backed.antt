-- ===== src/Server/Handshake/Backed.antt =====
-- What stands behind an HTTPS session.
use market_bridge.Base.{
  ℕ, ◌+◌, ◌≤◌, ◌≡◌, refl, ap, Bool, List, [], ◌∷◌, ◌++◌, length, length-append, if◌then◌else◌,
  arith,
}
use market_bridge.Session.ErrorCode.{ErrorCode, success, check_ec}
use market_bridge.Server.Registry.{register_session, generate_session_id}
use market_bridge.Server.Tls.{ssl_handshake_step}
use market_bridge.Server.Intake.{
  Intake, Started, http_session, https_session, handshake_session, begin_session, begin_handshake,
  on_handshake, opened,
}
use market_bridge.Server.Handshake.{
  HandshakeSession, Secured, construct, start, stop, finish_handshake, shake, connects, shakes,
  finishes, flags, stops, Reach, here, next,
}

-- How many HTTPS sessions, and how many handshake sessions, were started; and how many of the latter
-- have an outstanding handshake.
abbrev pub is_https : Started → ℕ
is_https (https_session id) = 1
is_https _ = 0

abbrev pub is_handshake : Started → ℕ
is_handshake (handshake_session id) = 1
is_handshake _ = 0

abbrev pub count : {A : Type 0} → (A → ℕ) → List A → ℕ
count weight [] = 0
count weight (x ∷ xs) = weight x + count weight xs

abbrev pub outstanding : HandshakeSession → ℕ
outstanding h = if h.shaking then 1 else 0

-- How many handshakes of a run have ended with success, as the environment has it.
abbrev pub success_of : ErrorCode → ℕ
success_of success = 1
success_of _ = 0

abbrev pub successes : {s t : Secured} → Reach s t → ℕ
successes here = 0
successes (next r (finishes before after h ec shaking e q)) = successes r + success_of ec
successes (next r (connects q)) = successes r
successes (next r (shakes initialized q)) = successes r
successes (next r (flags q)) = successes r
successes (next r (stops before after h e q)) = successes r

pub count-append :
    {A : Type 0} (weight : A → ℕ) (xs ys : List A)
    → count weight (xs ++ ys) ≡ count weight xs + count weight ys
count-append weight [] ys = omega arith
count-append weight (x ∷ xs) ys = omega (arith, count-append weight xs ys)

-- Each HTTPS session has had a successful handshake of its own, of `n` that have succeeded.
record IsBacked (s : Secured) (n : ℕ) : Type 0 where
  same : count is_handshake s.intake.started ≡ length s.handshakes
  ended : n + count outstanding s.handshakes ≤ length s.handshakes
  backed : count is_https s.intake.started ≤ n

begin_session-count :
    (weight : Started → ℕ) (kind : ℕ → Started) (s : Intake)
    → count weight (begin_session kind s).started
      ≡ count weight s.started
        + (if (register_session s.registry s.counter).1 then weight (kind s.counter) else 0)
unfolding begin_session generate_session_id register_session
begin_session-count weight kind s =
    ground (arith, count-append weight s.started (kind s.counter ∷ []))

shake-IsBacked :
    (initialized : Bool) (s : Secured) (n : ℕ) → IsBacked s n → IsBacked (shake initialized s) n
unfolding shake begin_handshake ssl_handshake_step
shake-IsBacked initialized s n h =
    let (tls, created) = ssl_handshake_step initialized s.intake.tls in
    let one = start (construct s.intake.counter) in
    let i : Intake = record s.intake { tls = tls } in
    let longer = length-append s.handshakes (one ∷ []) in
    record {
      same = ground (arith, h.same, begin_session-count is_handshake handshake_session i, longer);
      ended = ground (arith, h.ended, longer, count-append outstanding s.handshakes (one ∷ []));
      backed = ground (arith, h.backed, begin_session-count is_https handshake_session i);
    }

-- One handshake session of several changes.
pub replace-length :
    (all before : List HandshakeSession) (h k : HandshakeSession) (after : List HandshakeSession)
    → all ≡ before ++ h ∷ after
    → length (before ++ k ∷ after) ≡ length all
replace-length all before h k after e =
    omega (arith, ap length e, length-append before (h ∷ after), length-append before (k ∷ after))

replace-count :
    (all before : List HandshakeSession) (h k : HandshakeSession) (after : List HandshakeSession)
    → all ≡ before ++ h ∷ after
    → count outstanding (before ++ k ∷ after) + outstanding h
      ≡ count outstanding all + outstanding k
replace-count all before h k after e = omega (
  arith,
  ap (count outstanding) e,
  count-append outstanding before (h ∷ after),
  count-append outstanding before (k ∷ after),
)

on_handshake-count :
    (ec : ErrorCode) (s : Intake)
    → (count is_https (on_handshake ec s).started ≤ count is_https s.started + success_of ec)
      × (count is_handshake (on_handshake ec s).started ≡ count is_handshake s.started)
unfolding on_handshake check_ec
on_handshake-count success s = (
  ground (arith, begin_session-count is_https https_session s),
  ground (arith, begin_session-count is_handshake https_session s),
)
on_handshake-count _ s = (omega arith, refl)

success_of-le : (ec : ErrorCode) → success_of ec ≤ 1
success_of-le success = omega arith
success_of-le _ = omega arith

Reach-IsBacked : (s t : Secured) (r : Reach s t) → IsBacked s 0 → IsBacked t (successes r)
unfolding stop finish_handshake
Reach-IsBacked s t here h = h
Reach-IsBacked s u (next {t} r (connects q)) h =
    let b = Reach-IsBacked s t r h in
    rw q (record {
      same = ground (arith, b.same, begin_session-count is_handshake http_session t.intake);
      ended = b.ended;
      backed = ground (arith, b.backed, begin_session-count is_https http_session t.intake);
    })
Reach-IsBacked s u (next {t} r (shakes initialized q)) h =
    rw q (shake-IsBacked initialized t (successes r) (Reach-IsBacked s t r h))
Reach-IsBacked s u (next {t} r (finishes before after x ec shaking e q)) h =
    let b = Reach-IsBacked s t r h in
    let y = finish_handshake x in
    let (https, same) = on_handshake-count ec t.intake in
    let longer = replace-length t.handshakes before x y after e in
    let fewer = replace-count t.handshakes before x y after e in
    rw q (record {
      same = omega (arith, b.same, same, longer);
      ended = ground (arith, b.ended, longer, fewer, shaking, success_of-le ec);
      backed = omega (arith, b.backed, https);
    })
Reach-IsBacked s u (next {t} r (flags q)) h =
    let b = Reach-IsBacked s t r h in
    rw q (record { same = b.same; ended = b.ended; backed = b.backed })
Reach-IsBacked s u (next {t} r (stops before after x e q)) h =
    let b = Reach-IsBacked s t r h in
    let longer = replace-length t.handshakes before x (stop x) after e in
    rw q (record {
      same = omega (arith, b.same, longer);
      ended = omega (arith, b.ended, longer, replace-count t.handshakes before x (stop x) after e);
      backed = b.backed;
    })

-- Every HTTPS session has had a successful handshake of its own: whatever connects, however handshakes
-- end and whenever a shutdown comes, the HTTPS sessions started are at most as many as the handshakes
-- of the run that have ended without an error, and these with those still outstanding at most as many
-- as the handshake sessions that were started.
pub https_backed :
    (pending : Bool) (counter : ℕ) (t : Secured)
    (r : Reach (record { intake = opened pending counter; handshakes = [] }) t)
    → (count is_https t.intake.started ≤ successes r)
      × (successes r + count outstanding t.handshakes ≤ count is_handshake t.intake.started)
https_backed pending counter t r =
    let h =
      Reach-IsBacked _ t r (record { same = refl; ended = omega arith; backed = omega arith }) in
    (h.backed, omega (arith, h.same, h.ended))
