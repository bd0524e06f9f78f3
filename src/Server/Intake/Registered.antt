-- ===== src/Server/Intake/Registered.antt =====
-- Which sessions are started, over any row of events.
use market_bridge.Base.{
  ℕ, ◌+◌, ◌%◌, ◌≤◌, ◌<◌, ◌≡◌, ◌≢◌, refl, ap, sym, inl, inr, Bool-cases, subst, ◌∙◌, Bool, true,
  false, List, [], ◌∷◌, ◌++◌, map, All, All-append, length, length-append, arith, if◌then◌else◌,
  ◌^◌,
}
use market_bridge.Session.ErrorCode.{ErrorCode, check_ec}
use market_bridge.Server.Registry.{register_session, IsDistinct}
use market_bridge.Server.Tls.{
  Dispatch, launch_http_session, ssl_handshake, drop_connection, dispatch_http_request, TlsContext,
  ssl_handshake_step,
}
use market_bridge.Server.Intake.{
  Started, http_session, https_session, handshake_session, id_of, Intake, begin_session,
  begin_handshake, on_handshake, follow, Event, http_connection, https_connection, handshake_done,
  take_event, take_events, opened,
}

-- What holds after at most `n` events, none of which wraps the counter around.
record IsKept (pending : Bool) (start n : ℕ) (s : Intake) : Type 0 where
  pending_same : s.registry.shutdown_pending ≡ pending
  registered : s.registry.sessions ≡ map id_of s.started
  below : All (λ id. id < s.counter) s.registry.sessions
  distinct : IsDistinct s.registry.sessions
  counter_le : s.counter ≤ start + n
  few : length s.started ≤ (if pending then 0 else n)

IsDistinct-append :
    (ids : List ℕ) (id : ℕ)
    → All (λ other. other < id) ids
    → IsDistinct ids
    → IsDistinct (ids ++ id ∷ [])
IsDistinct-append [] id b d = (tt, tt)
IsDistinct-append (j ∷ ids) id b d = (
  All-append (λ other. other ≢ j) ids (id ∷ []) d.0 (omega (arith, b.0), tt),
  IsDistinct-append ids id b.1 d.1,
)

All-below : (n m : ℕ) (ids : List ℕ) → n ≤ m → All (λ id. id < n) ids → All (λ id. id < m) ids
All-below n m [] h b = tt
All-below n m (id ∷ ids) h b = (omega (arith, b.0), All-below n m ids h b.1)

map-append :
    (xs : List Started) (x : Started) → map id_of (xs ++ x ∷ []) ≡ map id_of xs ++ id_of x ∷ []
map-append [] x = refl
map-append (y ∷ xs) x = ap (◌∷◌ (id_of y)) (map-append xs x)

with_tls-IsKept :
    (pending : Bool) (start n : ℕ) (tls : TlsContext) (s : Intake)
    → IsKept pending start n s
    → IsKept pending start n (record s { tls = tls })
with_tls-IsKept pending start n tls s h = record {
  pending_same = h.pending_same;
  registered = h.registered;
  below = h.below;
  distinct = h.distinct;
  counter_le = h.counter_le;
  few = h.few;
}

IsKept-weaken :
    (pending : Bool) (start n : ℕ) (s : Intake)
    → IsKept pending start n s
    → IsKept pending start (n + 1) s
IsKept-weaken pending start n s h = record {
  pending_same = h.pending_same;
  registered = h.registered;
  below = h.below;
  distinct = h.distinct;
  counter_le = omega (arith, h.counter_le);
  few = ground (arith, h.few);
}

begin_session-IsKept :
    (pending : Bool) (start n : ℕ) (kind : ℕ → Started) (s : Intake)
    → ((id : ℕ) → id_of (kind id) ≡ id)
    → start + n + 1 < 2 ^ 64
    → IsKept pending start n s
    → IsKept pending start (n + 1) (begin_session kind s)
unfolding begin_session register_session
begin_session-IsKept true start n kind s k room h =
    let small : (s.counter + 1) % 2 ^ 64 ≡ s.counter + 1 = omega (arith, h.counter_le) in
    rw (h.pending_same, small)
      (record {
        pending_same = refl;
        registered = h.registered;
        below = All-below s.counter (s.counter + 1) s.registry.sessions (omega arith) h.below;
        distinct = h.distinct;
        counter_le = omega (arith, h.counter_le);
        few = h.few;
      })
begin_session-IsKept false start n kind s k room h =
    let small : (s.counter + 1) % 2 ^ 64 ≡ s.counter + 1 = omega (arith, h.counter_le) in
    rw (h.pending_same, small)
      (record {
        pending_same = refl;
        registered =
            ap (λ ids. ids ++ s.counter ∷ []) h.registered
            ∙ ap (λ id. map id_of s.started ++ id ∷ []) (sym (k s.counter))
            ∙ sym (map-append s.started (kind s.counter));
        below =
            All-append (λ id. id < s.counter + 1) s.registry.sessions (s.counter ∷ [])
              (All-below s.counter (s.counter + 1) s.registry.sessions (omega arith) h.below)
              (omega arith, tt);
        distinct = IsDistinct-append s.registry.sessions s.counter h.below h.distinct;
        counter_le = omega (arith, h.counter_le);
        few = omega (arith, h.few, length-append s.started (kind s.counter ∷ []));
      })

id_of-handshake_session : (id : ℕ) → id_of (handshake_session id) ≡ id
unfolding id_of
id_of-handshake_session id = refl

module _ (pending : Bool) (start n : ℕ) (room : start + n + 1 < 2 ^ 64) where
  begin_handshake-IsKept :
      (initialized : Bool) (s : Intake)
      → IsKept pending start n s
      → IsKept pending start (n + 1) (begin_handshake initialized s)
  unfolding begin_handshake
  begin_handshake-IsKept initialized s h =
      let (tls, created) = ssl_handshake_step initialized s.tls in
      let same = with_tls-IsKept pending start n tls s h in
      elim (Bool-cases created) [
        | inl e ↦ rw e (
            begin_session-IsKept pending start n handshake_session (record s { tls = tls })
              id_of-handshake_session room same)
        | inr e ↦ rw e (IsKept-weaken pending start n (record s { tls = tls }) same)
      ]

  follow-IsKept :
      (d : Dispatch) (initialized : Bool) (s : Intake)
      → IsKept pending start n s
      → IsKept pending start (n + 1) (follow d initialized s)
  unfolding follow id_of
  follow-IsKept launch_http_session initialized s h =
      begin_session-IsKept pending start n http_session s (λ id. refl) room h
  follow-IsKept ssl_handshake initialized s h = begin_handshake-IsKept initialized s h
  follow-IsKept drop_connection initialized s h = IsKept-weaken pending start n s h

  on_handshake-IsKept :
      (ec : ErrorCode) (s : Intake)
      → IsKept pending start n s
      → IsKept pending start (n + 1) (on_handshake ec s)
  unfolding on_handshake id_of
  on_handshake-IsKept ec s h = elim (Bool-cases (check_ec ec)) [
    | inl e ↦ rw e (begin_session-IsKept pending start n https_session s (λ id. refl) room h)
    | inr e ↦ rw e (IsKept-weaken pending start n s h)
  ]

  take_event-IsKept :
      (allow_https : Bool) (e : Event) (s : Intake)
      → IsKept pending start n s
      → IsKept pending start (n + 1) (take_event allow_https e s)
  unfolding take_event
  take_event-IsKept allow_https (http_connection ec m buff initialized) s h =
      follow-IsKept (dispatch_http_request allow_https ec m buff) initialized s h
  take_event-IsKept allow_https (https_connection initialized) s h =
      begin_handshake-IsKept initialized s h
  take_event-IsKept allow_https (handshake_done ec) s h = on_handshake-IsKept ec s h

take_events-IsKept :
    (pending : Bool) (start n : ℕ) (allow_https : Bool) (es : List Event) (s : Intake)
    → start + n + length es < 2 ^ 64
    → IsKept pending start n s
    → IsKept pending start (n + length es) (take_events allow_https es s)
unfolding take_events
take_events-IsKept pending start n allow_https [] s room h =
    subst (λ m. IsKept pending start m s) (omega arith) h
take_events-IsKept pending start n allow_https (e ∷ es) s room h =
    subst (λ m. IsKept pending start m (take_events allow_https es (take_event allow_https e s)))
      (omega arith)
      (take_events-IsKept pending start (n + 1) allow_https es (take_event allow_https e s)
        (omega arith) (take_event-IsKept pending start n (omega arith) allow_https e s h))

-- Whatever connections arrive on both ports, whatever their peeks, the set-ups of TLS and the
-- handshakes bring: the sessions that are started are exactly the ones that are registered, in order,
-- under distinct identifiers; each event starts one at most, and with a shutdown pending none is
-- started. The 64-bit counter must not wrap around on the way.
pub intake_registered :
    (allow_https pending : Bool) (counter : ℕ) (es : List Event)
    → counter + length es < 2 ^ 64
    → let t = take_events allow_https es (opened pending counter) in
      (t.registry.sessions ≡ map id_of t.started)
      × IsDistinct t.registry.sessions
      × (length t.started ≤ (if pending then 0 else length es))
intake_registered allow_https pending counter es room =
    let h =
      take_events-IsKept pending counter 0 allow_https es (opened pending counter) (omega arith)
        (record {
          pending_same = refl;
          registered = refl;
          below = tt;
          distinct = tt;
          counter_le = omega arith;
          few = ground arith;
        }) in
    (h.registered, h.distinct, ground (arith, h.few))
