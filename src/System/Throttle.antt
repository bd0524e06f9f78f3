-- ===== src/System/Throttle.antt =====
-- What throttling promises the upstream server, over all sessions together.
use market_bridge.Base.{
  ℕ, ◌+◌, ◌-◌, ◌*◌, ◌≤◌, ◌≡◌, ◌∙◌, refl, Bool, true, false, List, [], ◌∷◌, ◌++◌, length, arith,
  if◌then◌else◌, inl, inr, Bool-cases,
}
use market_bridge.Config.{ThrottlingConfig}
use market_bridge.Session.Defs.{Op, UpstreamInfo, Session, construct}
use market_bridge.Session.Handlers.{start, stop}
use market_bridge.Session.Steps.{Completion}
use market_bridge.Server.Registry.{register_session}
use market_bridge.Server.Limiter.{token_bucket, allow_request, init_rate_limiter}
use market_bridge.TokenBucket.{TokenBucket, make, allow}
use market_bridge.TokenBucket.Floats.{exact, billion}
use market_bridge.TokenBucket.Rate.{IsLimiter, make-IsLimiter, allow_cost, rate_split}
use market_bridge.System.{
  asks_limiter, System, boot, launch, advance, Step, launches, handshakes, advances, flags, stops,
  Reach, here, next,
}
use market_bridge.System.Debts.{debts, debts-append, debts_replace, debts-advance}

-- The bucket of the limiter, and what its tokens have paid for.
record IsThrottled (rps burst begin : ℕ) (s : System exact) (b : TokenBucket exact) : Type 0 where
  limiter : s.limiter ≡ token_bucket b
  settings : IsLimiter rps burst b
  begun : begin ≤ b.last_refill
  past : b.last_refill ≤ s.clock
  paid : billion * debts s.sessions + b.tokens ≤ billion * burst + rps * (b.last_refill - begin)

-- One call of the limiter.
paid_step :
    (allowed : Bool) (old new tokens left burst rps begin last now : ℕ)
    → begin ≤ last
    → last ≤ now
    → new ≤ old + (if allowed then 1 else 0)
    → (if allowed then billion else 0) + left ≤ tokens + rps * (now - last)
    → billion * old + tokens ≤ billion * burst + rps * (last - begin)
    → billion * new + left ≤ billion * burst + rps * (now - begin)
paid_step true old new tokens left burst rps begin last now b l n c p =
    omega (arith, rate_split rps begin last now b l)
paid_step false old new tokens left burst rps begin last now b l n c p =
    omega (arith, rate_split rps begin last now b l)

module _ (rps burst begin : ℕ) (info : UpstreamInfo) where
  abbrev Throttled : System exact → Type 0
  Throttled s = (b : TokenBucket exact) × IsThrottled rps burst begin s b

  advance-Throttled :
      (now : ℕ) (before after : List Session) (x : Session) (first : List Op) (op : Op)
      (rest : List Op) (k : Completion) (s : System exact)
      → s.clock ≤ now
      → s.sessions ≡ before ++ x ∷ after
      → x.pending ≡ first ++ op ∷ rest
      → Throttled s
      → Throttled (advance exact now before op k (record x { pending = first ++ rest }) after s)
  unfolding advance allow_request
  advance-Throttled now before after x first op rest k s later e p (b, h) =
      let x' = record x { pending = first ++ rest } in
      let (cost, kept, last) = allow_cost rps burst b now h.settings in
      elim (Bool-cases (asks_limiter op k x')) [
        | inl a ↦ (
          (allow exact b now).0,
          rw (a, h.limiter)
              (record {
                limiter = refl;
                settings = kept;
                begun = omega (arith, last, h.begun, h.past);
                past = omega (arith, last);
                paid = rw last (
                    paid_step (allow exact b now).1 (debts s.sessions) _ b.tokens
                      (allow exact b now).0.tokens burst rps begin b.last_refill now h.begun
                      (omega (arith, h.past))
                      (debts-advance s.sessions before after x first op rest k (allow exact b now).1
                        true e p a)
                      cost h.paid);
              }),
        )
        | inr a ↦ (
          b,
          rw a (record {
            limiter = h.limiter;
            settings = h.settings;
            begun = h.begun;
            past = omega (arith, h.past);
            paid = omega (
              arith,
              h.paid,
              debts-advance s.sessions before after x first op rest k k.allowed false e p a,
            );
          }),
        )
      ]

  launch-Throttled :
      (secure : Bool) (s : System exact) → Throttled s → Throttled (launch exact info secure s)
  unfolding launch start construct
  launch-Throttled secure s (b, h) =
      let begun = start (construct s.intake.counter info) in
      elim (Bool-cases (register_session s.intake.registry s.intake.counter).1) [
        | inl e ↦ (
          b,
          rw e (record {
            limiter = h.limiter;
            settings = h.settings;
            begun = h.begun;
            past = h.past;
            paid = omega (arith, h.paid, debts-append s.sessions (begun ∷ []));
          }),
        )
        | inr e ↦ (
          b,
          rw e (record {
            limiter = h.limiter;
            settings = h.settings;
            begun = h.begun;
            past = h.past;
            paid = h.paid;
          }),
        )
      ]

  -- A system with the same limiter, clock and debts.
  same-Throttled :
      (s t : System exact)
      → t.limiter ≡ s.limiter
      → t.clock ≡ s.clock
      → debts t.sessions ≡ debts s.sessions
      → Throttled s
      → Throttled t
  same-Throttled s t l c d (b, h) = (
    b,
    record {
      limiter = l ∙ h.limiter;
      settings = h.settings;
      begun = h.begun;
      past = omega (arith, h.past, c);
      paid = omega (arith, h.paid, d);
    },
  )

  Step-Throttled : (s t : System exact) → Step exact info s t → Throttled s → Throttled t
  unfolding stop
  Step-Throttled s t (launches secure q) h = rw q (launch-Throttled secure s h)
  Step-Throttled s t (handshakes initialized q) h = rw q (same-Throttled s _ refl refl refl h)
  Step-Throttled s t (advances now before after x first op rest k later e p q) h =
      rw q (advance-Throttled now before after x first op rest k s later e p h)
  Step-Throttled s t (flags q) h = rw q (same-Throttled s _ refl refl refl h)
  Step-Throttled s t (stops before after x flag e q) h = rw q (
      same-Throttled s (record s { sessions = before ++ stop x ∷ after }) refl refl
        (omega (arith, debts_replace s.sessions before x (stop x) after e)) h)

  Reach-Throttled : (s t : System exact) → Reach exact info s t → Throttled s → Throttled t
  Reach-Throttled s t here h = h
  Reach-Throttled s u (next {t} r st) h = Step-Throttled t u st (Reach-Throttled s t r h)

-- The requests that all sessions have sent upstream.
abbrev pub forwarded_total : List Session → ℕ
forwarded_total [] = 0
forwarded_total (x ∷ xs) = length x.forwarded + forwarded_total xs

forwarded_total-le : (xs : List Session) → forwarded_total xs ≤ debts xs
forwarded_total-le [] = omega arith
forwarded_total-le (x ∷ xs) = omega (arith, forwarded_total-le xs)

-- The upstream server is protected: with throttling enabled, and in exact arithmetic, all sessions of
-- the server together have sent it no more requests than the burst size and the rate times the time
-- since the start, here in billionths; whatever clients send, however many connect, and in whatever
-- order the operations of all sessions complete at times that do not run backwards.
pub upstream_protected :
    (throttling : ThrottlingConfig) (begin : ℕ) (info : UpstreamInfo) (t : System exact)
    → throttling.enabled ≡ true
    → Reach exact info (boot exact throttling begin) t
    → billion * forwarded_total t.sessions
      ≤ billion * throttling.burst_size + throttling.requests_per_second * (t.clock - begin)
unfolding boot init_rate_limiter make
upstream_protected throttling begin info t enabled r =
    let rps = throttling.requests_per_second in
    let burst = throttling.burst_size in
    let bucket = make exact (rps * billion) (burst * billion) begin in
    let initial : Throttled rps burst begin info (boot exact throttling begin) = (
      bucket,
      record {
        limiter = rw enabled refl;
        settings = make-IsLimiter rps burst begin;
        begun = omega arith;
        past = omega arith;
        paid = omega arith;
      },
    ) in
    let (b, h) = Reach-Throttled rps burst begin info (boot exact throttling begin) t r initial in
    omega (
      arith,
      h.paid,
      forwarded_total-le t.sessions,
      rate_split rps begin b.last_refill t.clock h.begun h.past,
    )
