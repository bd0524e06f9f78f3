-- ===== src/Server/Limiter.antt =====
-- common/rate-limiter.h and Server::init_rate_limiter: a token bucket, or no limit.
use market_bridge.Base.{
  ℕ, ◌+◌, ◌*◌, ◌-◌, ◌≤◌, ◌≡◌, refl, Bool, true, false, List, [], ◌∷◌, length, arith, if◌then◌else◌,
}
use market_bridge.Config.{ThrottlingConfig}
use market_bridge.TokenBucket.Floats.{Double, exact, billion}
use market_bridge.TokenBucket.{TokenBucket, make, allow}
use market_bridge.TokenBucket.Rate.{
  serve, Ascends, last_time, make-IsLimiter, admitted_le, burst_admitted,
}

module _ (D : Double) where
  -- RateLimiter: the virtual call is by the class of the object.
  pub data RateLimiter : Type 0 where
    token_bucket : TokenBucket D → RateLimiter
    unlimited : RateLimiter

  unfoldable pub allow_request : RateLimiter → ℕ → RateLimiter × Bool
  allow_request (token_bucket b) now =
      let (b', allowed) = allow D b now in (token_bucket b', allowed)
  allow_request unlimited now = (unlimited, true)

  unfoldable pub init_rate_limiter : ThrottlingConfig → ℕ → RateLimiter
  init_rate_limiter t now =
      if t.enabled
      then token_bucket (make D (D.of_nat t.requests_per_second) (D.of_nat t.burst_size) now)
      else unlimited

  -- The number of requests admitted of those that come at these times.
  pub admitted : RateLimiter → List ℕ → ℕ
  admitted l [] = 0
  admitted l (now ∷ ts) =
      let (l', allowed) = allow_request l now in (if allowed then 1 else 0) + admitted l' ts

abbrev fresh : ThrottlingConfig → ℕ → TokenBucket exact
fresh t now = make exact (t.requests_per_second * billion) (t.burst_size * billion) now

admitted-serve :
    (b : TokenBucket exact) (ts : List ℕ) → admitted exact (token_bucket b) ts ≡ (serve b ts).0
unfolding admitted allow_request
admitted-serve b [] = refl
admitted-serve b (now ∷ ts) = ground (arith, admitted-serve (allow exact b now).0 ts)

admitted_unlimited : (ts : List ℕ) → admitted exact unlimited ts ≡ length ts
unfolding admitted allow_request
admitted_unlimited [] = refl
admitted_unlimited (now ∷ ts) = omega (arith, admitted_unlimited ts)

-- With throttling disabled every request is admitted.
unthrottled_admits_all :
    (t : ThrottlingConfig) (now : ℕ) (ts : List ℕ)
    → t.enabled ≡ false
    → admitted exact (init_rate_limiter exact t now) ts ≡ length ts
unfolding init_rate_limiter
unthrottled_admits_all t now ts e = rw e (admitted_unlimited ts)

-- With throttling enabled, and in exact arithmetic, the requests admitted of those that come at
-- ascending times from the start of the server on are at most the burst size and the rate times the
-- nanoseconds that have passed, in billionths.
pub throttled_admits_le :
    (t : ThrottlingConfig) (now : ℕ) (ts : List ℕ)
    → t.enabled ≡ true
    → Ascends now ts
    → billion * admitted exact (init_rate_limiter exact t now) ts
      ≤ billion * t.burst_size + t.requests_per_second * (last_time now ts - now)
unfolding init_rate_limiter make
throttled_admits_le t now ts e a = rw e (
    rw (admitted-serve (fresh t now) ts) (
      admitted_le t.requests_per_second t.burst_size now (fresh t now) ts
        (make-IsLimiter t.requests_per_second t.burst_size now) refl a))

-- With throttling enabled, and in exact arithmetic, no request is refused while there have been no
-- more than the burst size.
pub throttled_burst_admitted :
    (t : ThrottlingConfig) (now : ℕ) (ts : List ℕ)
    → t.enabled ≡ true
    → length ts ≤ t.burst_size
    → admitted exact (init_rate_limiter exact t now) ts ≡ length ts
unfolding init_rate_limiter make
throttled_burst_admitted t now ts e few = rw e (
    rw (admitted-serve (fresh t now) ts) (
      burst_admitted t.requests_per_second t.burst_size (fresh t now) ts
        (make-IsLimiter t.requests_per_second t.burst_size now) few (grind arith)))
