-- ===== src/TokenBucket.antt =====
-- tocken-bucket.h and tocken-bucket.cpp. A call holds the bucket's mutex from its first to its last
-- line, so the calls on one bucket are a sequence; the steady clock is an argument of each, in
-- nanoseconds.
pub mod Floats
pub mod Bounds
pub mod Rate
use market_bridge.Base.{ℕ, ◌-◌, Bool, true, false, if◌then◌else◌, List, [], ◌∷◌}
use Floats.{Double}

module _ (D : Double) where
  open D use {Num, of_nat, add, sub, mul, ltb, seconds}

  pub record TokenBucket : Type 0 where
    pub rate : Num
    pub capacity : Num
    pub tokens : Num
    pub last_refill : ℕ

  -- The constructor.
  unfoldable pub make : Num → Num → ℕ → TokenBucket
  make rate capacity now = record {
    rate = rate;
    capacity = capacity;
    tokens = capacity;
    last_refill = now;
  }

  -- std::min(a, b)
  abbrev pub std_min : Num → Num → Num
  std_min a b = if ltb b a then b else a

  unfoldable pub refill : TokenBucket → ℕ → TokenBucket
  refill b now = record b {
    tokens = std_min b.capacity (add b.tokens (mul (seconds (now - b.last_refill)) b.rate));
    last_refill = now;
  }

  -- Whether a token is there, `tokens_ >= 1`.
  abbrev pub has_token : TokenBucket → Bool
  has_token b = if ltb b.tokens (of_nat 1) then false else true

  unfoldable pub allow : TokenBucket → ℕ → TokenBucket × Bool
  unfolding refill
  allow b now =
      let b' = refill b now in
      if has_token b' then (record b' { tokens = sub b'.tokens (of_nat 1) }, true) else (b', false)

  unfoldable pub reset : TokenBucket → ℕ → TokenBucket
  reset b now = record b { tokens = b.capacity; last_refill = now }

  -- A call of the bucket, with the time of the clock.
  pub data Call : Type 0 where
    allows resets : ℕ → Call

  unfoldable pub step : TokenBucket → Call → TokenBucket
  step b (allows now) = (allow b now).0
  step b (resets now) = reset b now

  unfoldable pub run : TokenBucket → List Call → TokenBucket
  unfolding step
  run b [] = b
  run b (c ∷ cs) = run (step b c) cs
