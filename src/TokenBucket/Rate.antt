-- ===== src/TokenBucket/Rate.antt =====
-- How many requests the bucket admits, in exact arithmetic.
use market_bridge.Base.{
  ℕ, suc, ◌+◌, ◌-◌, ◌*◌, ◌/◌, ◌≤◌, ◌≡◌, refl, ap, Bool, true, false, List, [], ◌∷◌, arith,
  if◌then◌else◌, length,
}
use market_bridge.TokenBucket.Floats.{exact, billion}
use market_bridge.TokenBucket.{TokenBucket, make, allow}

-- The requests of a sequence that are admitted, and the bucket behind them.
abbrev pub serve : TokenBucket exact → List ℕ → ℕ × TokenBucket exact
serve b [] = (0, b)
serve b (now ∷ ts) =
    let (n, b') = serve (allow exact b now).0 ts in
    ((if (allow exact b now).1 then n + 1 else n), b')

-- The times do not run backwards.
abbrev pub Ascends : ℕ → List ℕ → Type 0
Ascends start [] = Unit
Ascends start (now ∷ ts) = (start ≤ now) × Ascends now ts

abbrev pub last_time : ℕ → List ℕ → ℕ
last_time start [] = start
last_time start (now ∷ ts) = last_time now ts

-- Rate and capacity are whole numbers of requests, and the bucket is not over its capacity.
pub record IsLimiter (rps burst : ℕ) (b : TokenBucket exact) : Type 0 where
  pub rate : b.rate ≡ rps * billion
  pub capacity : b.capacity ≡ burst * billion
  pub upper : b.tokens ≤ burst * billion

-- The refill of `d` nanoseconds at `r` requests a second.
gain : (d r : ℕ) → d * (r * billion) / billion ≡ r * d
gain d r = omega arith

-- The tokens that one call leaves, and the one that it spends.
pub allow_cost :
    (rps burst : ℕ) (b : TokenBucket exact) (now : ℕ)
    → IsLimiter rps burst b
    → ((if (allow exact b now).1 then billion else 0) + (allow exact b now).0.tokens
        ≤ b.tokens + rps * (now - b.last_refill))
      × IsLimiter rps burst (allow exact b now).0
      × ((allow exact b now).0.last_refill ≡ now)
unfolding allow
allow_cost rps burst b now h =
    let g : (now - b.last_refill) * b.rate / billion ≡ rps * (now - b.last_refill) =
      rw h.rate (gain (now - b.last_refill) rps) in
    (
      ground (arith, g),
      record { rate = ground arith; capacity = ground arith; upper = ground arith },
      ground arith,
    )

last_time-ge : (start : ℕ) (ts : List ℕ) → Ascends start ts → start ≤ last_time start ts
last_time-ge start [] a = omega arith
last_time-ge start (now ∷ ts) a = omega (arith, last_time-ge now ts a.1)

-- Two stretches of time add up.
pub rate_split :
    (r s now last : ℕ) → s ≤ now → now ≤ last → r * (last - s) ≡ r * (now - s) + r * (last - now)
rate_split r s now last h k =
    let split : last - s ≡ (now - s) + (last - now) = omega arith in rw split (omega arith)

combine :
    (admitted : Bool) (n left tokens before r s now last : ℕ)
    → s ≤ now
    → now ≤ last
    → billion * n + left ≤ tokens + r * (last - now)
    → (if admitted then billion else 0) + tokens ≤ before + r * (now - s)
    → billion * (if admitted then n + 1 else n) + left ≤ before + r * (last - s)
combine true n left tokens before r s now last h k p q = omega (arith, rate_split r s now last h k)
combine false n left tokens before r s now last h k p q = omega (arith, rate_split r s now last h k)

-- In any window of requests at ascending times, from any state of a bucket that is not over its
-- capacity: a billion for each request admitted and the billionths of tokens left at the end are no
-- more than the tokens at the start and the rate times the nanoseconds that have passed.
pub serve_cost :
    (rps burst start : ℕ) (b : TokenBucket exact) (ts : List ℕ)
    → IsLimiter rps burst b
    → b.last_refill ≡ start
    → Ascends start ts
    → billion * (serve b ts).0 + (serve b ts).1.tokens
      ≤ b.tokens + rps * (last_time start ts - start)
serve_cost rps burst start b [] h e a = omega arith
serve_cost rps burst start b (now ∷ ts) h e a =
    let (cost, kept, later) = allow_cost rps burst b now h in
    combine (allow exact b now).1 (serve (allow exact b now).0 ts).0
      (serve (allow exact b now).0 ts).1.tokens (allow exact b now).0.tokens b.tokens rps start now
      (last_time now ts) a.0 (last_time-ge now ts a.1)
      (serve_cost rps burst now (allow exact b now).0 ts kept later a.1)
      (omega (arith, cost, ap (λ (s : ℕ). rps * (now - s)) e))

-- The limit that throttling promises: in any window of requests at ascending times, from any state of
-- a bucket with these settings that is not over its capacity, the number of requests admitted is at
-- most the burst size plus the rate times the length of the window, here in billionths.
pub admitted_le :
    (rps burst start : ℕ) (b : TokenBucket exact) (ts : List ℕ)
    → IsLimiter rps burst b
    → b.last_refill ≡ start
    → Ascends start ts
    → billion * (serve b ts).0 ≤ billion * burst + rps * (last_time start ts - start)
admitted_le rps burst start b ts h e a =
    omega (arith, serve_cost rps burst start b ts h e a, h.upper)

-- A fresh bucket of the configured settings.
pub make-IsLimiter :
    (rps burst now : ℕ) → IsLimiter rps burst (make exact (rps * billion) (burst * billion) now)
unfolding make
make-IsLimiter rps burst now = record { rate = refl; capacity = refl; upper = omega arith }

-- A request is admitted if the tokens left and those earned since the last call make one whole token
-- and the capacity holds one.
pub allow_of_token :
    (rps burst : ℕ) (b : TokenBucket exact) (now : ℕ)
    → IsLimiter rps burst b
    → 1 ≤ burst
    → billion ≤ b.tokens + rps * (now - b.last_refill)
    → (allow exact b now).1 ≡ true
unfolding allow
allow_of_token rps burst b now h one enough =
    let g : (now - b.last_refill) * b.rate / billion ≡ rps * (now - b.last_refill) =
      rw h.rate (gain (now - b.last_refill) rps) in
    ground (arith, g)

allow_keeps :
    (rps burst n : ℕ) (b : TokenBucket exact) (now : ℕ)
    → IsLimiter rps burst b
    → suc n ≤ burst
    → suc n * billion ≤ b.tokens
    → n * billion ≤ (allow exact b now).0.tokens
unfolding allow
allow_keeps rps burst n b now h room enough = ground (arith, h.capacity)

-- No request of a burst is refused: from a bucket that holds at least as many whole tokens as there
-- are requests, all of them are admitted, whatever their times; a fresh bucket holds its burst size.
pub burst_admitted :
    (rps burst : ℕ) (b : TokenBucket exact) (ts : List ℕ)
    → IsLimiter rps burst b
    → length ts ≤ burst
    → length ts * billion ≤ b.tokens
    → (serve b ts).0 ≡ length ts
burst_admitted rps burst b [] h room enough = refl
burst_admitted rps burst b (now ∷ ts) h room enough =
    let (_, kept, _) = allow_cost rps burst b now h in
    rw (allow_of_token rps burst b now h (omega arith) (omega arith)) (
      omega (
        arith,
        burst_admitted rps burst (allow exact b now).0 ts kept (omega arith)
            (allow_keeps rps burst (length ts) b now h room enough),
      ))
