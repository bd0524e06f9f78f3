-- ===== src/TokenBucket/Bounds.antt =====
-- The tokens stay between none and the capacity.
use market_bridge.Base.{ℕ, ◌-◌, ◌≡◌, false, List, [], ◌∷◌, inl, inr, Bool-cases}
use market_bridge.TokenBucket.Floats.{Double, IsOrdered}
use market_bridge.TokenBucket.{
  TokenBucket, Call, allows, resets, std_min, make, refill, allow, reset, step, run,
}

module _ (D : Double) (laws : IsOrdered D) where
  open D use {Num, of_nat, add, sub, mul, ltb, seconds}

  -- Neither below zero nor above the capacity; the rate is not negative.
  pub record IsBounded (b : TokenBucket D) : Type 0 where
    pub rate : ltb b.rate (of_nat 0) ≡ false
    pub capacity : ltb b.capacity (of_nat 0) ≡ false
    pub lower : ltb b.tokens (of_nat 0) ≡ false
    pub upper : ltb b.capacity b.tokens ≡ false

  make-IsBounded : (rate burst now : ℕ) → IsBounded (make D (of_nat rate) (of_nat burst) now)
  unfolding make
  make-IsBounded rate burst now = record {
    rate = laws.of_nat_nonneg rate;
    capacity = laws.of_nat_nonneg burst;
    lower = laws.of_nat_nonneg burst;
    upper = laws.le_refl (of_nat burst);
  }

  std_min-nonneg :
      (a b : Num)
      → ltb a (of_nat 0) ≡ false
      → ltb b (of_nat 0) ≡ false
      → ltb (std_min D a b) (of_nat 0) ≡ false
  std_min-nonneg a b h k = elim (Bool-cases (ltb b a)) [ inl e ↦ rw e k | inr e ↦ rw e h ]

  std_min-le : (a b : Num) → ltb a (std_min D a b) ≡ false
  std_min-le a b = elim (Bool-cases (ltb b a)) [
    | inl e ↦ rw e (laws.le_of_lt b a e)
    | inr e ↦ rw e (laws.le_refl a)
  ]

  refill-IsBounded : (b : TokenBucket D) (now : ℕ) → IsBounded b → IsBounded (refill D b now)
  unfolding refill
  refill-IsBounded b now h = record {
    rate = h.rate;
    capacity = h.capacity;
    lower = std_min-nonneg b.capacity _ h.capacity (
        laws.add_nonneg b.tokens _ h.lower
          (laws.mul_nonneg _ b.rate (laws.seconds_nonneg (now - b.last_refill)) h.rate));
    upper = std_min-le b.capacity _;
  }

  take-IsBounded :
      (b : TokenBucket D)
      → IsBounded b
      → ltb b.tokens (of_nat 1) ≡ false
      → IsBounded (record b { tokens = sub b.tokens (of_nat 1) })
  take-IsBounded b h e = record {
    rate = h.rate;
    capacity = h.capacity;
    lower = laws.sub_nonneg b.tokens (of_nat 1) e;
    upper =
        laws.le_trans (sub b.tokens (of_nat 1)) b.tokens b.capacity
          (laws.sub_le b.tokens (of_nat 1) (laws.of_nat_nonneg 1)) h.upper;
  }

  allow-IsBounded : (b : TokenBucket D) (now : ℕ) → IsBounded b → IsBounded (allow D b now).0
  unfolding allow
  allow-IsBounded b now h = elim (Bool-cases (ltb (refill D b now).tokens (of_nat 1))) [
    | inl e ↦ rw e (refill-IsBounded b now h)
    | inr e ↦ rw e (take-IsBounded (refill D b now) (refill-IsBounded b now h) e)
  ]

  step-IsBounded : (b : TokenBucket D) (c : Call D) → IsBounded b → IsBounded (step D b c)
  unfolding step reset
  step-IsBounded b (allows now) h = allow-IsBounded b now h
  step-IsBounded b (resets now) h = record {
    rate = h.rate;
    capacity = h.capacity;
    lower = h.capacity;
    upper = laws.le_refl b.capacity;
  }

  run-IsBounded : (b : TokenBucket D) (cs : List (Call D)) → IsBounded b → IsBounded (run D b cs)
  unfolding run
  run-IsBounded b [] h = h
  run-IsBounded b (c ∷ cs) h = run-IsBounded (step D b c) cs (step-IsBounded b c h)

  -- From the construction with a rate and a burst size on, after any calls of allow and reset at any
  -- times, the tokens are neither negative nor above the capacity, under any rounding that keeps the
  -- order laws.
  pub make-run-IsBounded :
      (rate burst now : ℕ) (cs : List (Call D))
      → IsBounded (run D (make D (of_nat rate) (of_nat burst) now) cs)
  make-run-IsBounded rate burst now cs = run-IsBounded _ cs (make-IsBounded rate burst now)
