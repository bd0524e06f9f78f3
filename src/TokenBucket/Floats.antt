-- ===== src/TokenBucket/Floats.antt =====
-- The arithmetic of `double` that the token bucket uses. Its rounding is not modelled: the operations
-- are a parameter, and what a proof needs of them is a law. `exact` counts billionths without rounding.
use market_bridge.Base.{ℕ, ◌+◌, ◌-◌, ◌*◌, ◌/◌, ◌^◌, ◌≡◌, Bool, true, false, arith, ltb as nat_ltb}

pub record Double : Type 1 where
  pub Num : Type 0
  pub of_nat : ℕ → Num
  pub add : Num → Num → Num
  pub sub : Num → Num → Num
  pub mul : Num → Num → Num
  pub ltb : Num → Num → Bool
  -- duration<double>(d).count() of a number of nanoseconds
  pub seconds : ℕ → Num

-- What rounding to nearest keeps on finite doubles that are not NaN: the order is total, and sums,
-- products and differences are monotone where their signs are known. `Le a b` is `!(b < a)`.
pub record IsOrdered (D : Double) : Type 0 where
  pub le_refl : (a : D.Num) → D.ltb a a ≡ false
  pub le_trans : (a b c : D.Num) → D.ltb b a ≡ false → D.ltb c b ≡ false → D.ltb c a ≡ false
  pub le_of_lt : (a b : D.Num) → D.ltb a b ≡ true → D.ltb b a ≡ false
  pub of_nat_nonneg : (n : ℕ) → D.ltb (D.of_nat n) (D.of_nat 0) ≡ false
  pub seconds_nonneg : (n : ℕ) → D.ltb (D.seconds n) (D.of_nat 0) ≡ false
  pub add_nonneg :
      (a b : D.Num)
      → D.ltb a (D.of_nat 0) ≡ false
      → D.ltb b (D.of_nat 0) ≡ false
      → D.ltb (D.add a b) (D.of_nat 0) ≡ false
  pub mul_nonneg :
      (a b : D.Num)
      → D.ltb a (D.of_nat 0) ≡ false
      → D.ltb b (D.of_nat 0) ≡ false
      → D.ltb (D.mul a b) (D.of_nat 0) ≡ false
  pub sub_nonneg : (a b : D.Num) → D.ltb a b ≡ false → D.ltb (D.sub a b) (D.of_nat 0) ≡ false
  pub sub_le : (a b : D.Num) → D.ltb b (D.of_nat 0) ≡ false → D.ltb a (D.sub a b) ≡ false

abbrev pub billion : ℕ
billion = 10 ^ 9

-- Exact arithmetic in units of a billionth, in which a nanosecond is one unit of a second.
abbrev pub exact : Double
exact = record {
  Num = ℕ;
  of_nat = λ n. n * billion;
  add = λ a b. a + b;
  sub = λ a b. a - b;
  mul = λ a b. a * b / billion;
  ltb = nat_ltb;
  seconds = λ n. n;
}

pub exact-IsOrdered : IsOrdered exact
exact-IsOrdered = record {
  le_refl = λ a. ground arith;
  le_trans = λ a b c h k. ground arith;
  le_of_lt = λ a b h. ground arith;
  of_nat_nonneg = λ n. ground arith;
  seconds_nonneg = λ n. ground arith;
  add_nonneg = λ a b h k. ground arith;
  mul_nonneg = λ a b h k. ground arith;
  sub_nonneg = λ a b h. ground arith;
  sub_le = λ a b h. ground arith;
}
