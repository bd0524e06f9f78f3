-- ===== src/Base/Decimal.antt =====
-- std::to_string of an unsigned number.
use Prim.Native.Nat.{ℕ, zero, suc, ◌+◌, ◌*◌, ◌/◌, ◌%◌, ◌-◌, ◌≤◌}
use mathlib.Core.Path.{◌≡◌, ap, ◌∙◌}
use mathlib.Core.Logic.{◌≢◌, inl, inr}
use mathlib.Core.List.{[], ◌∷◌}
use native.Mathlib.Omega.{arith}
use market_bridge.Base.Tests.{ltb, if◌then◌else◌, Bool-cases, ltb→ge}
use market_bridge.Base.Lists.{All}
use market_bridge.Base.Text.{Bytes}

-- The digits of `n` before `out`; the fuel `n` is enough, since each round divides by ten.
unfoldable digits : ℕ → ℕ → Bytes → Bytes
digits zero n out = (b'0' + n % 10) ∷ out
digits (suc fuel) n out =
    let rest = digits fuel (n / 10) ((b'0' + n % 10) ∷ out) in
    if ltb n 10 then (b'0' + n) ∷ out else rest

unfoldable pub to_string : ℕ → Bytes
unfolding digits
to_string n = digits n n []

abbrev pub IsDigit : ℕ → Type 0
IsDigit c = (b'0' ≤ c) × (c ≤ b'9')

digits-IsDigit : (fuel n : ℕ) (out : Bytes) → All IsDigit out → All IsDigit (digits fuel n out)
unfolding digits
digits-IsDigit zero n out h = ((omega arith, omega arith), h)
digits-IsDigit (suc fuel) n out h =
    ground
      (arith, digits-IsDigit fuel (n / 10) ((b'0' + n % 10) ∷ out) ((omega arith, omega arith), h))

pub to_string-IsDigit : (n : ℕ) → All IsDigit (to_string n)
unfolding to_string
to_string-IsDigit n = digits-IsDigit n n [] tt

digits-nonempty : (fuel n : ℕ) (out : Bytes) → digits fuel n out ≢ []
unfolding digits
digits-nonempty zero n out e = cc
digits-nonempty (suc fuel) n out e =
    ground (arith, digits-nonempty fuel (n / 10) ((b'0' + n % 10) ∷ out))

pub to_string-nonempty : (n : ℕ) → to_string n ≢ []
unfolding to_string
to_string-nonempty n = digits-nonempty n n []

-- The number that a row of digits denotes, read from the left onto `acc`.
unfoldable pub value_onto : ℕ → Bytes → ℕ
value_onto acc [] = acc
value_onto acc (c ∷ s) = value_onto (acc * 10 + (c - b'0')) s

digits-value :
    (fuel n : ℕ) (out : Bytes) → n ≤ fuel → value_onto 0 (digits fuel n out) ≡ value_onto n out
unfolding digits value_onto
digits-value zero n out h = ap (λ t. value_onto t out) (omega arith)
digits-value (suc fuel) n out h = elim (Bool-cases (ltb n 10)) [
  | inl small ↦ rw small (ap (λ t. value_onto t out) (omega arith))
  | inr large ↦ rw large (
      digits-value fuel (n / 10) ((b'0' + n % 10) ∷ out) (omega (arith, ltb→ge n 10 large))
      ∙ ap (λ t. value_onto t out) (omega arith))
]

-- Reading the digits back gives the number.
pub to_string-value : (n : ℕ) → value_onto 0 (to_string n) ≡ n
unfolding to_string value_onto
to_string-value n = digits-value n n [] (omega arith)
