-- ===== src/Http/Loop.antt =====
-- The fuel of the header loop of parse_request is not observed.
use market_bridge.Base.{
  ℕ, zero, suc, ◌≤◌, ◌<◌, ◌≡◌, refl, [], ◌∷◌, none, some, Bytes, length, arith, if◌then◌else◌,
  is_empty, inl, inr, Option-cases,
}
use market_bridge.Base.Map.{Map}
use market_bridge.Http.Parse.{take_line, getline, strip_cr, add_header, parse_headers}

take_line-length : (d : ℕ) (s : Bytes) → length (take_line d s).1 ≤ length s
unfolding take_line
take_line-length d [] = omega arith
take_line-length d (c ∷ s) = ground (arith, take_line-length d s)

take_line-shorter : (d c : ℕ) (s : Bytes) → length (take_line d (c ∷ s)).1 ≤ length s
unfolding take_line
take_line-shorter d c s = ground (arith, take_line-length d s)

getline-shorter :
    (d : ℕ) (s line rest : Bytes) → getline d s ≡ some (line, rest) → length rest < length s
unfolding getline
getline-shorter d [] line rest e = cc
getline-shorter d (c ∷ s) line rest e = ground (arith, take_line-shorter d c s)

-- Any two fuels of at least the number of bytes left give the same result.
pub parse_headers_fuel :
    (f g : ℕ) (s : Bytes) (m : Map)
    → length s ≤ f
    → length s ≤ g
    → parse_headers f s m ≡ parse_headers g s m
unfolding parse_headers
parse_headers_fuel zero zero s m hf hg = refl
parse_headers_fuel zero (suc g) [] m hf hg = refl
parse_headers_fuel zero (suc g) (c ∷ s) m hf hg = absurd (omega arith)
parse_headers_fuel (suc f) zero [] m hf hg = refl
parse_headers_fuel (suc f) zero (c ∷ s) m hf hg = absurd (omega arith)
parse_headers_fuel (suc f) (suc g) s m hf hg = elim (Option-cases (getline b'\n' s)) [
  | inl e ↦ rw (e, parse_headers) refl
  | inr ((line, rest), e) ↦
      rw (e, parse_headers)
        (rw (
          parse_headers_fuel f g rest (add_header (strip_cr line) m)
            (omega (arith, getline-shorter b'\n' s line rest e))
            (omega (arith, getline-shorter b'\n' s line rest e))))
]

-- The header loop as parse_request starts it.
abbrev pub header_loop : Bytes → Map → Map × Bytes
header_loop s m = parse_headers (length s) s m

-- With the fuel that parse_request gives it the loop ends by its own tests: it stops where no line is
-- left, or behind the first empty line, and otherwise takes the line in and goes on with the rest,
-- with the fuel that the rest gives it.
header_loop_unrolls :
    (s : Bytes) (m : Map)
    → header_loop s m ≡ (elim (getline b'\n' s) as (λ o. Map × Bytes) [
      | none ↦ (m, s)
      | some (line, rest) ↦
          if is_empty (strip_cr line)
          then (m, rest)
          else header_loop rest (add_header (strip_cr line) m)
    ])
unfolding parse_headers getline
header_loop_unrolls [] m = refl
header_loop_unrolls (c ∷ s) m =
    let (line, rest) = take_line b'\n' (c ∷ s) in
    rw (
      parse_headers_fuel (length s) (length rest) rest (add_header (strip_cr line) m)
        (take_line-shorter b'\n' c s) (omega arith))
