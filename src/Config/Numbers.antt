-- ===== src/Config/Numbers.antt =====
-- Which numbers read_port and read_uint32 accept.
use market_bridge.Base.{ℕ, ◌≤◌, ◌≡◌, ◌↔◌, Bool, true, ◌||◌, Bytes, arith, if◌then◌else◌}
use market_bridge.Base.Int.{ℤ, pos}
use market_bridge.Base.Result.{returns}
use market_bridge.Config.Library.{JsonLibrary, NumberLaws}
use market_bridge.Config.Keys.{min_port, max_port}
use market_bridge.Config.Read.{max_uint32, read_port, read_uint32}

module _ (J : JsonLibrary) (laws : NumberLaws J) where
  open J use {Json, is_number_unsigned, is_number_integer, get_int64, get_uint64}

  -- A JSON value that is an integer, of either sign, and the integer that it is.
  abbrev pub is_integer : Json → Bool
  is_integer v = is_number_unsigned v || is_number_integer v

  abbrev pub integer : Json → ℤ
  integer v = if is_number_unsigned v then pos (get_uint64 v) else get_int64 v

  -- read_port accepts a value exactly if it is an integer from 1 to 65535, and returns that integer:
  -- no 64-bit number wraps around into the range, and the cast to 16 bits loses nothing.
  pub read_port_iff :
      (name : Bytes) (v : Json) (p : ℕ)
      → (read_port J name v ≡ returns p)
        ↔ ((is_integer v ≡ true) × (integer v ≡ pos p) × (min_port ≤ p) × (p ≤ max_port))
  unfolding read_port
  read_port_iff name v p = (
    λ h. ground (arith, laws.unsigned_lt v, laws.get_int64-unsigned v, laws.int64_lt v),
    λ h. ground (arith, laws.unsigned_lt v, laws.get_int64-unsigned v, laws.int64_lt v),
  )

  -- read_uint32 accepts a value exactly if it is an integer from 0 to 2^32 - 1, and returns it.
  pub read_uint32_iff :
      (name : Bytes) (v : Json) (n : ℕ)
      → (read_uint32 J name v ≡ returns n)
        ↔ ((is_integer v ≡ true) × (integer v ≡ pos n) × (n ≤ max_uint32))
  unfolding read_uint32
  read_uint32_iff name v n = (
    λ h. ground (arith, laws.unsigned_lt v, laws.get_int64-unsigned v, laws.int64_lt v),
    λ h. ground (arith, laws.unsigned_lt v, laws.get_int64-unsigned v, laws.int64_lt v),
  )
