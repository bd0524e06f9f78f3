-- ===== src/Config/Library.antt =====
-- What the configuration takes from libraries whose code is not here: spdlog's levels and
-- nlohmann::json's values, as parameters.
use market_bridge.Base.{ℕ, ◌-◌, ◌^◌, ◌<◌, ◌≡◌, Bool, true, List, Option, Bytes, if◌then◌else◌, ltb}
use market_bridge.Base.Int.{ℤ, pos, negsuc, pos_part}
use market_bridge.Base.Result.{Result}

-- spdlog::level::level_enum, from_str and to_string_view.
pub record Spdlog : Type 1 where
  pub Level : Type 0
  pub trace : Level
  pub debug : Level
  pub info : Level
  pub warn : Level
  pub err : Level
  pub critical : Level
  pub off : Level
  pub from_str : Bytes → Level
  pub to_string_view : Level → Bytes

-- nlohmann::json: the tests of a value's kind, its members, and what get<T> returns where the kind
-- fits. `find v k` is the member under `k`; it stands for find, contains and at. `parse` is the
-- extraction of a document from a stream of these bytes.
pub record JsonLibrary : Type 1 where
  pub Json : Type 0
  pub is_object : Json → Bool
  pub is_string : Json → Bool
  pub is_boolean : Json → Bool
  pub is_number_unsigned : Json → Bool
  pub is_number_integer : Json → Bool
  pub items : Json → List (Bytes × Json)
  pub find : Json → Bytes → Option Json
  pub get_int64 : Json → ℤ
  pub get_uint64 : Json → ℕ
  pub get_string : Json → Bytes
  pub get_bool : Json → Bool
  pub parse : Bytes → Result Json

-- The two's complement reading of a 64-bit word, to which get<std::int64_t> casts.
abbrev pub to_int64 : ℕ → ℤ
to_int64 n = if ltb n (2 ^ 63) then pos n else negsuc (2 ^ 64 - 1 - n)

-- What the library documents of numbers: an unsigned number is a 64-bit word, get<std::int64_t> casts
-- it, and its result is a 64-bit integer.
pub record NumberLaws (J : JsonLibrary) : Type 0 where
  pub unsigned_lt : (v : J.Json) → J.is_number_unsigned v ≡ true → J.get_uint64 v < 2 ^ 64
  pub get_int64-unsigned :
      (v : J.Json) → J.is_number_unsigned v ≡ true → J.get_int64 v ≡ to_int64 (J.get_uint64 v)
  pub int64_lt : (v : J.Json) → pos_part (J.get_int64 v) < 2 ^ 63
