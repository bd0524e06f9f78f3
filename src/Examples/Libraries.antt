-- ===== src/Examples/Libraries.antt =====
-- Small libraries for the tests: JSON values with 64-bit numbers, and levels that are numbers.
use market_bridge.Base.{
  ℕ, ◌%◌, ◌^◌, ◌<◌, ◌≡◌, refl, Bool, true, false, List, [], ◌∷◌, Option, none, some, Bytes, codes,
  arith, equal, ◌==◌, if◌then◌else◌,
}
use market_bridge.Base.Int.{ℤ, pos, negsuc, pos_part}
use market_bridge.Base.Result.{library_exception, returns, throws}
use market_bridge.Config.Library.{Spdlog, JsonLibrary, NumberLaws, to_int64}

mutual
  pub data Tree : Type 0 where
    null : Tree
    boolean : Bool → Tree
    unsigned negative : ℕ → Tree
    string : Bytes → Tree
    object : Members → Tree

  pub data Members : Type 0 where
    end : Members
    member : Bytes → Tree → Members → Members

unfoldable pub items : Members → List (Bytes × Tree)
items end = []
items (member key value rest) = (key, value) ∷ items rest

unfoldable pub find : Members → Bytes → Option Tree
find end k = none
find (member key value rest) k = if equal key k then some value else find rest k

unfoldable pub integer_of : Tree → ℤ
integer_of (unsigned n) = to_int64 (n % 2 ^ 64)
integer_of (negative n) = negsuc (n % 2 ^ 63)
integer_of _ = pos 0

unfoldable pub natural_of : Tree → ℕ
natural_of (unsigned n) = n % 2 ^ 64
natural_of _ = 0

unfoldable pub is_unsigned : Tree → Bool
is_unsigned (unsigned n) = true
is_unsigned _ = false

-- {"server": {"http_port": 9000}, "throttling": {"burst_size": 7}}
abbrev pub document : Tree
document = object (
    member (codes "server") (object (member (codes "http_port") (unsigned 9000) end))
      (member (codes "throttling") (object (member (codes "burst_size") (unsigned 7) end)) end))

abbrev pub json : JsonLibrary
json = record {
  Json = Tree;
  is_object = λ v. elim v [ object ms ↦ true | _ ↦ false ];
  is_string = λ v. elim v [ string s ↦ true | _ ↦ false ];
  is_boolean = λ v. elim v [ boolean b ↦ true | _ ↦ false ];
  is_number_unsigned = is_unsigned;
  is_number_integer = λ v. elim v [ unsigned n ↦ true | negative n ↦ true | _ ↦ false ];
  items = λ v. elim v [ object ms ↦ items ms | _ ↦ [] ];
  find = λ v k. elim v [ object ms ↦ find ms k | _ ↦ none ];
  get_int64 = integer_of;
  get_uint64 = natural_of;
  get_string = λ v. elim v [ string s ↦ s | _ ↦ [] ];
  get_bool = λ v. elim v [ boolean b ↦ b | _ ↦ false ];
  parse = λ text.
      if equal text (codes "document")
      then returns document
      else throws (library_exception (codes "parse error"));
}

natural_of-lt : (v : Tree) → is_unsigned v ≡ true → natural_of v < 2 ^ 64
unfolding natural_of is_unsigned
natural_of-lt (unsigned n) h = omega arith
natural_of-lt _ h = omega arith

integer_of-unsigned : (v : Tree) → is_unsigned v ≡ true → integer_of v ≡ to_int64 (natural_of v)
unfolding natural_of is_unsigned integer_of
integer_of-unsigned (unsigned n) h = refl
integer_of-unsigned null h = cc
integer_of-unsigned (boolean b) h = cc
integer_of-unsigned (negative n) h = cc
integer_of-unsigned (string s) h = cc
integer_of-unsigned (object ms) h = cc

integer_of-lt : (v : Tree) → pos_part (integer_of v) < 2 ^ 63
unfolding integer_of
integer_of-lt (unsigned n) = ground arith
integer_of-lt (negative n) = ground arith
integer_of-lt null = ground arith
integer_of-lt (boolean b) = ground arith
integer_of-lt (string s) = ground arith
integer_of-lt (object ms) = ground arith

pub json-NumberLaws : NumberLaws json
json-NumberLaws = record {
  unsigned_lt = natural_of-lt;
  get_int64-unsigned = integer_of-unsigned;
  int64_lt = integer_of-lt;
}

-- The levels by their numbers.
abbrev pub levels : Spdlog
levels = record {
  Level = ℕ;
  trace = 0;
  debug = 1;
  info = 2;
  warn = 3;
  err = 4;
  critical = 5;
  off = 6;
  from_str = λ text. if equal text (codes "debug") then 1 else 6;
  to_string_view = λ level. if level == 2 then codes "info" else codes "other";
}
