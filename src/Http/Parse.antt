-- ===== src/Http/Parse.antt =====
-- utils/http-helper.h, parse_request. A std::istringstream is the list of the bytes not yet read.
use market_bridge.Base.{
  ℕ, zero, suc, Bool, ◌&&◌, ◌||◌, [], ◌∷◌, Option, none, some, Bytes, length, take, drop, leb, ◌==◌,
  if◌then◌else◌, is_empty,
}
use market_bridge.Base.Map.{Map, insert}
use market_bridge.Http.Message.{HttpRequest, empty_request}

-- The bytes before the first `d`, and those behind it.
unfoldable pub take_line : ℕ → Bytes → Bytes × Bytes
take_line d [] = ([], [])
take_line d (c ∷ s) = let (l, r) = take_line d s in if c == d then ([], s) else (c ∷ l, r)

-- std::getline with delimiter `d`; it fails if nothing is left to read.
unfoldable pub getline : ℕ → Bytes → Option (Bytes × Bytes)
unfolding take_line
getline d [] = none
getline d (c ∷ s) = some (take_line d (c ∷ s))

-- line.pop_back() if the line ends in a carriage return.
unfoldable pub strip_cr : Bytes → Bytes
strip_cr [] = []
strip_cr (c ∷ []) = if c == b'\r' then [] else c ∷ []
strip_cr (c ∷ d ∷ s) = c ∷ strip_cr (d ∷ s)

-- isspace in the C locale.
unfoldable pub is_space : ℕ → Bool
is_space c = c == b' ' || leb b'\t' c && leb c b'\r'

unfoldable pub skip_space : Bytes → Bytes
unfolding is_space
skip_space [] = []
skip_space (c ∷ s) = if is_space c then skip_space s else c ∷ s

unfoldable pub split_word : Bytes → Bytes × Bytes
unfolding is_space
split_word [] = ([], [])
split_word (c ∷ s) = let (w, r) = split_word s in if is_space c then ([], c ∷ s) else (c ∷ w, r)

-- `stream >> word` on an empty word: it stays empty where no word is left.
unfoldable pub read_word : Bytes → Bytes × Bytes
unfolding skip_space split_word
read_word s = split_word (skip_space s)

-- line.find(c)
unfoldable pub find_char : ℕ → Bytes → Option ℕ
find_char c [] = none
find_char c (d ∷ s) =
    if d == c then some 0 else elim (find_char c s) [ none ↦ none | some i ↦ some (suc i) ]

unfoldable pub is_blank : ℕ → Bool
is_blank c = c == b' ' || c == b'\t'

-- The loop that erases leading blanks.
unfoldable pub trim_leading : Bytes → Bytes
unfolding is_blank
trim_leading [] = []
trim_leading (c ∷ s) = if is_blank c then trim_leading s else c ∷ s

-- One header line; a line without a colon is passed over.
unfoldable pub add_header : Bytes → Map → Map
unfolding find_char trim_leading
add_header line m = elim (find_char b':' line) [
  | none ↦ m
  | some pos ↦ insert (take pos line) (trim_leading (drop (suc pos) line)) m
]

-- The header loop: the headers read and the rest of the stream. A round reads at least one byte, so
-- the number of bytes left is fuel enough.
unfoldable pub parse_headers : ℕ → Bytes → Map → Map × Bytes
unfolding getline strip_cr add_header is_empty
parse_headers zero s m = (m, s)
parse_headers (suc fuel) s m = elim (getline b'\n' s) [
  | none ↦ (m, s)
  | some (line, rest) ↦
      let more = parse_headers fuel rest (add_header (strip_cr line) m) in
      if is_empty (strip_cr line) then (m, rest) else more
]

-- What follows the first line.
unfoldable pub parse_rest : Bytes → Bytes → HttpRequest
unfolding parse_headers read_word take_line
parse_rest line rest =
    let (method, r) = read_word line in
    let (target, r') = read_word r in
    let (headers, remaining) = parse_headers (length rest) rest [] in
    record {
      method = method;
      target = target;
      version = (read_word r').0;
      headers = headers;
      body = (take_line 0 remaining).0;
    }

unfoldable pub parse_request : Bytes → HttpRequest
unfolding getline strip_cr parse_rest
parse_request raw = elim (getline b'\n' raw) [
  | none ↦ empty_request
  | some (line, rest) ↦ parse_rest (strip_cr line) rest
]
