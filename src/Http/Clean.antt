-- ===== src/Http/Clean.antt =====
-- What parse_request returns, whatever the client sent.
use market_bridge.Base.{
  ℕ, zero, suc, ◌≡◌, ◌≢◌, refl, [], ◌∷◌, some, Bytes, length, take, drop, All, All-take, All-drop,
  arith, is_empty, inl, inr, Bool-cases, Option-cases,
}
use market_bridge.Base.Map.{Map, insert, IsSorted, insert-IsSorted}
use market_bridge.Http.Message.{HttpRequest}
use market_bridge.Http.Lines.{Lacks, IsHeader}
use market_bridge.Http.Words.{IsSolid, read_word-IsSolid}
use market_bridge.Http.Parse.{
  take_line, getline, strip_cr, read_word, find_char, trim_leading, add_header, parse_headers,
  parse_rest, parse_request,
}

take_line-line : (d : ℕ) (s : Bytes) → Lacks d (take_line d s).0
unfolding take_line
take_line-line d [] = tt
take_line-line d (c ∷ s) = ground (arith, take_line-line d s)

getline-line : (d : ℕ) (s : Bytes) (l rest : Bytes) → getline d s ≡ some (l, rest) → Lacks d l
unfolding getline
getline-line d [] l rest e = cc
getline-line d (c ∷ s) l rest e = ground (arith, take_line-line d (c ∷ s))

strip_cr-Lacks : (d : ℕ) (s : Bytes) → Lacks d s → Lacks d (strip_cr s)
unfolding strip_cr
strip_cr-Lacks d [] h = tt
strip_cr-Lacks d (c ∷ []) h = ground arith
strip_cr-Lacks d (c ∷ e ∷ s) h = (h.0, strip_cr-Lacks d (e ∷ s) h.1)

trim_leading-Lacks : (d : ℕ) (s : Bytes) → Lacks d s → Lacks d (trim_leading s)
unfolding trim_leading
trim_leading-Lacks d [] h = tt
trim_leading-Lacks d (c ∷ s) h = ground (arith, trim_leading-Lacks d s h.1)

trim_leading_idem : (s : Bytes) → trim_leading (trim_leading s) ≡ trim_leading s
unfolding trim_leading
trim_leading_idem [] = refl
trim_leading_idem (c ∷ s) = ground (arith, trim_leading_idem s)

find_char-take : (c : ℕ) (s : Bytes) (pos : ℕ) → find_char c s ≡ some pos → Lacks c (take pos s)
unfolding find_char
find_char-take c [] pos e = cc
find_char-take c (d ∷ s) zero e = tt
find_char-take c (d ∷ s) (suc pos) e = ground (arith, find_char-take c s pos)

pub All-insert :
    (k v : Bytes) (m : Map) → IsHeader (k, v) → All IsHeader m → All IsHeader (insert k v m)
unfolding insert
All-insert k v [] h a = (h, tt)
All-insert k v ((j, w) ∷ m) h a = ground (arith, All-insert k v m h a.1)

-- The headers of a request that was read.
abbrev pub AreHeaders : Map → Type 0
AreHeaders m = All IsHeader m × IsSorted m

header :
    (line : Bytes) (pos : ℕ)
    → Lacks b'\n' line
    → find_char b':' line ≡ some pos
    → IsHeader (take pos line, trim_leading (drop (suc pos) line))
header line pos h e = record {
  name_colon = find_char-take b':' line pos e;
  name_newline = All-take (λ x. x ≢ b'\n') pos line h;
  value_newline = trim_leading-Lacks b'\n' _ (All-drop (λ x. x ≢ b'\n') (suc pos) line h);
  trimmed = trim_leading_idem (drop (suc pos) line);
}

add_header-AreHeaders :
    (line : Bytes) (m : Map) → Lacks b'\n' line → AreHeaders m → AreHeaders (add_header line m)
unfolding add_header
add_header-AreHeaders line m h a = elim (Option-cases (find_char b':' line)) [
  | inl e ↦ rw (e, add_header) a
  | inr (pos, e) ↦
      rw (e, add_header)
        (All-insert _ _ m (header line pos h e) a.0, insert-IsSorted (take pos line) _ m a.1)
]

parse_headers-AreHeaders :
    (fuel : ℕ) (s : Bytes) (m : Map) → AreHeaders m → AreHeaders (parse_headers fuel s m).0
unfolding parse_headers
parse_headers-AreHeaders zero s m a = a
parse_headers-AreHeaders (suc fuel) s m a = elim (Option-cases (getline b'\n' s)) [
  | inl e ↦ rw (e, parse_headers) a
  | inr ((line, rest), e) ↦
      rw (e, parse_headers)
        (elim (Bool-cases (is_empty (strip_cr line))) [
          | inl last ↦ rw last a
          | inr more ↦ rw more (
              parse_headers-AreHeaders fuel rest (add_header (strip_cr line) m) (
                add_header-AreHeaders (strip_cr line) m
                  (strip_cr-Lacks b'\n' line (getline-line b'\n' s line rest e)) a))
        ])
]

-- No word holds white space; header names and values hold no line end, the values are trimmed and
-- the keys ascend; the body holds no NUL.
pub record IsClean (r : HttpRequest) : Type 0 where
  pub method : IsSolid r.method
  pub target : IsSolid r.target
  pub version : IsSolid r.version
  pub headers : AreHeaders r.headers
  pub body : Lacks 0 r.body

parse_rest-IsClean : (line rest : Bytes) → IsClean (parse_rest line rest)
unfolding parse_rest
parse_rest-IsClean line rest = record {
  method = read_word-IsSolid line;
  target = read_word-IsSolid (read_word line).1;
  version = read_word-IsSolid (read_word (read_word line).1).1;
  headers = parse_headers-AreHeaders (length rest) rest [] (tt, tt);
  body = take_line-line 0 (parse_headers (length rest) rest []).1;
}

-- Whatever bytes a client sends, the request that is read from them is clean.
pub parse_request-IsClean : (raw : Bytes) → IsClean (parse_request raw)
unfolding parse_request
parse_request-IsClean raw = elim (Option-cases (getline b'\n' raw)) [
  | inl e ↦
      rw (e, parse_request)
        (record { method = tt; target = tt; version = tt; headers = (tt, tt); body = tt })
  | inr ((line, rest), e) ↦ rw (e, parse_request) (parse_rest-IsClean (strip_cr line) rest)
]
