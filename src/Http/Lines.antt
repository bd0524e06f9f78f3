-- ===== src/Http/Lines.antt =====
-- How parse_request reads the lines of a message.
use market_bridge.Base.{
  ℕ, zero, suc, ◌≤◌, ◌≡◌, ◌≢◌, refl, ap, sym, ◌∙◌, false, [], ◌∷◌, ◌++◌, some, Bytes, length,
  length-append, take-append, drop-append_cons, All, All-append, append_assoc, arith, is_empty,
}
use market_bridge.Base.Map.{Map, insert, insert_all}
use market_bridge.Http.Message.{header_line, render_headers}
use market_bridge.Http.Parse.{
  take_line, getline, strip_cr, find_char, trim_leading, add_header, parse_headers,
}

-- The text does not hold the byte.
abbrev pub Lacks : ℕ → Bytes → Type 0
Lacks c s = All (λ x. x ≢ c) s

pub take_line-append :
    (d : ℕ) (l rest : Bytes) → Lacks d l → take_line d (l ++ d ∷ rest) ≡ (l, rest)
unfolding take_line
take_line-append d [] rest h = ground arith
take_line-append d (c ∷ l) rest h = ground (arith, take_line-append d l rest h.1)

pub take_line-Lacks : (d : ℕ) (l : Bytes) → Lacks d l → take_line d l ≡ (l, [])
unfolding take_line
take_line-Lacks d [] h = refl
take_line-Lacks d (c ∷ l) h = ground (arith, take_line-Lacks d l h.1)

getline-append : (d : ℕ) (l rest : Bytes) → Lacks d l → getline d (l ++ d ∷ rest) ≡ some (l, rest)
unfolding getline
getline-append d [] rest h = ap some (take_line-append d [] rest h)
getline-append d (c ∷ l) rest h = ap some (take_line-append d (c ∷ l) rest h)

-- A line that ends in carriage return and newline.
pub getline_crlf :
    (l rest : Bytes)
    → Lacks b'\n' l
    → getline b'\n' (l ++ b'\r' ∷ b'\n' ∷ rest) ≡ some (l ++ b'\r' ∷ [], rest)
getline_crlf l rest h =
    ap (getline b'\n') (sym (append_assoc l (b'\r' ∷ []) (b'\n' ∷ rest)))
    ∙ getline-append b'\n' (l ++ b'\r' ∷ []) rest
        (All-append (λ x. x ≢ b'\n') l (b'\r' ∷ []) h (omega arith, tt))

pub strip_cr-append : (l : Bytes) → strip_cr (l ++ b'\r' ∷ []) ≡ l
unfolding strip_cr
strip_cr-append [] = refl
strip_cr-append (c ∷ []) = refl
strip_cr-append (c ∷ d ∷ s) = ap (◌∷◌ c) (strip_cr-append (d ∷ s))

find_char-append : (c : ℕ) (k v : Bytes) → Lacks c k → find_char c (k ++ c ∷ v) ≡ some (length k)
unfolding find_char
find_char-append c [] v h = ground arith
find_char-append c (d ∷ k) v h = ground (arith, find_char-append c k v h.1)

-- A header that reads back as it was written.
pub record IsHeader (e : Bytes × Bytes) : Type 0 where
  pub name_colon : Lacks b':' e.0
  pub name_newline : Lacks b'\n' e.0
  pub value_newline : Lacks b'\n' e.1
  pub trimmed : trim_leading e.1 ≡ e.1

-- A text that can stand as the value of a header.
pub record IsValue (v : Bytes) : Type 0 where
  pub newline : Lacks b'\n' v
  pub trimmed : trim_leading v ≡ v

add_header-header_line :
    (k v : Bytes) (m : Map) → IsHeader (k, v) → add_header (header_line k v) m ≡ insert k v m
unfolding add_header
add_header-header_line k v m h =
    rw (find_char-append b':' k (b' ' ∷ v) h.name_colon, add_header)
      (rw (take-append k (b':' ∷ b' ' ∷ v), drop-append_cons k b':' (b' ' ∷ v)) (rw h.trimmed))

is_empty-header_line : (k v : Bytes) → is_empty (header_line k v) ≡ false
unfolding is_empty
is_empty-header_line [] v = refl
is_empty-header_line (c ∷ k) v = refl

pub header_line-Lacks : (k v : Bytes) → IsHeader (k, v) → Lacks b'\n' (header_line k v)
header_line-Lacks k v h =
    All-append (λ x. x ≢ b'\n') k _ h.name_newline (omega arith, (omega arith, h.value_newline))

-- One round of the loop on a header line.
parse_headers_header :
    (fuel : ℕ) (k v rest : Bytes) (m : Map)
    → IsHeader (k, v)
    → parse_headers (suc fuel) (header_line k v ++ (b'\r' ∷ b'\n' ∷ rest)) m
      ≡ parse_headers fuel rest (insert k v m)
unfolding parse_headers
parse_headers_header fuel k v rest m h =
    rw (getline_crlf (header_line k v) rest (header_line-Lacks k v h), parse_headers)
      (rw (strip_cr-append (header_line k v))
        (rw (is_empty-header_line k v, add_header-header_line k v m h)))

parse_headers_end :
    (fuel : ℕ) (body : Bytes) (m : Map)
    → parse_headers (suc fuel) (b'\r' ∷ b'\n' ∷ body) m ≡ (m, body)
unfolding parse_headers
parse_headers_end fuel body m = refl

-- The loop reads headers as they were written, up to the empty line behind them.
pub parse_headers-render_headers :
    (hs : Map) (fuel : ℕ) (body : Bytes) (m : Map)
    → All IsHeader hs
    → length (render_headers hs ++ (b'\r' ∷ b'\n' ∷ body)) ≤ fuel
    → parse_headers fuel (render_headers hs ++ (b'\r' ∷ b'\n' ∷ body)) m ≡ (insert_all m hs, body)
unfolding render_headers insert_all
parse_headers-render_headers hs zero body m h enough =
    absurd (omega (arith, length-append (render_headers hs) (b'\r' ∷ b'\n' ∷ body)))
parse_headers-render_headers [] (suc fuel) body m h enough = parse_headers_end fuel body m
parse_headers-render_headers ((k, v) ∷ hs) (suc fuel) body m h enough =
    ap (λ s. parse_headers (suc fuel) s m) (append_assoc (header_line k v) _ _)
    ∙ parse_headers_header fuel k v _ m h.0
    ∙ parse_headers-render_headers hs fuel body (insert k v m) h.1 (
        omega (
          arith,
          length-append (header_line k v ++ (b'\r' ∷ b'\n' ∷ render_headers hs))
              (b'\r' ∷ b'\n' ∷ body),
          length-append (header_line k v) (b'\r' ∷ b'\n' ∷ render_headers hs),
          length-append (render_headers hs) (b'\r' ∷ b'\n' ∷ body),
        ))
