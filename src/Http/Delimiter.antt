-- ===== src/Http/Delimiter.antt =====
-- The read of a request's header, async_read_until with http_request_headers_delimiter, of
-- http-session.cpp and utils/http-helper.h. The read itself is asio's: it is given by what its
-- documentation says of the bytes that it counts.
use market_bridge.Base.{
  ◌+◌, ◌≤◌, ◌≡◌, ◌≢◌, refl, ap, sym, ◌∙◌, ◌⊎◌, inl, inr, [], ◌∷◌, ◌++◌, Bytes, length, take,
  length-append, take-append, All, All-append, append_assoc, arith,
}
use market_bridge.Base.Map.{Map}
use market_bridge.Http.Message.{header_line, render_headers, message}
use market_bridge.Http.Lines.{Lacks, IsHeader, header_line-Lacks}

-- http_request_headers_delimiter
abbrev pub http_request_headers_delimiter : Bytes
http_request_headers_delimiter = b'\r' ∷ b'\n' ∷ b'\r' ∷ b'\n' ∷ []

-- What async_read_until counts of a stream: the bytes up to the delimiter's first end.
pub record IsReadUntil (delimiter stream raw : Bytes) : Type 0 where
  pub rest : Bytes
  pub prefix : stream ≡ raw ++ rest
  pub before : Bytes
  pub ends : raw ≡ before ++ delimiter
  pub first :
      (b r : Bytes) → stream ≡ b ++ (delimiter ++ r) → length raw ≤ length b + length delimiter

-- A text that is cut at some newline is cut behind its first line, or later.
cut :
    (l b r r' : Bytes)
    → Lacks b'\n' l
    → b ++ b'\n' ∷ r ≡ l ++ b'\n' ∷ r'
    → ((b ≡ l) × (r ≡ r')) ⊎ ((c : Bytes) × (b ≡ l ++ b'\n' ∷ c) × (r' ≡ c ++ b'\n' ∷ r))
cut [] [] r r' h e = inl (refl, cc)
cut [] (x ∷ b) r r' h e = inr (b, cc, cc)
cut (y ∷ l) [] r r' h e = absurd (h.0 cc)
cut (y ∷ l) (x ∷ b) r r' h e = elim (cut l b r r' h.1 cc) [
  | inl (p, q) ↦ inl (cc, q)
  | inr (c, p, q) ↦ inr (c, cc, q)
]

-- A header line is not the empty line.
header_not_empty :
    (k v rest s : Bytes)
    → IsHeader (k, v)
    → b'\r' ∷ b'\n' ∷ rest ≢ header_line k v ++ (b'\r' ∷ b'\n' ∷ s)
header_not_empty [] v rest s h e = ground (arith, e)
header_not_empty (x ∷ []) v rest s h e = ground (arith, e)
header_not_empty (x ∷ y ∷ k) v rest s h e = h.name_newline.1.0 cc

-- The text is cut behind its first line.
cut_line :
    (l b r s : Bytes)
    → Lacks b'\n' l
    → b ++ b'\n' ∷ r ≡ l ++ (b'\r' ∷ b'\n' ∷ s)
    → ((length b ≡ length l + 1) × (r ≡ s))
      ⊎ ((c : Bytes) × (length b ≡ length l + 2 + length c) × (s ≡ c ++ b'\n' ∷ r))
cut_line l b r s h e =
    let line = l ++ b'\r' ∷ [] in
    elim (cut line b r s (All-append (λ x. x ≢ b'\n') l (b'\r' ∷ []) h (omega arith, tt))
      (e ∙ sym (append_assoc l (b'\r' ∷ []) (b'\n' ∷ s)))) [
        | inl (p, q) ↦ inl (ap length p ∙ length-append l (b'\r' ∷ []), q)
        | inr (c, p, q) ↦ inr (
          c,
          omega (arith, ap length p, length-append line (b'\n' ∷ c), length-append l (b'\r' ∷ [])),
          q,
        )
      ]

next_line :
    (k v : Bytes) (hs : Map) (body : Bytes)
    → render_headers ((k, v) ∷ hs) ++ (b'\r' ∷ b'\n' ∷ body) ≡ message (header_line k v) hs body
unfolding message render_headers
next_line k v hs body =
    append_assoc (header_line k v) (b'\r' ∷ b'\n' ∷ render_headers hs) (b'\r' ∷ b'\n' ∷ body)

-- A message whose first line is cut off is a message again, with its first header as first line.
message_cons :
    (line k v : Bytes) (hs : Map) (body : Bytes)
    → message line ((k, v) ∷ hs) body ≡ line ++ (b'\r' ∷ b'\n' ∷ message (header_line k v) hs body)
unfolding message
message_cons line k v hs body = ap (λ s. line ++ (b'\r' ∷ b'\n' ∷ s)) (next_line k v hs body)

-- Behind the first line the empty line comes after all headers.
empty_line_last :
    (hs : Map) (l body b r : Bytes)
    → Lacks b'\n' l
    → All IsHeader hs
    → b ++ (b'\n' ∷ b'\r' ∷ b'\n' ∷ r) ≡ message l hs body
    → length (message l hs []) ≤ length b + 3
unfolding message render_headers
empty_line_last [] l body b r hl h e =
    let total = length-append l (b'\r' ∷ b'\n' ∷ b'\r' ∷ b'\n' ∷ []) in
    elim (cut_line l b _ _ hl e) [
      | inl (p, q) ↦ omega (arith, total, p)
      | inr (c, p, q) ↦ omega (arith, total, p)
    ]
empty_line_last ((k, v) ∷ hs) l body b r hl h e = elim (cut_line l b _ _ hl e) [
  | inl (p, q) ↦ absurd (header_not_empty k v _ _ h.0 (q ∙ next_line k v hs body))
  | inr (c, p, q) ↦ omega (
    arith,
    p,
    empty_line_last hs (header_line k v) body c r (header_line-Lacks k v h.0) h.1
        (sym q ∙ next_line k v hs body),
    ap length (message_cons l k v hs []),
    length-append l (b'\r' ∷ b'\n' ∷ message (header_line k v) hs []),
  )
]

-- The delimiter's first end in a message of well-formed headers is the end of its headers.
delimiter_first :
    (line : Bytes) (hs : Map) (body b r : Bytes)
    → Lacks b'\n' line
    → All IsHeader hs
    → message line hs body ≡ b ++ (http_request_headers_delimiter ++ r)
    → length (message line hs []) ≤ length b + 4
delimiter_first line hs body b r l h e = omega (
  arith,
  empty_line_last hs line body (b ++ b'\r' ∷ []) r l h
      (append_assoc b (b'\r' ∷ []) (b'\n' ∷ b'\r' ∷ b'\n' ∷ r) ∙ sym e),
  length-append b (b'\r' ∷ []),
)

-- The header ends in the delimiter, and the body stands behind it.
header_then_body :
    (line : Bytes) (hs : Map)
    → (before : Bytes) × ((body : Bytes)
        → message line hs body ≡ before ++ (http_request_headers_delimiter ++ body))
unfolding message render_headers
header_then_body line [] = (line, λ body. refl)
header_then_body line ((k, v) ∷ hs) =
    let (before, e) = header_then_body (header_line k v) hs in
    (
      line ++ b'\r' ∷ b'\n' ∷ before,
      λ body.
          message_cons line k v hs body
          ∙ ap (λ s. line ++ b'\r' ∷ b'\n' ∷ s) (e body)
          ∙ sym
              (append_assoc line (b'\r' ∷ b'\n' ∷ before) (http_request_headers_delimiter ++ body)),
    )

message_body :
    (line : Bytes) (hs : Map) (body : Bytes) → message line hs body ≡ message line hs [] ++ body
message_body line hs body =
    let (before, e) = header_then_body line hs in
    e body
    ∙ sym (append_assoc before http_request_headers_delimiter body)
    ∙ ap (λ s. s ++ body) (sym (e []))

-- What async_read_until counts of a message of well-formed headers is its header.
pub message-IsReadUntil :
    (line : Bytes) (hs : Map) (body : Bytes)
    → Lacks b'\n' line
    → All IsHeader hs
    → IsReadUntil http_request_headers_delimiter (message line hs body) (message line hs [])
message-IsReadUntil line hs body l h = record {
  rest = body;
  prefix = message_body line hs body;
  before = (header_then_body line hs).0;
  ends = (header_then_body line hs).1 [];
  first = λ b r e. delimiter_first line hs body b r l h e;
}

-- What is counted is determined by the stream.
same_length :
    (d stream x y : Bytes) → IsReadUntil d stream x → IsReadUntil d stream y → length x ≤ length y
same_length d stream x y h k = omega (
  arith,
  h.first k.before k.rest
      (k.prefix ∙ ap (λ s. s ++ k.rest) k.ends ∙ append_assoc k.before d k.rest),
  ap length k.ends,
  length-append k.before d,
)

pub read_until_unique :
    (d stream x y : Bytes) → IsReadUntil d stream x → IsReadUntil d stream y → x ≡ y
read_until_unique d stream x y h k =
    let e : length x ≡ length y =
      omega (arith, same_length d stream x y h k, same_length d stream y x k h) in
    sym (take-append x h.rest)
    ∙ ap (take (length x)) (sym h.prefix ∙ k.prefix)
    ∙ ap (λ n. take n (y ++ k.rest)) e
    ∙ take-append y k.rest
