-- ===== src/Http/Framing.antt =====
-- What a client reads from the responses that HttpResponse::to_string writes.
use market_bridge.Base.{
  ℕ, ◌≡◌, ◌≢◌, refl, ap, ◌∙◌, [], ◌∷◌, ◌++◌, none, some, Bytes, codes, All, All-append, arith,
  Option-cases, length, inl, inr,
}
use market_bridge.Base.Decimal.{to_string, to_string-IsDigit, to_string-nonempty, IsDigit}
use market_bridge.Base.Map.{
  Map, find, insert, insert_all, insert_all-append, insert_all-IsSorted, IsSorted,
}
use market_bridge.Http.Message.{
  HttpResponse, content_length, sent_headers, status_line, response_to_string,
}
use market_bridge.Http.Parse.{parse_request, trim_leading, is_space}
use market_bridge.Http.Words.{IsSolid, IsWord, read_word-append, read_word_blank, http-IsWord}
use market_bridge.Http.Lines.{Lacks, IsHeader, IsValue}
use market_bridge.Http.Clean.{AreHeaders}
use market_bridge.Http.RoundTrip.{parse_request-message}

digits-IsValue : (s : Bytes) → All IsDigit s → IsValue s
unfolding trim_leading
digits-IsValue [] h = record { newline = tt; trimmed = refl }
digits-IsValue (c ∷ s) h = record {
  newline = (omega arith, (digits-IsValue s h.1).newline);
  trimmed = ground (arith, h.0);
}

-- The decimal text of a number can stand in a header.
pub to_string-IsValue : (n : ℕ) → IsValue (to_string n)
to_string-IsValue n = digits-IsValue (to_string n) (to_string-IsDigit n)

-- What a response must meet to be read back.
pub record IsResponse (r : HttpResponse) : Type 0 where
  pub reason : Lacks b'\n' r.reason
  pub headers : AreHeaders r.headers
  pub body : Lacks 0 r.body

-- The headers that a client is to see: those of the response, with a length if it states none.
abbrev pub framed_headers : HttpResponse → Map
framed_headers r = elim (find content_length r.headers) [
  | some v ↦ r.headers
  | none ↦ insert content_length (to_string (length r.body)) r.headers
]

pub length-IsHeader : (n : ℕ) → IsHeader (content_length, to_string n)
length-IsHeader n = record {
  name_colon = omega arith;
  name_newline = omega arith;
  value_newline = (to_string-IsValue n).newline;
  trimmed = (to_string-IsValue n).trimmed;
}

sent_headers-IsHeader : (r : HttpResponse) → All IsHeader r.headers → All IsHeader (sent_headers r)
unfolding sent_headers
sent_headers-IsHeader r h = elim (Option-cases (find content_length r.headers)) [
  | inl e ↦
      rw (e, sent_headers) (All-append IsHeader r.headers _ h (length-IsHeader (length r.body), tt))
  | inr (v, e) ↦ rw (e, sent_headers) h
]

insert_all-sent_headers :
    (r : HttpResponse) → IsSorted r.headers → insert_all [] (sent_headers r) ≡ framed_headers r
unfolding sent_headers
insert_all-sent_headers r s = elim (Option-cases (find content_length r.headers)) [
  | inl e ↦
      rw (e, sent_headers, framed_headers)
        (insert_all-append [] r.headers content_length _
          ∙ ap (insert content_length _) (insert_all-IsSorted r.headers s))
  | inr (v, e) ↦ rw (e, sent_headers, framed_headers) (insert_all-IsSorted r.headers s)
]

status_line-Lacks :
    (status : ℕ) (reason : Bytes) → Lacks b'\n' reason → Lacks b'\n' (status_line status reason)
status_line-Lacks status reason h =
    All-append (λ x. x ≢ b'\n') (codes "HTTP/1.1 ") _ (omega arith)
      (All-append (λ x. x ≢ b'\n') (to_string status) _ (to_string-IsValue status).newline
        (omega arith, h))

digits-IsSolid : (s : Bytes) → All IsDigit s → IsSolid s
unfolding is_space
digits-IsSolid [] h = tt
digits-IsSolid (c ∷ s) h = (ground (arith, h.0), digits-IsSolid s h.1)

to_string-IsWord : (n : ℕ) → IsWord (to_string n)
to_string-IsWord n = record {
  solid = digits-IsSolid (to_string n) (to_string-IsDigit n);
  nonempty = to_string-nonempty n;
}

-- The second word of a response is its status.
pub response_status :
    (r : HttpResponse)
    → IsResponse r
    → (parse_request (response_to_string r)).target ≡ to_string r.status_code
unfolding response_to_string
response_status r h =
    rw
      (parse_request-message (status_line r.status_code r.reason) (sent_headers r) r.body
        (status_line-Lacks r.status_code r.reason h.reason) (sent_headers-IsHeader r h.headers.0)
        h.body)
      (rw
        (read_word-append (codes "HTTP/1.1") (to_string r.status_code ++ (b' ' ∷ r.reason))
          http-IsWord)
        (rw (read_word_blank (to_string r.status_code ++ (b' ' ∷ r.reason))) (
          rw (
            read_word-append (to_string r.status_code) r.reason (to_string-IsWord r.status_code)))))

-- A client that reads a response as parse_request reads a message finds the headers of the response,
-- with a Content-Length of the size of the body exactly where the response had none, and the body
-- unchanged. The reason holds no newline, the headers are well-formed and ascend, and the body holds
-- no NUL.
pub response_to_string_framed :
    (r : HttpResponse)
    → IsResponse r
    → ((parse_request (response_to_string r)).headers ≡ framed_headers r)
      × ((parse_request (response_to_string r)).body ≡ r.body)
unfolding response_to_string
response_to_string_framed r h =
    let read =
      parse_request-message (status_line r.status_code r.reason) (sent_headers r) r.body
        (status_line-Lacks r.status_code r.reason h.reason) (sent_headers-IsHeader r h.headers.0)
        h.body in
    (rw read (insert_all-sent_headers r h.headers.1), rw read refl)
