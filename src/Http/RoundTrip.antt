-- ===== src/Http/RoundTrip.antt =====
-- parse_request reads back what to_string and generate_request write.
use market_bridge.Base.{◌≡◌, ◌≢◌, refl, ◌∙◌, [], ◌∷◌, ◌++◌, Bytes, All, All-append, arith}
use market_bridge.Base.Map.{Map, insert_all, insert_all-IsSorted}
use market_bridge.Http.Message.{
  HttpRequest, request_line, message, request_to_string, render_headers,
}
use market_bridge.Http.Parse.{is_space, read_word, parse_rest, parse_request}
use market_bridge.Http.Lines.{
  Lacks, IsHeader, getline_crlf, strip_cr-append, take_line-Lacks, parse_headers-render_headers,
}
use market_bridge.Http.Words.{IsWord, read_word-request_line, IsSolid-ne}
use market_bridge.Http.Clean.{AreHeaders, parse_request-IsClean}
use native.Mathlib.Nat.{le_refl}

parse_rest-render_headers :
    (line : Bytes) (hs : Map) (body : Bytes)
    → All IsHeader hs
    → Lacks 0 body
    → parse_rest line (render_headers hs ++ (b'\r' ∷ b'\n' ∷ body)) ≡ record {
      method = (read_word line).0;
      target = (read_word (read_word line).1).0;
      version = (read_word (read_word (read_word line).1).1).0;
      headers = insert_all [] hs;
      body = body;
    }
unfolding parse_rest
parse_rest-render_headers line hs body h b =
    rw (parse_headers-render_headers hs _ body [] h (le_refl _)) (rw (take_line-Lacks 0 body b))

-- Any message of well-formed headers is read back, whatever its first line.
pub parse_request-message :
    (line : Bytes) (hs : Map) (body : Bytes)
    → Lacks b'\n' line
    → All IsHeader hs
    → Lacks 0 body
    → parse_request (message line hs body) ≡ record {
      method = (read_word line).0;
      target = (read_word (read_word line).1).0;
      version = (read_word (read_word (read_word line).1).1).0;
      headers = insert_all [] hs;
      body = body;
    }
unfolding parse_request message
parse_request-message line hs body l h b =
    rw (getline_crlf line (render_headers hs ++ (b'\r' ∷ b'\n' ∷ body)) l, parse_request)
      (rw (strip_cr-append line) (parse_rest-render_headers line hs body h b))

-- A request that to_string writes unambiguously: three words, a std::map of headers, a body with no
-- NUL.
pub record IsRequest (r : HttpRequest) : Type 0 where
  pub method : IsWord r.method
  pub target : IsWord r.target
  pub version : IsWord r.version
  pub headers : AreHeaders r.headers
  pub body : Lacks 0 r.body

pub request_line-Lacks :
    (m t v : Bytes) → IsWord m → IsWord t → IsWord v → Lacks b'\n' (request_line m t v)
unfolding is_space
request_line-Lacks m t v hm ht hv =
    All-append (λ x. x ≢ b'\n') m _ (IsSolid-ne b'\n' m refl hm.solid)
      (
        omega arith,
        All-append (λ x. x ≢ b'\n') t _ (IsSolid-ne b'\n' t refl ht.solid)
            (omega arith, IsSolid-ne b'\n' v refl hv.solid),
      )

-- A request line of three words, with any well-formed headers, reads back as those words and the
-- map of those headers.
pub parse_request-request_line :
    (m t v : Bytes) (hs : Map) (body : Bytes)
    → IsWord m
    → IsWord t
    → IsWord v
    → All IsHeader hs
    → Lacks 0 body
    → parse_request (message (request_line m t v) hs body)
      ≡ record { method = m; target = t; version = v; headers = insert_all [] hs; body = body }
parse_request-request_line m t v hs body hm ht hv h b =
    let (first, second, third) = read_word-request_line m t v hm ht hv in
    parse_request-message (request_line m t v) hs body (request_line-Lacks m t v hm ht hv) h b
    ∙ rw first (rw second (rw third))

-- parse_request is a left inverse of to_string: a request of three words without white space, whose
-- header names hold no colon and no newline, whose values hold no newline and begin with no blank,
-- whose keys ascend and whose body holds no NUL is read back field for field.
pub parse_request-request_to_string :
    (r : HttpRequest) → IsRequest r → parse_request (request_to_string r) ≡ r
unfolding request_to_string
parse_request-request_to_string r h =
    parse_request-request_line r.method r.target r.version r.headers r.body h.method h.target
      h.version h.headers.0 h.body
    ∙ rw (insert_all-IsSorted r.headers h.headers.1)

-- Reading is stable: whatever the bytes, if the three words of the first line are there, then
-- printing the request that was read and reading it again gives the same request.
parse_request_stable :
    (raw : Bytes)
    → (parse_request raw).method ≢ []
    → (parse_request raw).target ≢ []
    → (parse_request raw).version ≢ []
    → parse_request (request_to_string (parse_request raw)) ≡ parse_request raw
parse_request_stable raw m t v =
    let c = parse_request-IsClean raw in
    parse_request-request_to_string (parse_request raw) (record {
      method = record { solid = c.method; nonempty = m };
      target = record { solid = c.target; nonempty = t };
      version = record { solid = c.version; nonempty = v };
      headers = c.headers;
      body = c.body;
    })
