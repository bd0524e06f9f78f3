-- ===== src/Http/Generated.antt =====
-- What a client reads from the responses of generate_http_response.
use market_bridge.Base.{
  ◌≡◌, refl, ◌∙◌, [], ◌∷◌, Option, none, some, Bytes, codes, arith, length, compare_bytes, is_empty,
  if◌then◌else◌, equal,
}
use market_bridge.Base.Decimal.{to_string}
use market_bridge.Base.Map.{find, insert, find-insert, insert-IsSorted}
use market_bridge.Http.Message.{
  HttpResponse, HttpResponseCodes, HttpResponseContentType, text_plain, application_json,
  HttpResponseConnection, close, keep_alive, status_of, content_length, connection_key,
  content_type_key, content_type_text, response_to_string, entity_headers, with_connection,
  generate_http_response,
}
use market_bridge.Http.Parse.{parse_request, trim_leading}
use market_bridge.Http.Lines.{Lacks, IsHeader, IsValue}
use market_bridge.Http.Clean.{AreHeaders, All-insert}
use market_bridge.Http.Framing.{
  framed_headers, length-IsHeader, response_status, response_to_string_framed,
}

content_type-IsValue : (t : HttpResponseContentType) → IsValue (content_type_text t)
unfolding content_type_text trim_leading
content_type-IsValue text_plain = record { newline = omega arith; trimmed = refl }
content_type-IsValue application_json = record { newline = omega arith; trimmed = refl }

entry-IsHeader : (k v : Bytes) → Lacks b':' k → Lacks b'\n' k → IsValue v → IsHeader (k, v)
entry-IsHeader k v colon newline h = record {
  name_colon = colon;
  name_newline = newline;
  value_newline = h.newline;
  trimmed = h.trimmed;
}

entity_headers-AreHeaders :
    (body : Bytes) (t : HttpResponseContentType) → AreHeaders (entity_headers body t)
unfolding entity_headers insert compare_bytes is_empty trim_leading
entity_headers-AreHeaders [] t = (
  (
    entry-IsHeader content_length _ (omega arith) (omega arith)
        (record { newline = omega arith; trimmed = refl }),
    tt,
  ),
  (tt, tt),
)
entity_headers-AreHeaders (b ∷ body) t = (
  (
    length-IsHeader _,
    (entry-IsHeader content_type_key _ (omega arith) (omega arith) (content_type-IsValue t), tt),
  ),
  ((refl, tt), (tt, tt)),
)

generated_headers :
    (c : HttpResponseConnection) (body : Bytes) (t : HttpResponseContentType)
    → AreHeaders (with_connection c (entity_headers body t))
unfolding with_connection trim_leading
generated_headers close body t =
    let h = entity_headers-AreHeaders body t in
    (
      All-insert connection_key _ (entity_headers body t)
          (entry-IsHeader connection_key _ (omega arith) (omega arith)
            (record { newline = omega arith; trimmed = refl }))
          h.0,
      insert-IsSorted connection_key _ (entity_headers body t) h.1,
    )
generated_headers keep_alive body t = entity_headers-AreHeaders body t

entity_length :
    (body : Bytes) (t : HttpResponseContentType)
    → find content_length (entity_headers body t) ≡ some (to_string (length body))
unfolding entity_headers insert compare_bytes is_empty find to_string
entity_length [] t = refl
entity_length (b ∷ body) t = refl

generated_length :
    (c : HttpResponseConnection) (body : Bytes) (t : HttpResponseContentType)
    → find content_length (with_connection c (entity_headers body t))
      ≡ some (to_string (length body))
unfolding with_connection equal
generated_length close body t =
    find-insert connection_key (codes "close") content_length (entity_headers body t)
    ∙ entity_length body t
generated_length keep_alive body t = entity_length body t

-- What the arguments of generate_http_response ask for.
abbrev pub connection_value : HttpResponseConnection → Option Bytes
connection_value close = some (codes "close")
connection_value keep_alive = none

abbrev pub content_type_value : Bytes → HttpResponseContentType → Option Bytes
content_type_value body t = if is_empty body then none else some (content_type_text t)

entity_connection :
    (body : Bytes) (t : HttpResponseContentType)
    → find connection_key (entity_headers body t) ≡ none
unfolding entity_headers insert compare_bytes is_empty find
entity_connection [] t = refl
entity_connection (b ∷ body) t = refl

entity_content_type :
    (body : Bytes) (t : HttpResponseContentType)
    → find content_type_key (entity_headers body t) ≡ content_type_value body t
unfolding entity_headers insert compare_bytes is_empty find
entity_content_type [] t = refl
entity_content_type (b ∷ body) t = refl

generated_connection :
    (c : HttpResponseConnection) (body : Bytes) (t : HttpResponseContentType)
    → find connection_key (with_connection c (entity_headers body t)) ≡ connection_value c
unfolding with_connection equal
generated_connection close body t =
    find-insert connection_key (codes "close") connection_key (entity_headers body t)
generated_connection keep_alive body t = entity_connection body t

generated_content_type :
    (c : HttpResponseConnection) (body : Bytes) (t : HttpResponseContentType)
    → find content_type_key (with_connection c (entity_headers body t)) ≡ content_type_value body t
unfolding with_connection equal
generated_content_type close body t =
    find-insert connection_key (codes "close") content_type_key (entity_headers body t)
    ∙ entity_content_type body t
generated_content_type keep_alive body t = entity_content_type body t

-- A client that reads a generated response as parse_request reads a message finds the status code
-- as its second word, the body, its size as the Content-Length, a Content-Type exactly where the body
-- is not empty, and "Connection: close" exactly where it was asked for; on every branch. The reason
-- must hold no newline and the body no NUL.
pub generate_http_response_framed :
    (code : HttpResponseCodes) (reason body : Bytes) (t : HttpResponseContentType)
    (c : HttpResponseConnection)
    → Lacks b'\n' reason
    → Lacks 0 body
    → let seen = parse_request (response_to_string (generate_http_response code reason body t c)) in
      (seen.target ≡ to_string (status_of code))
      × (seen.body ≡ body)
      × (find content_length seen.headers ≡ some (to_string (length body)))
      × (find content_type_key seen.headers ≡ content_type_value body t)
      × (find connection_key seen.headers ≡ connection_value c)
unfolding generate_http_response
generate_http_response_framed code reason body t c no_newline no_nul =
    let m = with_connection c (entity_headers body t) in
    let r : HttpResponse = record {
      status_code = status_of code;
      reason = reason;
      headers = m;
      body = body;
    } in
    let framed =
      response_to_string_framed r
        (record { reason = no_newline; headers = generated_headers c body t; body = no_nul }) in
    let same : framed_headers r ≡ m = rw (generated_length c body t, framed_headers) refl in
    (
      response_status r
          (record { reason = no_newline; headers = generated_headers c body t; body = no_nul }),
      framed.1,
      rw (framed.0 ∙ same) (generated_length c body t),
      rw (framed.0 ∙ same) (generated_content_type c body t),
      rw (framed.0 ∙ same) (generated_connection c body t),
    )
