-- ===== src/Http/HttpContext/RoundTrip.antt =====
-- A request head that is printed as HTTP has it is read back.
use carf_lib.Shared.{
  ◌≡◌, refl, sym, ap, ◌∙◌, ◌≢◌, true, List, [], ◌∷◌, ◌++◌, append-nil, Bytes, find_byte, is_space,
  take-append,
}
use carf_lib.Shared.StdMap.{assign, bytes_key}
use carf_lib.Net.Buffer.{Buffer, IsValid, contents}
use carf_lib.Http.HttpRequest.{
  HttpRequest, Method, Version, fresh, method_of, set_method, set_version, add_header, header_value,
}
use carf_lib.Http.HttpRequest.Trim.{IsTrimmed, header_value_trim}
use carf_lib.Http.HttpContext.{
  ParseState, HttpContext, again, take_header, initial, parsed, resume, process_request_line,
  after_headers, parse_request,
}
use carf_lib.Http.HttpContext.Refines.{view, parse_request-view}
use carf_lib.Http.HttpContext.Text.{text_pass, parse_text}
use carf_lib.Http.HttpContext.Terminates.{parse_text_lem}
use carf_lib.Http.HttpContext.Lines.{
  Without, Without-append, find_byte_first, drop_past, version_text, known_version, IsQuery,
  set_target_lem, process_request_line_lem, line_end, request_line_pass, header_pass,
}

-- The head of a request, as a client prints it.
pub record Head : Type 0 where
  pub method : Bytes
  pub path : Bytes
  pub query : Bytes
  pub version : Version
  pub headers : List (Bytes × Bytes)

-- `field: value` and CR LF for each header.
abbrev pub header_lines : List (Bytes × Bytes) → Bytes → Bytes
header_lines [] rest = rest
header_lines ((f, v) ∷ hs) rest = (f ++ b':' ∷ b' ' ∷ v) ++ line_end (header_lines hs rest)

abbrev pub request_line : Head → Bytes
request_line q = q.method ++ b' ' ∷ ((q.path ++ q.query) ++ b' ' ∷ version_text q.version)

-- The request line, the headers and an empty line, in front of what follows.
abbrev pub render : Head → Bytes → Bytes
render q rest = request_line q ++ line_end (header_lines q.headers (line_end rest))

abbrev pub HeadersOk : List (Bytes × Bytes) → Type 0
HeadersOk [] = Unit {0}
HeadersOk ((f, v) ∷ hs) = Without 13 f × Without b':' f × Without 13 v × IsTrimmed v × HeadersOk hs

-- No part holds a byte that would end it.
pub record IsPrintable (q : Head) : Type 0 where
  pub method_space : Without b' ' q.method
  pub target_space : Without b' ' (q.path ++ q.query)
  pub path_mark : Without b'?' q.path
  pub query_mark : IsQuery q.query
  pub line : Without 13 (request_line q)
  pub headers_ok : HeadersOk q.headers

-- `headers_[field] = value` for each header in turn: a later one replaces an earlier of its name.
abbrev pub store : List (Bytes × Bytes) → List (Bytes × Bytes) → List (Bytes × Bytes)
store [] m = m
store ((f, v) ∷ hs) m = store hs (assign f v m)

abbrev pub request_of : Head → HttpRequest
request_of q = record {
  headers = store q.headers [];
  path = q.path;
  query = q.query;
  body = [];
  method = method_of q.method;
  version = known_version q.version;
}

header_value_after_blank : (v : Bytes) → IsTrimmed v → header_value (b' ' ∷ v) ≡ v
unfolding is_space
header_value_after_blank v t =
    ap (λ s. header_value (b' ' ∷ s)) (sym (append-nil v))
    ∙ header_value_trim (b' ' ∷ []) v [] (refl, tt) t tt

pub take_header_lem :
    (c : HttpContext) (f v : Bytes)
    → Without b':' f
    → IsTrimmed v
    → take_header c (f ++ b':' ∷ b' ' ∷ v)
      ≡ record c { request = record c.request { headers = assign f v c.request.headers } }
unfolding take_header add_header
take_header_lem c f v h t = rw (
  find_byte_first b':' f (b' ' ∷ v) h,
  take-append f (b':' ∷ b' ' ∷ v),
  drop_past b':' f (b' ' ∷ v),
  header_value_after_blank v t,
  take_header,
)

pub step_on :
    (c c' : HttpContext) (s s' : Bytes)
    → text_pass c.parse_state c s ≡ again c' s'
    → parse_text c s ≡ parse_text c' s'
step_on c c' s s' e = parse_text_lem c s ∙ ap (λ p. resume p parse_text) e

abbrev pub in_headers : HttpRequest → HttpContext
in_headers r = record { request = r; parse_state = ParseState.expect_headers }

parse_text-headers :
    (hs : List (Bytes × Bytes)) (r : HttpRequest) (rest : Bytes)
    → HeadersOk hs
    → parse_text (in_headers r) (header_lines hs (line_end rest))
      ≡ parse_text
          (record {
            request = record r { headers = store hs r.headers };
            parse_state = after_headers r.method;
          })
          rest
parse_text-headers [] r rest h =
    step_on (in_headers r) _ (line_end rest) rest
      (header_pass (in_headers r) [] rest tt ∙ unfold take_header find_byte in refl)
parse_text-headers ((f, v) ∷ hs) r rest h =
    step_on (in_headers r) (in_headers (record r { headers = assign f v r.headers })) _ _ (
      header_pass (in_headers r) (f ++ b':' ∷ b' ' ∷ v) (header_lines hs (line_end rest))
        (Without-append 13 f (b':' ∷ b' ' ∷ v) h.0 (refl, (refl, h.2)))
      ∙ ap (λ c. again c (header_lines hs (line_end rest)))
          (take_header_lem (in_headers r) f v h.1 h.3))
    ∙ parse_text-headers hs (record r { headers = assign f v r.headers }) rest h.4

pub process-request_line :
    (q : Head)
    → IsPrintable q
    → process_request_line fresh (request_line q) ≡ (record (request_of q) { headers = [] }, true)
unfolding set_method
process-request_line q p =
    process_request_line_lem fresh q.method (q.path ++ q.query) q.version p.method_space
      p.target_space
    ∙ ap (λ r. (set_version r (known_version q.version), true))
        (set_target_lem (set_method fresh q.method).0 q.path q.query p.path_mark p.query_mark refl)

pub parse_text-render :
    (q : Head) (rest : Bytes)
    → IsPrintable q
    → parse_text initial (render q rest)
      ≡ parse_text
          (record { request = request_of q; parse_state = after_headers (method_of q.method) })
          rest
parse_text-render q rest p =
    step_on initial (in_headers (record (request_of q) { headers = [] })) _
      (header_lines q.headers (line_end rest))
      (request_line_pass initial (request_line q) _ _ p.line (process-request_line q p))
    ∙ parse_text-headers q.headers (record (request_of q) { headers = [] }) rest p.headers_ok

after_headers_done : (m : Method) → m ≢ Method.post → after_headers m ≡ ParseState.got_all
unfolding after_headers
after_headers_done Method.post h = absurd (h refl)
after_headers_done _ h = refl

pub parse_text_whole :
    (q : Head) (rest : Bytes)
    → IsPrintable q
    → method_of q.method ≢ Method.post
    → parse_text initial (render q rest)
      ≡ parsed true (record { request = request_of q; parse_state = ParseState.got_all }) rest
parse_text_whole q rest p m =
    parse_text-render q rest p
    ∙ ap (λ st. parse_text (record { request = request_of q; parse_state = st }) rest)
        (after_headers_done (method_of q.method) m)
    ∙ parse_text_lem _ rest
    ∙ unfold text_pass in refl

-- For a printable head whose method is not POST, with anything behind it in the buffer, a fresh parser
-- reads the whole head in one call: it is done, holds the method, path, query, version and headers that
-- were printed and no body, and leaves the bytes behind the head.
pub parse_request-render :
    (q : Head) (rest : Bytes) (buf : Buffer)
    → IsPrintable q
    → method_of q.method ≢ Method.post
    → IsValid buf
    → contents buf ≡ render q rest
    → view (parse_request initial buf)
      ≡ parsed true (record { request = request_of q; parse_state = ParseState.got_all }) rest
parse_request-render q rest buf p m v e =
    (parse_request-view initial buf v).0 ∙ ap (parse_text initial) e ∙ parse_text_whole q rest p m
