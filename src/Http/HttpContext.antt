-- ===== src/Http/HttpContext.antt =====
-- http/HttpContext.h and http/HttpContext.cc: the request parser of a connection, a state machine
-- that takes lines off the input buffer. A range of pointers is the list of the bytes in it.
pub mod Text
pub mod Refines
pub mod Terminates
pub mod Chunks
pub mod Prefix
pub mod Lines
pub mod RoundTrip
pub mod Headers
pub mod Body
use carf_lib.Shared.{
  ℕ, zero, suc, ◌+◌, ◌-◌, ◌*◌, ◌/◌, ◌%◌, ◌^◌, ◌≤◌, ◌<◌, min, ◌≡◌, refl, sym, ap, ap₂, ◌∙◌, subst,
  ◌≢◌, ◌↔◌, ◌⊎◌, inl, inr, Bool, true, false, not, ◌&&◌, ◌||◌, Option, none, some, List, [], ◌∷◌,
  ◌++◌, map, append-nil, append_assoc, arith, ltb, leb, ◌==◌, if◌then◌else◌, ==_iff, Bool-cases,
  Option-cases, ◌>>=◌, Bytes, codes, bytes_eq, bytes_eq_iff, find_byte, is_space, length, get_elem?,
  take, drop, replicate, length-append, take-append-drop, length-take, length-drop,
  length-replicate, take-append, drop-append, take-append_le, drop-append_le, take_all, drop_all,
  drop-drop, take-drop, take-take, take-append_split, drop-append_split, take-replicate,
  drop-replicate,
}
use carf_lib.Shared.Stoi.{ℤ, pos, negsuc, stoi}
use carf_lib.Net.Buffer.{
  Buffer, contents, find_crlf, retrieve_len, retrieve_all, is_empty, readable_bytes,
}
use carf_lib.Http.HttpRequest.{
  HttpRequest, Method, Version, fresh, set_method, set_path, set_query, set_version, add_header,
  append_body, body_length, get_header,
}

pub data ParseState : Type 0 where
  expect_request_line expect_headers expect_body got_all : ParseState

pub record HttpContext : Type 0 where
  pub request : HttpRequest
  pub parse_state : ParseState

-- The constructor, and what `reset()` leaves: `HttpRequest` is swapped with a fresh one.
abbrev pub initial : HttpContext
initial = record { request = fresh; parse_state = ParseState.expect_request_line }

unfoldable pub is_got_all : ParseState → Bool
is_got_all ParseState.got_all = true
is_got_all _ = false

abbrev pub reset : HttpContext → HttpContext
reset c = initial

-- `/path?query`: the query keeps its question mark.
unfoldable pub set_target : HttpRequest → Bytes → HttpRequest
set_target r target = elim (find_byte b'?' target) [
  | none ↦ set_path r target
  | some q ↦ set_query (set_path r (take q target)) (drop q target)
]

abbrev byte_or : Option ℕ → ℕ
byte_or none = 0
byte_or (some c) = c

-- The last of the three words: eight bytes, "HTTP/1." and a digit.
unfoldable pub set_version_text : HttpRequest → Bytes → HttpRequest × Bool
set_version_text r word =
    if length word == 8 && bytes_eq (take 7 word) (codes "HTTP/1.")
    then if byte_or (get_elem? word 7) == b'1'
      then (set_version r Version.http11, true)
      else if byte_or (get_elem? word 7) == b'0'
      then (set_version r Version.http10, true)
      else (r, false)
    else (r, false)

unfoldable pub process_target : HttpRequest → Bytes → HttpRequest × Bool
process_target r rest = elim (find_byte b' ' rest) [
  | none ↦ (r, false)
  | some i ↦ set_version_text (set_target r (take i rest)) (drop (suc i) rest)
]

-- A line that is refused may have changed the request already.
unfoldable pub process_request_line : HttpRequest → Bytes → HttpRequest × Bool
process_request_line r line = elim (find_byte b' ' line) [
  | none ↦ (r, false)
  | some i ↦
      let (r', known) = set_method r (take i line) in
      if known then process_target r' (drop (suc i) line) else (r', false)
]

-- One pass of the loop of `parseRequest` over input of type `A`. `std::stoi` may throw.
pub data Pass (A : Type 0) : Type 0 where
  again : HttpContext → A → Pass A
  stop : Bool → HttpContext → A → Pass A
  throws : Pass A

-- `kExpectRequestLine`, on the line found and the input behind it.
unfoldable pub take_request_line : {A : Type 0} → HttpContext → A → Bytes → A → Pass A
take_request_line c buf line rest =
    let (r, ok) = process_request_line c.request line in
    if ok
    then again (record { request = r; parse_state = ParseState.expect_headers }) rest
    else stop false (record c { request = r }) buf

-- `kExpectHeaders`: the state behind a line with no colon.
unfoldable pub after_headers : Method → ParseState
after_headers Method.post = ParseState.expect_body
after_headers _ = ParseState.got_all

unfoldable pub take_header : HttpContext → Bytes → HttpContext
take_header c line = elim (find_byte b':' line) [
  | some i ↦ record c { request = add_header c.request (take i line) (drop (suc i) line) }
  | none ↦ record c { parse_state = after_headers c.request.method }
]

abbrev is_length : ℤ → ℕ → Bool
is_length (pos n) len = len == n
is_length (negsuc n) len = false

-- `kExpectBody`, where input is there: all of it is the body, and the state moves on where its length
-- is the one announced.
unfoldable pub take_body : {A : Type 0} → HttpContext → ℤ → Bytes → A → Pass A
take_body c announced text rest =
    let r = append_body c.request text in
    again
      (record {
        request = r;
        parse_state =
            if is_length announced (body_length r) then ParseState.got_all else c.parse_state;
      })
      rest

-- The line at the front of the buffer, and the buffer with the line and its CR LF retrieved.
abbrev pub line_of : Buffer → ℕ → Bytes
line_of buf i = take i (contents buf)

abbrev pub past_line : Buffer → ℕ → Buffer
past_line buf i = (retrieve_len buf (i + 2)).1

-- The part of the input that is taken for the body: what stands behind a CR LF, if there is one.
unfoldable pub skip_crlf : Buffer → Buffer
skip_crlf buf = elim (find_crlf buf) [ none ↦ buf | some i ↦ past_line buf i ]

unfoldable pub body_pass : HttpContext → Buffer → Option ℤ → Pass Buffer
body_pass c buf none = throws
body_pass c buf (some n) =
    let buf' = skip_crlf buf in
    if is_length n 0
    then again (record c { parse_state = ParseState.got_all }) buf
    else if not (is_empty buf)
    then take_body c n (contents buf') (retrieve_all buf').1
    else stop true c buf

unfoldable pub pass : ParseState → HttpContext → Buffer → Pass Buffer
pass ParseState.expect_request_line c buf = elim (find_crlf buf) [
  | none ↦ stop true c buf
  | some i ↦ take_request_line c buf (line_of buf i) (past_line buf i)
]
pass ParseState.expect_headers c buf = elim (find_crlf buf) [
  | none ↦ stop true c buf
  | some i ↦ again (take_header c (line_of buf i)) (past_line buf i)
]
pass ParseState.expect_body c buf =
    body_pass c buf (stoi (get_header c.request (codes "Content-Length")))
pass ParseState.got_all c buf = stop true c buf

-- How `parseRequest` ends. `hung` is fuel run out, which `parse_total` excludes.
pub data Outcome (A : Type 0) : Type 0 where
  parsed : Bool → HttpContext → A → Outcome A
  threw hung : Outcome A

abbrev pub resume : {A : Type 0} → Pass A → (HttpContext → A → Outcome A) → Outcome A
resume (again c buf) k = k c buf
resume (stop ok c buf) k = parsed ok c buf
resume throws k = threw

unfoldable pub parse_loop : ℕ → HttpContext → Buffer → Outcome Buffer
parse_loop zero c buf = hung
parse_loop (suc fuel) c buf = resume (pass c.parse_state c buf) (parse_loop fuel)

-- `parseRequest(buf)`: every pass but one takes a byte at least.
unfoldable pub parse_request : HttpContext → Buffer → Outcome Buffer
parse_request c buf = parse_loop (suc (suc (readable_bytes buf))) c buf
