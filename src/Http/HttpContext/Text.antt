-- ===== src/Http/HttpContext/Text.antt =====
-- The parser over plain text: what `parseRequest` does, with no buffer. This is the specification
-- that the code on buffers is shown to implement, and on which its language is studied.
use carf_lib.Shared.{
  ℕ, zero, suc, ◌+◌, true, not, Option, none, some, [], ◌==◌, if◌then◌else◌, Bytes, codes, length,
  take, drop,
}
use carf_lib.Shared.Stoi.{ℤ, stoi}
use carf_lib.Net.Buffer.{crlf_in}
use carf_lib.Http.HttpRequest.{get_header}
use carf_lib.Http.HttpContext.{
  ParseState, HttpContext, Pass, again, stop, throws, take_request_line, take_header, take_body,
  Outcome, hung, resume, is_length,
}

unfoldable pub skip_text : Bytes → Bytes
skip_text s = elim (crlf_in s) [ none ↦ s | some i ↦ drop (i + 2) s ]

unfoldable pub text_body : HttpContext → Bytes → Option ℤ → Pass Bytes
text_body c s none = throws
text_body c s (some n) =
    if is_length n 0
    then again (record c { parse_state = ParseState.got_all }) s
    else if not (length s == 0)
    then take_body c n (skip_text s) []
    else stop true c s

unfoldable pub text_pass : ParseState → HttpContext → Bytes → Pass Bytes
text_pass ParseState.expect_request_line c s = elim (crlf_in s) [
  | none ↦ stop true c s
  | some i ↦ take_request_line c s (take i s) (drop (i + 2) s)
]
text_pass ParseState.expect_headers c s = elim (crlf_in s) [
  | none ↦ stop true c s
  | some i ↦ again (take_header c (take i s)) (drop (i + 2) s)
]
text_pass ParseState.expect_body c s =
    text_body c s (stoi (get_header c.request (codes "Content-Length")))
text_pass ParseState.got_all c s = stop true c s

unfoldable pub text_loop : ℕ → HttpContext → Bytes → Outcome Bytes
text_loop zero c s = hung
text_loop (suc fuel) c s = resume (text_pass c.parse_state c s) (text_loop fuel)

unfoldable pub parse_text : HttpContext → Bytes → Outcome Bytes
parse_text c s = text_loop (suc (suc (length s))) c s
