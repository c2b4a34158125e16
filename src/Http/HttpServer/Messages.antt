-- ===== src/Http/HttpServer/Messages.antt =====
-- `onMessage`: the parser, the reply and the reset together.
use carf_lib.Shared.{
  ℕ, suc, ◌^◌, ◌<◌, ◌≡◌, refl, ap, ◌∙◌, ◌≢◌, inl, inr, Bool, true, false, Option, some, List, [],
  ◌∷◌, ◌++◌, map, arith, Option-cases, ◌>>=◌, Bytes, find_byte, length, take, take-append_le,
}
use carf_lib.Shared.StdMap.{bytes_key}
use carf_lib.Net.Buffer.{Buffer, IsValid, contents}
use carf_lib.Http.HttpRequest.{HttpRequest, Method, method_of, set_method}
use carf_lib.Http.HttpResponse.{HttpResponse, StatusCode, append_to_buffer, crlf}
use carf_lib.Http.HttpResponse
use carf_lib.Http.HttpContext.{
  HttpContext, ParseState, Outcome, parsed, threw, hung, parse_request, is_got_all, initial,
  process_request_line, process_target, set_version_text,
}
use carf_lib.Http.HttpServer.{
  Host, Users, Event, default_http_callback, closes, after_parse, on_message, bad_request,
}
use carf_lib.Net.Buffer.{find_crlf, crlf_in, readable_bytes}
use carf_lib.Net.Buffer.Search.{crlf_in_bound, crlf_in-append}
use carf_lib.Http.HttpContext.{parse_loop, pass, resume, stop, take_request_line}
use carf_lib.Http.HttpContext.Refines.{view}
use carf_lib.Http.HttpContext.RoundTrip.{
  Head, IsPrintable, render, request_of, parse_request-render,
}
use carf_lib.Http.HttpServer.Replies.{reply, on_request_lem}

-- An outcome seen through its content is one with that content.
pub view_parsed :
    (o : Outcome Buffer) (ok : Bool) (c : HttpContext) (s : Bytes)
    → view o ≡ parsed ok c s
    → (b : Buffer) × (o ≡ parsed ok c b) × (contents b ≡ s)
view_parsed (parsed ok' c' b) ok c s e = (b, ground arith, ground arith)
view_parsed threw ok c s e = cc
view_parsed hung ok c s e = cc

-- The buffer completes the head, whatever the parser had before.
pub on_message-answers :
    (host : Host) (users users' : Users) (c : HttpContext) (q : Head) (rest : Bytes) (buf : Buffer)
    (resp : HttpResponse)
    → view (parse_request c buf)
      ≡ parsed true (record { request = request_of q; parse_state = ParseState.got_all }) rest
    → default_http_callback host users (request_of q) (HttpResponse.fresh (closes (request_of q)))
      ≡ some (resp, users')
    → length resp.body < 10 ^ 13
    → (left : Buffer) × (on_message host users c buf
        ≡ some (record {
          context = initial;
          input = left;
          users = users';
          events = reply resp (closes (request_of q));
        }))
      × (contents left ≡ rest)
unfolding on_message after_parse is_got_all
on_message-answers host users users' c q rest buf resp e cb h =
    let (left, seen, same) = view_parsed (parse_request c buf) true _ rest e in
    (left, rw (seen, on_request_lem host users users' (request_of q) resp cb h), same)

-- A head whose method is not POST arrives whole on a connection with a fresh parser, and the callback
-- answers it with a body below 10 ^ 13 bytes: the one reply is sent, the write side is shut exactly if
-- the request asks for it, the parser is fresh again, and what stood behind the head stays in the
-- buffer, unanswered even where it is another whole request.
pub on_message-render :
    (host : Host) (users users' : Users) (q : Head) (rest : Bytes) (buf : Buffer)
    (resp : HttpResponse)
    → IsPrintable q
    → method_of q.method ≢ Method.post
    → IsValid buf
    → contents buf ≡ render q rest
    → default_http_callback host users (request_of q) (HttpResponse.fresh (closes (request_of q)))
      ≡ some (resp, users')
    → length resp.body < 10 ^ 13
    → (left : Buffer) × (on_message host users initial buf
        ≡ some (record {
          context = initial;
          input = left;
          users = users';
          events = reply resp (closes (request_of q));
        }))
      × (contents left ≡ rest)
on_message-render host users users' q rest buf resp p m v e cb h =
    on_message-answers host users users' initial q rest buf resp
      (parse_request-render q rest buf p m v e) cb h

pass_bad_line :
    (c : HttpContext) (buf : Buffer) (i : ℕ)
    → find_crlf buf ≡ some i
    → (process_request_line c.request (take i (contents buf))).1 ≡ false
    → pass ParseState.expect_request_line c buf
      ≡ stop false
          (record c { request = (process_request_line c.request (take i (contents buf))).0 })
          buf
unfolding pass take_request_line
pass_bad_line c buf i e bad = rw (e, pass) (rw bad)

-- Where the request is not complete, nothing is answered but a failed parse.
pub after_parse_waiting :
    (host : Host) (users : Users) (ok : Bool) (c : HttpContext) (buf : Buffer)
    → is_got_all c.parse_state ≡ false
    → after_parse host users (parsed ok c buf)
      ≡ some (record { context = c; input = buf; users = users; events = bad_request ok })
unfolding after_parse
after_parse_waiting host users ok c buf h = rw h

-- Whether a line is refused does not hang on the request that it is read into.
set_version_text-same :
    (r r' : HttpRequest) (word : Bytes) → (set_version_text r word).1 ≡ (set_version_text r' word).1
unfolding set_version_text
set_version_text-same r r' word = ground arith

process_target-same :
    (r r' : HttpRequest) (text : Bytes) → (process_target r text).1 ≡ (process_target r' text).1
unfolding process_target
process_target-same r r' text = elim (Option-cases (find_byte b' ' text)) [
  | inl missing ↦ rw (missing, process_target) refl
  | inr (i, found) ↦ rw (found, process_target) (set_version_text-same _ _ _)
]

process_request_line-same :
    (r r' : HttpRequest) (line : Bytes)
    → (process_request_line r line).1 ≡ (process_request_line r' line).1
unfolding set_method process_request_line
process_request_line-same r r' line = elim (Option-cases (find_byte b' ' line)) [
  | inl missing ↦ rw (missing, process_request_line) refl
  | inr (i, found) ↦ rw (found, process_request_line) (process_target-same _ _ _)
]

-- The reply to a refused line, and what the call leaves.
bad_line :
    (host : Host) (users : Users) (c : HttpContext) (buf : Buffer) (i : ℕ)
    → c.parse_state ≡ ParseState.expect_request_line
    → find_crlf buf ≡ some i
    → (process_request_line c.request (take i (contents buf))).1 ≡ false
    → on_message host users c buf
      ≡ some (record {
        context = record c { request = (process_request_line c.request (take i (contents buf))).0 };
        input = buf;
        users = users;
        events = bad_request false;
      })
unfolding on_message parse_request parse_loop is_got_all
bad_line host users c buf i st e bad =
    let k : HttpContext → Buffer → Outcome Buffer = parse_loop (suc (readable_bytes buf)) in
    ap (λ s. after_parse host users (resume (pass s c buf) k)) st
    ∙ ap (λ p. after_parse host users (resume p k)) (pass_bad_line c buf i e bad)
    ∙ after_parse_waiting host users false _ buf (ap is_got_all st)

-- The calls of `onMessage` on what the buffer is at each of them: what each leaves in the buffer, and
-- its events.
unfoldable pub answers :
    Host → Users → HttpContext → List Buffer → Option (List (Buffer × List Event))
answers host users c [] = some []
answers host users c (buf ∷ later) = do
  h ← on_message host users c buf
  rest ← answers host h.users h.context later
  some ((h.input, h.events) ∷ rest)

-- Each buffer holds what the one before it holds, and perhaps more.
unfoldable pub Grows : Bytes → List Buffer → Type 0
Grows seen [] = Unit {0}
Grows seen (buf ∷ later) =
    ((more : Bytes) × (contents buf ≡ seen ++ more)) × Grows (contents buf) later

-- A line that is refused is the first one whatever follows, and refused again.
still_bad :
    (seen more : Bytes) (i : ℕ) (buf : Buffer) (r r' : HttpRequest)
    → crlf_in seen ≡ some i
    → (process_request_line r (take i seen)).1 ≡ false
    → contents buf ≡ seen ++ more
    → (crlf_in (contents buf) ≡ some i)
      × ((process_request_line r' (take i (contents buf))).1 ≡ false)
still_bad seen more i buf r r' e bad grown =
    let same : take i (seen ++ more) ≡ take i seen =
      take-append_le i seen more (omega (arith, crlf_in_bound seen i e)) in
    (
      ap crlf_in grown ∙ crlf_in-append seen more i e,
      ap (λ s. (process_request_line r' (take i s)).1) grown
          ∙ ap (λ s. (process_request_line r' s).1) same
          ∙ process_request_line-same r' r (take i seen)
          ∙ bad,
    )

-- A first line that the parser refuses when it reads it into some request has arrived whole on a
-- connection that waits for a request line. Then `onMessage`, called any number of times while more bytes may
-- arrive behind the line between two calls, answers each call with the error reply and shuts the write
-- side, and takes nothing out of the buffer: the line is never passed, and what comes behind it is
-- never read as a request.
pub on_message-bad_line :
    (host : Host) (users : Users) (c : HttpContext) (seen : Bytes) (bufs : List Buffer) (i : ℕ)
    (r : HttpRequest)
    → c.parse_state ≡ ParseState.expect_request_line
    → crlf_in seen ≡ some i
    → (process_request_line r (take i seen)).1 ≡ false
    → Grows seen bufs
    → answers host users c bufs ≡ some (map (λ buf. (buf, bad_request false)) bufs)
unfolding answers Grows
on_message-bad_line host users c seen [] i r st e bad grows = refl
on_message-bad_line host users c seen (buf ∷ later) i r st e bad ((more, grown), grows) =
    let (first, refused) = still_bad seen more i buf r c.request e bad grown in
    let c' = record c { request = (process_request_line c.request (take i (contents buf))).0 } in
    rw
      (
        bad_line host users c buf i st (unfold find_crlf in first) refused,
        on_message-bad_line host users c' (contents buf) later i c.request st first refused grows,
      )
      refl
