-- ===== src/Http/HttpServer/Replies.antt =====
-- What is sent for a request.
use carf_lib.Shared.{
  ℕ, zero, ◌^◌, ◌<◌, ◌≡◌, refl, sym, ap, ◌∙◌, Bool, true, false, Option, none, some, List, [], ◌∷◌,
  ◌++◌, arith, if◌then◌else◌, >>=-eq-some, Bytes, length, length-replicate,
}
use carf_lib.Shared.StdMap.{bytes_key}
use carf_lib.Net.Buffer.{contents, make}
use carf_lib.Http.HttpRequest.{HttpRequest}
use carf_lib.Http.HttpResponse.{HttpResponse, StatusCode, append_to_buffer, crlf}
use carf_lib.Http.HttpResponse
use carf_lib.Http.HttpServer.{
  Host, Users, Event, sends, shuts_write, fits, page_of, fill_response, default_http_callback,
  closes, on_request,
}
use carf_lib.Http.HttpResponse.Text.{response_text, IsFresh, append_to_buffer-Writes}

make-IsFresh : (n : ℕ) → 0 < n → IsFresh (make n)
unfolding make
make-IsFresh n h = record {
  valid = omega (arith, length-replicate n (zero));
  unread = refl;
  positive = omega (arith, length-replicate n (zero));
}

contents-make : (n : ℕ) → contents (make n) ≡ []
unfolding make contents
contents-make n = refl

-- What `fill_response` never changes, and what it always sets.
fill_response_lem :
    (file : Option (List (Option Bytes))) (r resp : HttpResponse)
    → fill_response file r ≡ some resp
    → (resp.close_connection ≡ r.close_connection) × (resp.status_code ≡ StatusCode.ok_200)
unfolding fill_response
fill_response_lem none r resp e = ground arith
fill_response_lem (some reads) r resp e = ground arith

callback_lem :
    (host : Host) (users users' : Users) (req : HttpRequest) (r resp : HttpResponse)
    → default_http_callback host users req r ≡ some (resp, users')
    → (resp.close_connection ≡ r.close_connection) × (resp.status_code ≡ StatusCode.ok_200)
unfolding default_http_callback
callback_lem host users users' req r resp e =
    let ((page, u), paged, e1) = >>=-eq-some (page_of host users req) _ e in
    let (file_name, fit, e2) = >>=-eq-some (fits 200 (host.working_dir ++ page)) _ e1 in
    let (resp', filled, e3) = >>=-eq-some (fill_response (host.open_file file_name) r) _ e2 in
    let known = fill_response_lem (host.open_file file_name) r resp' filled in
    let same : resp' ≡ resp = ground arith in
    (
      ap (λ (x : HttpResponse). x.close_connection) (sym same) ∙ known.0,
      ap (λ (x : HttpResponse). x.status_code) (sym same) ∙ known.1,
    )

-- The events for a response: its text, and the end of the connection where it closes.
abbrev pub reply : HttpResponse → Bool → List Event
reply resp close = sends (response_text resp) ∷ (if close then shuts_write ∷ [] else [])

reply_lem :
    (b c : Bool) (t u : Bytes)
    → b ≡ c
    → t ≡ u
    → (if b then sends t ∷ shuts_write ∷ [] else sends t ∷ [])
      ≡ sends u ∷ (if c then shuts_write ∷ [] else [])
reply_lem true c t u e f = rw (← e, f)
reply_lem false c t u e f = rw (← e, f)

-- Where the callback answers, with a body below 10 ^ 13 bytes, `onRequest` sends the text of the
-- response, whole and once, and then shuts the connection's write side exactly if the request asks for
-- that: by "Connection: close", or as HTTP/1.0 without "Keep-Alive".
pub on_request_lem :
    (host : Host) (users users' : Users) (req : HttpRequest) (resp : HttpResponse)
    → default_http_callback host users req (HttpResponse.fresh (closes req)) ≡ some (resp, users')
    → length resp.body < 10 ^ 13
    → on_request host users req ≡ some (reply resp (closes req), users')
unfolding on_request
on_request_lem host users users' req resp e h =
    let (buf, wrote, text, f) =
      append_to_buffer-Writes resp (make 1024) h (make-IsFresh 1024 (omega arith)) in
    let close = (callback_lem host users users' req (HttpResponse.fresh (closes req)) resp e).0 in
    rw (e, wrote)
      (ap (λ (evs : List Event). some (evs, users'))
        (reply_lem resp.close_connection (closes req) (contents buf) (response_text resp) close
          (text ∙ ap (λ t. t ++ response_text resp) (contents-make 1024))))
