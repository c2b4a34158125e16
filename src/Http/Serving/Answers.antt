-- ===== src/Http/Serving/Answers.antt =====
-- The event that completes a request is answered, and the answer is written in order.
use carf_lib.Shared.{
  ℕ, ◌^◌, ◌<◌, ◌≡◌, refl, sym, ap, ◌∙◌, subst, ◌≢◌, Bool, true, false, Option, none, some, List, [],
  ◌∷◌, ◌++◌, append-nil, if◌then◌else◌, ◌>>=◌, some_eq, Bytes, length,
}
use carf_lib.Shared.StdMap.{bytes_key}
use carf_lib.Net.Buffer.{Buffer, IsValid, contents, writable_bytes, readable_bytes}
use carf_lib.Net.TcpConnection.{
  TcpConnection, Written, Received, State, closed, message, handle_read, read_into, send,
  shutdown_write,
}
use carf_lib.Net.TcpConnection
use carf_lib.Http.HttpContext.{initial}
use carf_lib.Http.HttpServer.{Host, Users, sends, shuts_write, default_http_callback, closes}
use carf_lib.Http.HttpRequest.{Method, method_of}
use carf_lib.Http.HttpResponse.{HttpResponse}
use carf_lib.Http.HttpResponse
use carf_lib.Http.HttpResponse.Text.{response_text}
use carf_lib.Http.HttpContext.RoundTrip.{Head, IsPrintable, render, request_of, parse_text_whole}
use carf_lib.Http.HttpServer.Messages.{on_message-answers}
use carf_lib.Http.HttpContext.Text.{parse_text}
use carf_lib.Http.HttpContext.Refines.{parse_request-view}
use carf_lib.Net.Buffer.Grow.{CanAppend}
use carf_lib.Net.TcpConnection.Sending.{Within, pending, IsSending, Passes, send-Passes}
use carf_lib.Net.TcpConnection.Receiving.{joined, reads, handle_read_et}
use carf_lib.Http.Serving.{perform, Session, after_message, call_back, serve}

perform-reply :
    (c c' : TcpConnection) (text out : Bytes) (b : Bool) (w : Written)
    → send c text w ≡ some (c', out)
    → perform c (sends text ∷ (if b then shuts_write ∷ [] else [])) (w ∷ [])
      ≡ some (if b then shutdown_write c' else c', out)
unfolding perform
perform-reply c c' text out true w e = rw e (ap (λ o. some (shutdown_write c', o)) (append-nil out))
perform-reply c c' text out false w e = rw e (ap (λ o. some (c', o)) (append-nil out))

shut-Passes :
    (c : TcpConnection) (b : Bool) (before out : Bytes)
    → Passes before c out
    → Passes before (if b then shutdown_write c else c) out
shut-Passes c true before out p = record {
  in_order = p.in_order;
  sending = record { valid = p.sending.valid; watched = p.sending.watched };
}
shut-Passes c false before out p = p

guarded_read :
    (c c' : TcpConnection) (b : Bool) (o : Option Buffer) (out s t : Bytes)
    → (let kept : Buffer → Option (TcpConnection × Bytes) =
          λ w. some (record c { write_buffer = w; writing = true }, s) in
        if b then (o >>= kept) else some (c, t))
      ≡ some (c', out)
    → c'.read_buffer ≡ c.read_buffer
guarded_read c c' true none out s t e = absurd cc
guarded_read c c' true (some w) out s t e = ap (λ p. p.0.read_buffer) (sym (some_eq e))
guarded_read c c' false o out s t e = ap (λ p. p.0.read_buffer) (sym (some_eq e))

-- `send` leaves what was read.
send-read :
    (c c' : TcpConnection) (text out : Bytes) (w : Written)
    → send c text w ≡ some (c', out)
    → c'.read_buffer ≡ c.read_buffer
unfolding send TcpConnection.keep_rest
send-read c c' text out w e = guarded_read c c' _ _ out _ _ e

shut-read :
    (c : TcpConnection) (b : Bool) → (if b then shutdown_write c else c).read_buffer ≡ c.read_buffer
shut-read c true = refl
shut-read c false = refl

-- Parser and read buffer go on as a fresh parser does that is given `seen` first.
pub record Sees (s : Session) (seen : Bytes) : Type 0 where
  pub valid : IsValid s.connection.read_buffer
  pub later :
      (t : Bytes)
      → parse_text s.context (contents s.connection.read_buffer ++ t)
        ≡ parse_text initial (seen ++ t)

-- What the reply to a whole request leaves of a session, where `before` was to be written.
pub record Replies (s : Session) (users : Users) (before rest out : Bytes) : Type 0 where
  pub passes : Passes before s.connection out
  pub left : contents s.connection.read_buffer ≡ rest
  pub fresh : s.context ≡ initial
  pub same_users : s.users ≡ users

-- The event that completes the head.
pub serve-answers :
    (host : Host) (s : Session) (users' : Users) (now : ℕ) (chunks : List (ℕ × Bytes)) (w : Written)
    (q : Head) (seen rest : Bytes) (resp : HttpResponse)
    → s.connection.et ≡ true
    → Sees s seen
    → IsSending s.connection
    → length (joined chunks) < writable_bytes s.connection.read_buffer
    → seen ++ joined chunks ≡ render q rest
    → IsPrintable q
    → method_of q.method ≢ Method.post
    → default_http_callback host s.users (request_of q) (HttpResponse.fresh (closes (request_of q)))
      ≡ some (resp, users')
    → length resp.body < 10 ^ 13
    → Within (length (response_text resp)) w
    → CanAppend s.connection.write_buffer (length (response_text resp))
    → (s' : Session) × (out : Bytes) × (serve host s now (reads chunks) (w ∷ []) ≡ some (s', out))
      × Replies s' users' (pending s.connection ++ response_text resp) rest out
unfolding serve call_back
serve-answers host s users' now chunks w q seen rest resp et sees sending room whole printable
      not_post answer small within can =
    let (d, done, r) = handle_read_et s.connection now chunks et sees.valid room in
    let parsed_whole =
      (parse_request-view s.context d.read_buffer r.valid).0
      ∙ ap (parse_text s.context) r.more
      ∙ sees.later (joined chunks)
      ∙ ap (parse_text initial) whole
      ∙ parse_text_whole q rest printable not_post in
    let (left, handled, behind) =
      on_message-answers host s.users users' s.context q rest d.read_buffer resp parsed_whole answer
        small in
    let b = closes (request_of q) in
    let c : TcpConnection = read_into d left in
    let still : IsSending c = record {
      valid = subst IsValid (sym r.same_write) sending.valid;
      watched = λ e. ap readable_bytes r.same_write ∙ sending.watched (sym r.same_writing ∙ e);
    } in
    let (c', out, sent, p) =
      send-Passes c (response_text resp) w still within
        (subst (λ m. CanAppend m (length (response_text resp))) (sym r.same_write) can) in
    let performed = perform-reply c c' (response_text resp) out b w sent in
    (
      record {
        connection = if b then shutdown_write c' else c';
        context = initial;
        users = users';
      },
      out,
      ap (λ o. o >>= call_back host s (w ∷ [])) done
          ∙ ap (λ o. o >>= after_message s d (w ∷ [])) handled
          ∙ ap
              (λ o. o >>= λ (e, sent').
                some (record { connection = e; context = initial; users = users' }, sent'))
              performed,
      record {
        passes =
            subst (λ m. Passes (m ++ response_text resp) (if b then shutdown_write c' else c') out)
              (ap contents r.same_write) (shut-Passes c' b _ out p);
        left =
            ap contents (shut-read c' b ∙ send-read c c' (response_text resp) out w sent) ∙ behind;
        fresh = refl;
        same_users = refl;
      },
    )
