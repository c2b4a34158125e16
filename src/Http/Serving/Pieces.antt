-- ===== src/Http/Serving/Pieces.antt =====
-- A request that arrives in several events of the socket.
use carf_lib.Shared.{
  ℕ, ◌^◌, ◌<◌, ◌≡◌, refl, sym, ap, ap₂, ◌∙◌, subst, ◌≢◌, true, false, some, List, [], ◌∷◌, ◌++◌,
  append-nil, append_assoc, arith, ◌>>=◌, Bytes, length, length-append,
}
use carf_lib.Shared.StdMap.{bytes_key}
use carf_lib.Net.Buffer.{Buffer, IsValid, contents, writable_bytes, readable_bytes}
use carf_lib.Net.TcpConnection.{Written, Received, read_into}
use carf_lib.Http.HttpContext.{initial}
use carf_lib.Http.HttpServer.{Host, Users, on_message, default_http_callback, closes}
use carf_lib.Http.HttpRequest.{Method, method_of}
use carf_lib.Http.HttpResponse.{HttpResponse}
use carf_lib.Http.HttpResponse
use carf_lib.Http.HttpResponse.Text.{response_text}
use carf_lib.Http.HttpContext.RoundTrip.{Head, IsPrintable, render, request_of}
use carf_lib.Http.HttpContext.Text.{parse_text}
use carf_lib.Http.HttpContext.Refines.{parse_request-view}
use carf_lib.Net.Buffer.Grow.{CanAppend}
use carf_lib.Net.TcpConnection.Sending.{Within, pending, IsSending}
use carf_lib.Net.TcpConnection.Receiving.{joined, reads, handle_read_et}
use carf_lib.Http.Serving.{perform, Session, after_message, call_back, serve}
use carf_lib.Http.HttpContext.{
  HttpContext, ParseState, Outcome, parsed, threw, hung, parse_request, is_got_all,
}
use carf_lib.Http.HttpContext.Refines.{view, OutcomeValid}
use carf_lib.Http.HttpContext.Chunks.{IsLine, InHead, parse_text-append}
use carf_lib.Http.HttpContext.Prefix.{render-InHead}
use carf_lib.Http.HttpServer.{after_parse}
use carf_lib.Http.HttpServer.Messages.{after_parse_waiting}
use carf_lib.Http.Serving.{serve_all}
use carf_lib.Http.Serving.Answers.{Sees, Replies, serve-answers}

IsLine-waiting : (st : ParseState) → IsLine st → is_got_all st ≡ false
unfolding is_got_all
IsLine-waiting ParseState.expect_request_line h = refl
IsLine-waiting ParseState.expect_headers h = refl
IsLine-waiting ParseState.expect_body h = absurd h
IsLine-waiting ParseState.got_all h = absurd h

waiting_outcome :
    (o : Outcome Buffer)
    → InHead (view o)
    → (c : HttpContext) × (b : Buffer) × (o ≡ parsed true c b) × IsLine c.parse_state
waiting_outcome (parsed true c b) h = (c, b, refl, h)
waiting_outcome (parsed false c b) h = absurd h
waiting_outcome threw h = absurd h
waiting_outcome hung h = absurd h

-- An event that leaves the head incomplete is not answered, and changes nothing but what was read.
serve-waits :
    (host : Host) (s : Session) (now : ℕ) (chunks : List (ℕ × Bytes)) (q : Head)
    (seen t rest : Bytes)
    → s.connection.et ≡ true
    → Sees s seen
    → length (joined chunks) < writable_bytes s.connection.read_buffer
    → (seen ++ joined chunks) ++ t ≡ render q rest
    → length rest < length t
    → IsPrintable q
    → (s' : Session) × (serve host s now (reads chunks) [] ≡ some (s', []))
      × Sees s' (seen ++ joined chunks)
      × (s'.connection.et ≡ true)
      × (s'.connection.write_buffer ≡ s.connection.write_buffer)
      × (s'.connection.writing ≡ s.connection.writing)
      × (s'.users ≡ s.users)
unfolding serve call_back on_message perform
serve-waits host s now chunks q seen t rest et sees room whole more printable =
    let (d, done, r) = handle_read_et s.connection now chunks et sees.valid room in
    let (seen_text, ok) = parse_request-view s.context d.read_buffer r.valid in
    let same = seen_text ∙ ap (parse_text s.context) r.more ∙ sees.later (joined chunks) in
    let (c, left, at, line) = waiting_outcome (parse_request s.context d.read_buffer) (
      subst InHead (sym same)
        (render-InHead q (seen ++ joined chunks) t rest printable whole more)) in
    let handled =
      ap (after_parse host s.users) at
      ∙ after_parse_waiting host s.users true c left (IsLine-waiting c.parse_state line) in
    (
      record { connection = read_into d left; context = c; users = s.users },
      ap (λ o. o >>= call_back host s []) done ∙ ap (λ o. o >>= after_message s d []) handled,
      record {
        valid = subst OutcomeValid at ok;
        later = λ u.
            parse_text-append s.context c (contents d.read_buffer) (contents left) u
              (sym seen_text ∙ ap view at) line
            ∙ ap (λ x. parse_text s.context (x ++ u)) r.more
            ∙ ap (parse_text s.context)
                (append_assoc (contents s.connection.read_buffer) (joined chunks) u)
            ∙ sees.later (joined chunks ++ u)
            ∙ ap (parse_text initial) (sym (append_assoc seen (joined chunks) u));
      },
      r.same_et ∙ et,
      r.same_write,
      r.same_writing,
      refl,
    )

-- Events of which the last completes the head, and finds one result of `write`.
abbrev pub arrivals :
    List (ℕ × List (ℕ × Bytes))
    → ℕ × List (ℕ × Bytes) × Written
    → List (ℕ × List Received × List Written)
arrivals [] (now, chunks, w) = (now, reads chunks, w ∷ []) ∷ []
arrivals ((now, chunks) ∷ pieces) last = (now, reads chunks, []) ∷ arrivals pieces last

abbrev pub text_of : List (ℕ × List (ℕ × Bytes)) → Bytes
text_of [] = []
text_of ((now, chunks) ∷ pieces) = joined chunks ++ text_of pieces

-- Each event finds room in the read buffer that the events before it leave.
unfoldable pub AllFit : Host → Session → List (ℕ × List (ℕ × Bytes)) → List (ℕ × Bytes) → Type 0
AllFit host s [] last = length (joined last) < writable_bytes s.connection.read_buffer
AllFit host s ((now, chunks) ∷ pieces) last =
    (length (joined chunks) < writable_bytes s.connection.read_buffer)
    × ((s' : Session)
        → serve host s now (reads chunks) [] ≡ some (s', [])
        → AllFit host s' pieces last)

serve_all-answers :
    (host : Host) (s : Session) (users' : Users) (pieces : List (ℕ × List (ℕ × Bytes))) (now : ℕ)
    (last : List (ℕ × Bytes)) (w : Written) (q : Head) (seen rest : Bytes) (resp : HttpResponse)
    → s.connection.et ≡ true
    → Sees s seen
    → IsSending s.connection
    → AllFit host s pieces last
    → seen ++ (text_of pieces ++ joined last) ≡ render q rest
    → length rest < length (joined last)
    → IsPrintable q
    → method_of q.method ≢ Method.post
    → default_http_callback host s.users (request_of q) (HttpResponse.fresh (closes (request_of q)))
      ≡ some (resp, users')
    → length resp.body < 10 ^ 13
    → Within (length (response_text resp)) w
    → CanAppend s.connection.write_buffer (length (response_text resp))
    → (s' : Session) × (out : Bytes) × (serve_all host s (arrivals pieces (now, last, w))
        ≡ some (s', out))
      × Replies s' users' (pending s.connection ++ response_text resp) rest out
unfolding serve_all AllFit
serve_all-answers host s users' [] now last w q seen rest resp et sees sending fit whole more
      printable not_post answer small within can =
    let (s', out, served, replies) =
      serve-answers host s users' now last w q seen rest resp et sees sending fit whole printable
        not_post answer small within can in
    (s', out, rw served (ap (λ o. some (s', o)) (append-nil out)), replies)
serve_all-answers host s users' ((at, chunks) ∷ pieces) now last w q seen rest resp et sees sending
      fit whole more printable not_post answer small within can =
    let t = text_of pieces ++ joined last in
    let regrouped : (seen ++ joined chunks) ++ t ≡ render q rest =
      append_assoc seen (joined chunks) t
      ∙ ap (λ x. seen ++ x) (sym (append_assoc (joined chunks) (text_of pieces) (joined last)))
      ∙ whole in
    let (s1, first, sees1, et1, same_write, same_writing, same_users) =
      serve-waits host s at chunks q seen t rest et sees fit.0 regrouped
        (omega (arith, length-append (text_of pieces) (joined last))) printable in
    let still : IsSending s1.connection = record {
      valid = subst IsValid (sym same_write) sending.valid;
      watched = λ e. ap readable_bytes same_write ∙ sending.watched (sym same_writing ∙ e);
    } in
    let (s', out, served, replies) =
      serve_all-answers host s1 users' pieces now last w q (seen ++ joined chunks) rest resp et1
        sees1 still (fit.1 s1 first) regrouped more printable not_post
        (subst
          (λ u.
            default_http_callback host u (request_of q) (HttpResponse.fresh (closes (request_of q)))
            ≡ some (resp, users'))
          (sym same_users) answer)
        small within
        (subst (λ m. CanAppend m (length (response_text resp))) (sym same_write) can) in
    (
      s',
      out,
      rw (first, served),
      subst (λ m. Replies s' users' (contents m ++ response_text resp) rest out) same_write replies,
    )

-- In mode 2, a connection with a fresh parser, an empty read buffer and a well formed write buffer gets a
-- printable head whose method is not POST, in any number of events of the socket, each with any number
-- of chunks, that find room in the read buffer; the last event brings more bytes than stand behind the
-- head. The callback answers the head with a body below 10 ^ 13 bytes, the write buffer has room for
-- the reply, and `write` takes no more than it is given. Then every event is handled without failure;
-- `write` is called in the last one only, and the bytes that the kernel takes followed by those kept are
-- those kept before followed by the text of the one response; the channel is watched while any are
-- kept, the parser is fresh again, and the bytes behind the head stay in the read buffer.
pub serve_all-render :
    (host : Host) (s : Session) (users' : Users) (pieces : List (ℕ × List (ℕ × Bytes))) (now : ℕ)
    (last : List (ℕ × Bytes)) (w : Written) (q : Head) (rest : Bytes) (resp : HttpResponse)
    → s.connection.et ≡ true
    → IsValid s.connection.read_buffer
    → contents s.connection.read_buffer ≡ []
    → s.context ≡ initial
    → IsSending s.connection
    → AllFit host s pieces last
    → text_of pieces ++ joined last ≡ render q rest
    → length rest < length (joined last)
    → IsPrintable q
    → method_of q.method ≢ Method.post
    → default_http_callback host s.users (request_of q) (HttpResponse.fresh (closes (request_of q)))
      ≡ some (resp, users')
    → length resp.body < 10 ^ 13
    → Within (length (response_text resp)) w
    → CanAppend s.connection.write_buffer (length (response_text resp))
    → (s' : Session) × (out : Bytes) × (serve_all host s (arrivals pieces (now, last, w))
        ≡ some (s', out))
      × Replies s' users' (pending s.connection ++ response_text resp) rest out
serve_all-render host s users' pieces now last w q rest resp et valid empty ctx sending fit whole
      more printable not_post answer small within can =
    serve_all-answers host s users' pieces now last w q [] rest resp et
      (record { valid = valid; later = λ t. ap₂ (λ c x. parse_text c (x ++ t)) ctx empty }) sending
      fit whole more printable not_post answer small within can
