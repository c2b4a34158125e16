-- ===== src/Tests/Server.antt =====
-- The server on a small host: one page, a database that takes every statement.
use carf_lib.Shared.{
  ◌≡◌, refl, false, some, [], ◌∷◌, ◌++◌, arith, Bytes, codes, bytes_eq, find_byte,
}
use carf_lib.Shared.StdMap.{lookup, bytes_key}
use carf_lib.Net.Buffer.{Buffer, contents, crlf_in}
use carf_lib.Http.HttpRequest.{HttpRequest, Version, Method, method_of, get_header}
use carf_lib.Http.HttpResponse.{append_to_buffer}
use carf_lib.Http.HttpContext.{initial, process_request_line}
use carf_lib.Http.HttpServer.{
  Host, Users, Form, c_string, fits, form_name, form_password, insert_statement, read_form, page_of,
  closes, on_message, bad_request,
}
use carf_lib.Net.Buffer.{starts_crlf}
use carf_lib.Http.HttpRequest
use carf_lib.Http.HttpResponse.Text.{response_text, Writes, append_to_buffer-Writes}
use carf_lib.Http.HttpContext.{process_target}
use carf_lib.Http.HttpContext.RoundTrip.{render, request_of}
use carf_lib.Http.HttpServer.Accounts.{register_then_login}
use carf_lib.Http.HttpServer.Replies.{reply}
use carf_lib.Http.HttpServer.Messages.{on_message-render, answers, Grows, on_message-bad_line}
use carf_lib.Tests.Samples.{
  host, answer, answered, filled, filled-IsValid, get_head, get_head-IsPrintable,
}

abbrev refusing : Host
refusing = record host { query = λ statement. false }

abbrev form_body : Bytes
form_body = codes "user=ann&password=pw"

abbrev form : Form
form = record {
  name = codes "ann";
  password = codes "pw";
  statement = codes "INSERT INTO user(username, passwd) VALUES('ann', 'pw')";
}

abbrev form_request : Bytes → HttpRequest
form_request path = record HttpRequest.fresh { path = path; body = form_body; method = Method.post }

form_read : read_form form_body ≡ some form
unfolding read_form form_name form_password insert_statement c_string fits find_byte
form_read = refl

register_then_login_example :
    (users' : Users) × (page_of host [] (form_request (codes "/3CGISQL.cgi"))
      ≡ some (codes "/root/log.html", users'))
    × (page_of host users' (form_request (codes "/2CGISQL.cgi"))
        ≡ some (codes "/root/welcome.html", users'))
unfolding lookup
register_then_login_example =
    register_then_login host [] (form_request (codes "/3CGISQL.cgi"))
      (form_request (codes "/2CGISQL.cgi")) form refl refl form_read form_read refl refl

abbrev bob : Users
bob = (codes "bob", codes "b") ∷ []

append_to_buffer-Writes_example :
    Writes
      (filled (codes "x"))
      (response_text answer)
      (append_to_buffer answer (filled (codes "x")))
append_to_buffer-Writes_example =
    append_to_buffer-Writes answer (filled (codes "x")) (omega arith)
      (record { valid = filled-IsValid (codes "x"); unread = refl; positive = omega arith })

-- The head is followed by another request.
on_message-render_example :
    (left : Buffer) × (on_message host [] initial (filled (render get_head (render get_head [])))
      ≡ some (record {
        context = initial;
        input = left;
        users = [];
        events = reply answer (closes (request_of get_head));
      }))
    × (contents left ≡ render get_head [])
unfolding method_of bytes_eq contents
on_message-render_example =
    on_message-render host [] [] get_head (render get_head [])
      (filled (render get_head (render get_head []))) answer get_head-IsPrintable (λ e. cc)
      (filled-IsValid (render get_head (render get_head []))) refl answered (omega arith)

abbrev bad_text : Bytes
bad_text = codes "GET /\r\n"

-- The bad line, and then with a good request behind it.
on_message-bad_line_example :
    answers host [] initial (filled bad_text ∷ filled (bad_text ++ render get_head []) ∷ [])
    ≡ some (
        (filled bad_text, bad_request false)
        ∷ (filled (bad_text ++ render get_head []), bad_request false)
        ∷ [])
unfolding crlf_in starts_crlf contents process_request_line process_target find_byte
    HttpRequest.set_method Grows
on_message-bad_line_example =
    on_message-bad_line host [] initial bad_text
      (filled bad_text ∷ filled (bad_text ++ render get_head []) ∷ []) 5 initial.request refl refl
      refl (([], refl), ((render get_head [], refl), tt))
