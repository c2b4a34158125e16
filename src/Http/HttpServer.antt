-- ===== src/Http/HttpServer.antt =====
-- http/HttpServer.cc: the callbacks of the server. The files, the working directory and the database
-- are parameters; what a call sends is a list of events on its connection. `none` is undefined
-- behaviour (a C array overrun, a read past a string) or an exception that nothing catches.
pub mod Accounts
pub mod Replies
pub mod Messages
pub mod Database
pub mod Pooled
use carf_lib.Shared.{
  ℕ, zero, suc, ◌+◌, ◌-◌, ◌*◌, ◌/◌, ◌%◌, ◌^◌, ◌≤◌, ◌<◌, min, ◌≡◌, refl, sym, ap, ap₂, ◌∙◌, subst,
  ◌≢◌, ◌↔◌, ◌⊎◌, inl, inr, Bool, true, false, not, ◌&&◌, ◌||◌, Option, none, some, List, [], ◌∷◌,
  ◌++◌, map, append-nil, append_assoc, arith, ltb, leb, ◌==◌, if◌then◌else◌, ==_iff, Bool-cases,
  Option-cases, ◌>>=◌, Bytes, codes, bytes_eq, bytes_eq_iff, find_byte, is_space, length, get_elem?,
  take, drop, replicate, length-append, take-append-drop, length-take, length-drop,
  length-replicate, take-append, drop-append, take-append_le, drop-append_le, take_all, drop_all,
  drop-drop, take-drop, take-take, take-append_split, drop-append_split, take-replicate,
  drop-replicate,
}
use carf_lib.Shared.StdMap.{assign, insert, lookup, bytes_key}
use carf_lib.Net.Buffer.{Buffer, contents, make}
use carf_lib.Http.HttpRequest.{HttpRequest, Version, get_header}
use carf_lib.Http.HttpResponse.{
  HttpResponse, StatusCode, set_status_code, set_status_message, add_header, set_body,
  append_to_buffer, crlf,
}
use carf_lib.Http.HttpResponse
use carf_lib.Http.HttpContext.{
  HttpContext, ParseState, Outcome, parsed, threw, hung, parse_request, reset, is_got_all,
}

-- What the process sees of its host. A file that opens gives the results of `read` in turn up to the
-- end of the file, `none` for -1; a query is answered with 0 (`true`) or with an error.
pub record Host : Type 0 where
  pub working_dir : Bytes
  pub open_file : Bytes → Option (List (Option Bytes))
  pub query : Bytes → Bool

-- `users`: name and password, in the order of the names.
abbrev pub Users : Type 0
Users = List (Bytes × Bytes)

-- The rows that `sql_pool_init` fetches: a later row replaces an earlier one of its name.
unfoldable pub load_users : List (Bytes × Bytes) → Users → Users
load_users [] users = users
load_users ((name, passwd) ∷ rows) users = load_users rows (assign name passwd users)

-- A C string: the bytes before the first NUL.
unfoldable pub c_string : Bytes → Bytes
c_string [] = []
c_string (c ∷ cs) = let rest = c_string cs in if c == 0 then [] else c ∷ rest

-- A `char` array of `n` bytes takes a string of fewer.
unfoldable pub fits : ℕ → Bytes → Option Bytes
fits n s = if ltb (length s) n then some s else none

-- `for (i = 5; body[i] != '&'; ++i) name[i - 5] = body[i];` with `char name[100]`, and what stands
-- from the `&` on. The index runs past the end of a body that has none.
unfoldable pub form_name : Bytes → Option (Bytes × Bytes)
form_name body = elim (find_byte b'&' (drop 5 body)) [
  | none ↦ none
  | some k ↦ if ltb k 100 then some (take k (drop 5 body), drop k (drop 5 body)) else none
]

-- `for (i = i + 10; body[i] != '\0'; ++i, ++j) password[j] = body[i];`, from the `&` on.
unfoldable pub form_password : Bytes → Option Bytes
form_password rest = if leb 10 (length rest) then fits 100 (c_string (drop 10 rest)) else none

unfoldable pub insert_statement : Bytes → Bytes → Option Bytes
insert_statement name password = fits 200 (
    codes "INSERT INTO user(username, passwd) VALUES("
    ++ (codes "'" ++ (name ++ (codes "', '" ++ (password ++ codes "')")))))

pub record Form : Type 0 where
  pub name : Bytes
  pub password : Bytes
  pub statement : Bytes

-- Name, password and the SQL statement, all built before the two pages are told apart.
unfoldable pub read_form : Bytes → Option Form
read_form body = do
  (name, rest) ← form_name body
  password ← form_password rest
  statement ← insert_statement (c_string name) password
  some (record { name = c_string name; password = password; statement = statement })

-- "/3CGISQL.cgi": the page shown, and the users after it.
unfoldable pub register_user : Host → Users → Form → Bytes × Users
register_user host users form = elim (lookup form.name users) [
  | none ↦
      if host.query form.statement
      then (codes "/root/log.html", insert form.name form.password users)
      else (codes "/root/registerError.html", users)
  | some _ ↦ (codes "/root/registerError.html", users)
]

-- "/2CGISQL.cgi".
unfoldable pub login_page : Users → Form → Bytes
login_page users form = elim (lookup form.name users) [
  | none ↦ codes "/root/logError.html"
  | some passwd ↦
      if bytes_eq passwd form.password
      then codes "/root/welcome.html"
      else codes "/root/logError.html"
]

abbrev with_form : {A : Type 0} → Bytes → (Form → A) → Option A
with_form body k = read_form body >>= λ form. some (k form)

-- The ladder over the path: the file under the working directory, and the users.
unfoldable pub page_of : Host → Users → HttpRequest → Option (Bytes × Users)
page_of host users req =
    if bytes_eq req.path (codes "/")
    then some (codes "/root/judge.html", users)
    else if bytes_eq req.path (codes "/0")
    then some (codes "/root/register.html", users)
    else if bytes_eq req.path (codes "/1")
    then some (codes "/root/log.html", users)
    else if bytes_eq req.path (codes "/3CGISQL.cgi")
    then with_form req.body (register_user host users)
    else if bytes_eq req.path (codes "/2CGISQL.cgi")
    then with_form req.body (λ form. (login_page users form, users))
    else if bytes_eq req.path (codes "/5")
    then some (codes "/root/picture.html", users)
    else if bytes_eq req.path (codes "/6")
    then some (codes "/root/video.html", users)
    else if bytes_eq req.path (codes "/7")
    then some (codes "/root/fans.html", users)
    else some (codes "/root" ++ c_string req.path, users)

-- `while((n=read(file_fd,buf,2048))!=0) body+=std::string(buf,n);`: a failed read gives a string of
-- length -1, which throws.
unfoldable pub read_all : List (Option Bytes) → Bytes → Option Bytes
read_all [] body = some body
read_all (none ∷ reads) body = none
read_all (some chunk ∷ reads) body = read_all reads (body ++ chunk)

-- A file that does not open is answered like one that does, but for the message and the body.
unfoldable pub fill_response : Option (List (Option Bytes)) → HttpResponse → Option HttpResponse
fill_response none resp = some (
    add_header (set_status_message (set_status_code resp StatusCode.ok_200) (codes "ok"))
      (codes "Server") (codes "Carflib"))
fill_response (some reads) resp = do
  body ← read_all reads []
  some (
      set_body
        (add_header (set_status_message (set_status_code resp StatusCode.ok_200) (codes "OK"))
          (codes "Server") (codes "Carflib"))
        body)

-- `char file_name[200]` takes the working directory and the page.
unfoldable pub default_http_callback :
    Host → Users → HttpRequest → HttpResponse → Option (HttpResponse × Users)
default_http_callback host users req resp = do
  (page, users') ← page_of host users req
  file_name ← fits 200 (host.working_dir ++ page)
  resp' ← fill_response (host.open_file file_name) resp
  some (resp', users')

-- What a callback does to its connection.
pub data Event : Type 0 where
  sends : Bytes → Event
  shuts_write : Event

-- `connection == "close" || (HTTP/1.0 && connection != "Keep-Alive")`.
abbrev is_http10 : Version → Bool
is_http10 Version.http10 = true
is_http10 _ = false

unfoldable pub closes : HttpRequest → Bool
closes req =
    let connection = get_header req (codes "Connection") in
    bytes_eq connection (codes "close")
    || (is_http10 req.version && not (bytes_eq connection (codes "Keep-Alive")))

unfoldable pub on_request : Host → Users → HttpRequest → Option (List Event × Users)
on_request host users req = do
  (resp, users') ← default_http_callback host users req (HttpResponse.fresh (closes req))
  buf ← append_to_buffer resp (make 1024)
  some (
    if resp.close_connection
        then sends (contents buf) ∷ shuts_write ∷ []
        else sends (contents buf) ∷ [],
    users',
  )

abbrev pub bad_request : Bool → List Event
bad_request true = []
bad_request false = sends (codes "HTTP/1.1 400 Bad Request" ++ (crlf ++ crlf)) ∷ shuts_write ∷ []

-- After `onMessage`: the parser of the connection, its input buffer, the users, what was done.
pub record Handled : Type 0 where
  pub context : HttpContext
  pub input : Buffer
  pub users : Users
  pub events : List Event

unfoldable pub after_parse : Host → Users → Outcome Buffer → Option Handled
after_parse host users threw = none
after_parse host users hung = none
after_parse host users (parsed ok c buf) =
    if is_got_all c.parse_state
    then (do
      (events, users') ← on_request host users c.request
      some (record {
        context = reset c;
        input = buf;
        users = users';
        events = bad_request ok ++ events;
      }))
    else some (record { context = c; input = buf; users = users; events = bad_request ok })

unfoldable pub on_message : Host → Users → HttpContext → Buffer → Option Handled
on_message host users c buf = after_parse host users (parse_request c buf)
