-- ===== src/Http/HttpServer/Database.antt =====
-- The database of http/HttpServer.cc: `sql_pool_init`, and the connection that `defaultHttpCallback` holds
-- while it handles a form. A connection is a value of any type. What a statement on it returns, and
-- the rows of a query, are parameters; a column that is NULL is `none`.
use carf_lib.Shared.{
  ℕ, ◌≡◌, refl, ap, ◌∙◌, Bool, ◌||◌, Option, none, some, List, [], ◌∷◌, map, if◌then◌else◌, ◌>>=◌,
  Bytes, codes, bytes_eq,
}
use carf_lib.Shared.StdMap.{assign, insert, lookup, bytes_key, lookup-assign}
use carf_lib.Http.HttpRequest.{HttpRequest}
use carf_lib.Http.HttpServer.{Host, Users, Form, load_users, read_form, login_page, page_of}
use carf_lib.Http.SqlConnectionPool.{ConnectionPool, init, with_connection}

abbrev pub Rows : Type 0
Rows = List (Option Bytes × Option Bytes)

-- `std::string temp1(row[0])`: a string of the null pointer is undefined.
unfoldable pub fetch_rows : Rows → Users → Option Users
fetch_rows [] users = some users
fetch_rows ((name, passwd) ∷ rows) users = do
  temp1 ← name
  temp2 ← passwd
  fetch_rows rows (assign temp1 temp2 users)

abbrev pub select_statement : Bytes
select_statement = codes "SELECT username,passwd FROM user"

-- `sql_pool_init`: `store_result` gives what `mysql_store_result` does after the query, `none` for the null
-- pointer, as after an error, which `mysql_num_fields` then reads. So does `mysql_query` with the null
-- pointer of a pool that is empty.
unfoldable pub sql_pool_init :
    {C : Type 0}
    → (ℕ → Option C)
    → (C → Bytes → Option Rows)
    → ℕ
    → ConnectionPool C
    → Users
    → Option (ConnectionPool C × Users)
sql_pool_init connect store_result max_conn pool users = do
  opened ← init connect max_conn pool
  (conn, pool') ← with_connection opened
  mysql ← conn
  rows ← store_result mysql select_statement
  users' ← fetch_rows rows users
  some (pool', users')

-- The registration with the connection that the scope has: the null pointer is used where the name is
-- free.
unfoldable pub register_with :
    {C : Type 0} → (C → Bytes → Bool) → Option C → Users → Form → Option (Bytes × Users)
register_with query conn users form = elim (lookup form.name users) [
  | none ↦ conn >>= λ mysql. some (
      if query mysql form.statement
      then (codes "/root/log.html", insert form.name form.password users)
      else (codes "/root/registerError.html", users))
  | some _ ↦ some (codes "/root/registerError.html", users)
]

abbrev pub form_page :
    {C : Type 0} → (C → Bytes → Bool) → Option C → Users → Bytes → Form → Option (Bytes × Users)
form_page query conn users path form =
    if bytes_eq path (codes "/3CGISQL.cgi")
    then register_with query conn users form
    else some (login_page users form, users)

-- The block of the two form pages: the connection is taken when the statement is built, and given back
-- behind the block.
unfoldable pub handle_form :
    {C : Type 0}
    → (C → Bytes → Bool)
    → ConnectionPool C
    → Users
    → HttpRequest
    → Option ((Bytes × Users) × ConnectionPool C)
handle_form query pool users req = do
  form ← read_form req.body
  (conn, pool') ← with_connection pool
  page ← form_page query conn users req.path form
  some (page, pool')

abbrev pub is_form : Bytes → Bool
is_form path = bytes_eq path (codes "/3CGISQL.cgi") || bytes_eq path (codes "/2CGISQL.cgi")

-- The ladder over the path, with the pool.
unfoldable pub pooled_page :
    {C : Type 0}
    → Host
    → (C → Bytes → Bool)
    → ConnectionPool C
    → Users
    → HttpRequest
    → Option ((Bytes × Users) × ConnectionPool C)
pooled_page host query pool users req =
    if is_form req.path
    then handle_form query pool users req
    else page_of host users req >>= λ page. some (page, pool)

-- The password in the last row of a name, else the one that was there.
abbrev pub last_password : Bytes → List (Bytes × Bytes) → Option Bytes → Option Bytes
last_password name [] before = before
last_password name ((n, passwd) ∷ rows) before =
    last_password name rows (if bytes_eq n name then some passwd else before)

pub lookup-load_users :
    (name : Bytes) (rows : List (Bytes × Bytes)) (users : Users)
    → lookup name (load_users rows users) ≡ last_password name rows (lookup name users)
unfolding load_users
lookup-load_users name [] users = refl
lookup-load_users name ((n, passwd) ∷ rows) users =
    lookup-load_users name rows (assign n passwd users)
    ∙ ap (last_password name rows) (lookup-assign n name passwd users)

-- Rows without a NULL.
abbrev pub full_rows : List (Bytes × Bytes) → Rows
full_rows = map (λ (r : Bytes × Bytes). (some r.0, some r.1))

pub fetch_rows-full :
    (rows : List (Bytes × Bytes)) (users : Users)
    → fetch_rows (full_rows rows) users ≡ some (load_users rows users)
unfolding fetch_rows load_users
fetch_rows-full [] users = refl
fetch_rows-full ((n, passwd) ∷ rows) users = fetch_rows-full rows (assign n passwd users)
