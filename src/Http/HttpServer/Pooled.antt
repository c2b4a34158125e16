-- ===== src/Http/HttpServer/Pooled.antt =====
-- The server over its pool of database connections: the table it starts with, and its form pages.
use carf_lib.Shared.{
  if_true, if_false, ℕ, ◌≡◌, refl, ap, ◌∙◌, ◌⊎◌, inl, inr, Bool, true, false, Option, none, some,
  List, [], ◌∷◌, ◌++◌, arith, if◌then◌else◌, Bool-cases, Option-cases, ◌>>=◌, Bytes, codes,
  bytes_eq, bytes_eq_iff, length, length-append,
}
use carf_lib.Shared.StdMap.{lookup, bytes_key}
use carf_lib.Http.HttpRequest.{HttpRequest}
use carf_lib.Http.HttpServer.{
  Host, Users, Form, load_users, read_form, register_user, login_page, page_of,
}
use carf_lib.Http.SqlConnectionPool.{ConnectionPool, IsValid, make, init, with_connection}
use carf_lib.Http.SqlConnectionPool.Threads.{init-IsValid}
use carf_lib.Http.SqlConnectionPool.Raii.{with_connection_lem}
use carf_lib.Http.HttpServer.Database.{
  Rows, select_statement, sql_pool_init, register_with, form_page, handle_form, is_form,
  pooled_page, last_password, full_rows, lookup-load_users, fetch_rows-full,
}

-- The host, with the database at the end of a connection.
abbrev pub host_on : {C : Type 0} → Host → (C → Bytes → Bool) → C → Host
host_on host query c = record host { query = query c }

register_with-some :
    {C : Type 0} (host : Host) (query : C → Bytes → Bool) (c : C) (users : Users) (form : Form)
    → register_with query (some c) users form
      ≡ some (register_user (host_on host query c) users form)
unfolding register_with register_user
register_with-some host query c users form = elim (Option-cases (lookup form.name users)) [
  | inl e ↦
      rw (e, register_with, register_user)
        (elim (Bool-cases (query c form.statement)) [ inl q ↦ rw q | inr q ↦ rw q ])
  | inr (w, e) ↦ rw (e, register_with, register_user)
]

-- What the form pages show, with a connection.
abbrev form_result : Host → Users → Bytes → Form → Bytes × Users
form_result host users path form =
    if bytes_eq path (codes "/3CGISQL.cgi")
    then register_user host users form
    else (login_page users form, users)

page_of-form :
    (host : Host) (users : Users) (req : HttpRequest)
    → is_form req.path ≡ true
    → page_of host users req
      ≡ (read_form req.body >>= λ form. some (form_result host users req.path form))
unfolding page_of bytes_eq
page_of-form host users req h = elim (Bool-cases (bytes_eq req.path (codes "/3CGISQL.cgi"))) [
  | inl register ↦
      let p = (bytes_eq_iff req.path (codes "/3CGISQL.cgi")).0 register in rw (p, page_of)
  | inr other ↦
      let login : bytes_eq req.path (codes "/2CGISQL.cgi") ≡ true = rw other at h in
      let p = (bytes_eq_iff req.path (codes "/2CGISQL.cgi")).0 login in rw (p, page_of)
]

page_of_other :
    (host other : Host) (users : Users) (req : HttpRequest)
    → is_form req.path ≡ false
    → page_of host users req ≡ page_of other users req
unfolding page_of bytes_eq
page_of_other host other users req h =
    elim (Bool-cases (bytes_eq req.path (codes "/3CGISQL.cgi"))) [
      | inl register ↦ absurd (let no = rw register at h in cc)
      | inr e ↦
          let f : bytes_eq req.path (codes "/2CGISQL.cgi") ≡ false = rw e at h in rw (e, f, page_of)
    ]

form_page-some :
    {C : Type 0} (host : Host) (query : C → Bytes → Bool) (c : C) (users : Users) (path : Bytes)
    (form : Form)
    → form_page query (some c) users path form
      ≡ some (form_result (host_on host query c) users path form)
form_page-some host query c users path form =
    elim (Bool-cases (bytes_eq path (codes "/3CGISQL.cgi"))) [
      | inl register ↦ rw register (register_with-some host query c users form)
      | inr login ↦ rw login
    ]

handle_form-page_of :
    {C : Type 0} (host : Host) (query : C → Bytes → Bool) (p p' : ConnectionPool C) (c : C)
    (users : Users) (req : HttpRequest)
    → is_form req.path ≡ true
    → with_connection p ≡ some (some c, p')
    → handle_form query p users req
      ≡ (page_of (host_on host query c) users req >>= λ page. some (page, p'))
unfolding handle_form
handle_form-page_of host query p p' c users req h scope =
    let page = page_of-form (host_on host query c) users req h in
    elim (Option-cases (read_form req.body)) [
      | inl e ↦ rw (page, e)
      | inr (form, e) ↦ rw (page, e, scope) (rw (form_page-some host query c users req.path form))
    ]

-- The pool counts right and its list is not empty. Then, for every request, the page that is shown and the
-- accounts behind it are those of the server that has the list's first connection as its database; the
-- pool counts right again, and its list is as it was, or has that connection last.
pub pooled_page-page_of :
    {C : Type 0} (host : Host) (query : C → Bytes → Bool) (held : ℕ) (p : ConnectionPool C) (c : C)
    (rest : List C) (users : Users) (req : HttpRequest)
    → IsValid held p
    → p.conn_list ≡ c ∷ rest
    → (p' : ConnectionPool C) × (pooled_page host query p users req
        ≡ (page_of (host_on host query c) users req >>= λ page. some (page, p')))
      × IsValid held p'
      × ((p'.conn_list ≡ c ∷ rest) ⊎ (p'.conn_list ≡ rest ++ c ∷ []))
unfolding pooled_page
pooled_page-page_of host query held p c rest users req v e = elim (Bool-cases (is_form req.path)) [
  | inl form ↦
      let p' : ConnectionPool _ = record p { conn_list = rest ++ c ∷ [] } in
      let scope = (with_connection_lem held p v).1 c rest e in
      (
        p',
        if_true (is_form req.path) _ _ form
            ∙ handle_form-page_of host query p p' c users req form scope,
        record {
          counted = omega (arith, v.counted, ap length e, length-append rest (c ∷ []));
          in_use = v.in_use;
          complete = v.complete;
        },
        inr refl,
      )
  | inr other ↦ (
    p,
    if_false (is_form req.path) _ _ other
        ∙ ap (λ r. r >>= λ page. some (page, p))
            (page_of_other host (host_on host query c) users req other),
    v,
    inl e,
  )
]

-- With an empty list, a registration of a free name hands the null pointer to `mysql_query`.
pub empty_pool_register :
    {C : Type 0} (host : Host) (query : C → Bytes → Bool) (held : ℕ) (p : ConnectionPool C)
    (users : Users) (req : HttpRequest) (form : Form)
    → IsValid held p
    → p.conn_list ≡ []
    → req.path ≡ codes "/3CGISQL.cgi"
    → read_form req.body ≡ some form
    → lookup form.name users ≡ none
    → pooled_page host query p users req ≡ none
unfolding pooled_page handle_form register_with bytes_eq
empty_pool_register host query held p users req form v e path body free =
    let scope = (with_connection_lem held p v).0 e in
    rw (path, body, scope) (rw (free, register_with))

-- `sql_pool_init` on a fresh pool, where connecting succeeds `max_conn` times, `c` being the first
-- connection, the query gives its rows on `c`, and no column is NULL: it succeeds, all `max_conn`
-- connections are free again, and every name has the password of its last row, or the one it had.
pub sql_pool_init_lem :
    {C : Type 0} (connect : ℕ → Option C) (store_result : C → Bytes → Option Rows) (max_conn : ℕ)
    (users : Users) (p : ConnectionPool C) (c : C) (rest : List C) (rows : List (Bytes × Bytes))
    → init connect max_conn make ≡ some p
    → p.conn_list ≡ c ∷ rest
    → store_result c select_statement ≡ some (full_rows rows)
    → (p' : ConnectionPool C) × (users' : Users) × (sql_pool_init connect store_result max_conn make
          users
        ≡ some (p', users'))
      × IsValid 0 p'
      × (p'.free_conn ≡ max_conn)
      × ((name : Bytes) → lookup name users' ≡ last_password name rows (lookup name users))
unfolding sql_pool_init
sql_pool_init_lem connect store_result max_conn users p c rest rows opened e fetched =
    let (v, size) = init-IsValid connect max_conn p opened in
    let scope = (with_connection_lem 0 p v).1 c rest e in
    (
      record p { conn_list = rest ++ c ∷ [] },
      load_users rows users,
      rw (opened, scope, fetched, fetch_rows-full rows users),
      record {
        counted = omega (arith, v.counted, ap length e, length-append rest (c ∷ []));
        in_use = v.in_use;
        complete = v.complete;
      },
      omega (arith, v.counted, size),
      λ name. lookup-load_users name rows users,
    )
