-- ===== src/Tests/Pages.antt =====
-- The server's pages over a pool of two connections.
use carf_lib.Shared.{
  ℕ, zero, suc, ◌+◌, ◌-◌, ◌*◌, ◌/◌, ◌%◌, ◌^◌, ◌≤◌, ◌<◌, min, ◌≡◌, refl, sym, ap, ap₂, ◌∙◌, subst,
  ◌≢◌, ◌↔◌, ◌⊎◌, inl, inr, Bool, true, false, not, ◌&&◌, ◌||◌, Option, none, some, List, [], ◌∷◌,
  ◌++◌, map, append-nil, append_assoc, arith, ltb, leb, ◌==◌, if◌then◌else◌, ==_iff, Bool-cases,
  Option-cases, ◌>>=◌, >>=-eq-some, some_eq, one_of, one_of_lem, Bytes, codes, bytes_eq,
  bytes_eq_iff, find_byte, is_space, length, get_elem?, take, drop, replicate, length-append,
  take-append-drop, length-take, length-drop, length-replicate, take-append, drop-append,
  take-append_le, drop-append_le, take_all, drop_all, drop-drop, take-drop, take-take,
  take-append_split, drop-append_split, take-replicate, drop-replicate, set, length-set,
  get_elem?-set_self, get_elem?-set_ne, get_elem?-replicate, length-Permᴰ,
}
use carf_lib.Shared.StdMap.{lookup, bytes_key}
use carf_lib.Shared.Stoi.{pos}
use carf_lib.Http.HttpRequest.{HttpRequest, fresh}
use carf_lib.Http.HttpServer.{Host, Users, Form, page_of, read_form}
use carf_lib.Http.HttpServer.Database.{
  Rows, sql_pool_init, pooled_page, last_password, full_rows, select_statement,
}
use carf_lib.Http.HttpServer.Pooled.{host_on, pooled_page-page_of}
use carf_lib.Http.SqlConnectionPool.{ConnectionPool, IsValid, make, init, open_all}

abbrev two : ConnectionPool ℕ
two = record { conn_list = 10 ∷ 11 ∷ []; max_conn = 2; cur_conn = pos 0; free_conn = 2 }

two-IsValid : IsValid 0 two
two-IsValid = record { counted = refl; in_use = refl; complete = refl }

abbrev no_files : Host
no_files = record { working_dir = []; open_file = λ f. none; query = λ s. false }

abbrev answers : ℕ → Bytes → Bool
answers c s = c == 10

abbrev registers : HttpRequest
registers = record fresh { path = codes "/3CGISQL.cgi"; body = codes "user=ann&password=ab" }

-- The first connection takes the statement: the account is made.
registered :
    pooled_page no_files answers two [] registers
    ≡ some (
      (codes "/root/log.html", (codes "ann", codes "ab") ∷ []),
      record two { conn_list = 11 ∷ 10 ∷ [] },
    )
unfolding pooled_page bytes_eq carf_lib.Http.HttpServer.Database.handle_form read_form
    carf_lib.Http.HttpServer.form_name carf_lib.Http.HttpServer.form_password
    carf_lib.Http.HttpServer.fits carf_lib.Http.HttpServer.c_string
    carf_lib.Http.HttpServer.insert_statement carf_lib.Http.HttpServer.register_user find_byte
    carf_lib.Http.SqlConnectionPool.with_connection carf_lib.Http.SqlConnectionPool.scope_exit
    carf_lib.Http.SqlConnectionPool.get_connection carf_lib.Http.SqlConnectionPool.seems_empty
    carf_lib.Http.SqlConnectionPool.take_locked carf_lib.Http.SqlConnectionPool.take_front
    carf_lib.Http.SqlConnectionPool.release_connection
    carf_lib.Http.HttpServer.Database.register_with lookup carf_lib.Shared.StdMap.insert
registered = refl

pooled_page-page_of_example :
    (p' : ConnectionPool ℕ) × (pooled_page no_files answers two [] registers
      ≡ (page_of (host_on no_files answers 10) [] registers >>= λ page. some (page, p')))
    × IsValid 0 p'
    × ((p'.conn_list ≡ 10 ∷ 11 ∷ []) ⊎ (p'.conn_list ≡ 11 ∷ 10 ∷ []))
pooled_page-page_of_example =
    pooled_page-page_of no_files answers 0 two 10 (11 ∷ []) [] registers two-IsValid refl

abbrev connect : ℕ → Option ℕ
connect i = some (10 + i)

abbrev table : List (Bytes × Bytes)
table = (codes "ann", codes "ab") ∷ (codes "bob", codes "cd") ∷ (codes "ann", codes "ef") ∷ []
