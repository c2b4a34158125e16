-- ===== src/Http/SqlConnectionPool.antt =====
-- http/sql_connection_pool.h and .cc: the pool of database connections.
-- A connection is a value of any type; the null pointer that `mysql_init` and `mysql_real_connect`
-- may return is `none`.
pub mod Threads
pub mod Raii
use carf_lib.Shared.{
  ℕ, zero, suc, ◌+◌, ◌-◌, ◌*◌, ◌/◌, ◌%◌, ◌^◌, ◌≤◌, ◌<◌, min, ◌≡◌, refl, sym, ap, ap₂, ◌∙◌, subst,
  ◌≢◌, ◌↔◌, ◌⊎◌, inl, inr, Bool, true, false, not, ◌&&◌, ◌||◌, Option, none, some, List, [], ◌∷◌,
  ◌++◌, map, append-nil, append_assoc, arith, ltb, leb, ◌==◌, if◌then◌else◌, ==_iff, Bool-cases,
  Option-cases, ◌>>=◌, >>=-eq-some, some_eq, Bytes, codes, bytes_eq, bytes_eq_iff, find_byte,
  is_space, length, get_elem?, take, drop, replicate, length-append, take-append-drop, length-take,
  length-drop, length-replicate, take-append, drop-append, take-append_le, drop-append_le, take_all,
  drop_all, drop-drop, take-drop, take-take, take-append_split, drop-append_split, take-replicate,
  drop-replicate,
}
use carf_lib.Shared.Stoi.{ℤ, pos, negsuc}

pub record ConnectionPool (C : Type 0) : Type 0 where
  pub conn_list : List C
  pub max_conn : ℕ
  pub cur_conn : ℤ
  pub free_conn : ℕ

abbrev pub make : {C : Type 0} → ConnectionPool C
make = record { conn_list = []; max_conn = 0; cur_conn = pos 0; free_conn = 0 }

abbrev pub increment : ℤ → ℤ
increment (pos n) = pos (suc n)
increment (negsuc zero) = pos 0
increment (negsuc (suc n)) = negsuc n

abbrev pub decrement : ℤ → ℤ
decrement (pos zero) = negsuc 0
decrement (pos (suc n)) = pos n
decrement (negsuc n) = negsuc (suc n)

-- The loop of `init` from index `i` on; `connect i` is what connecting for the `i`-th time gives, and
-- `none` the call of `exit(1)`.
unfoldable pub open_all :
    {C : Type 0} → (ℕ → Option C) → ℕ → ℕ → ConnectionPool C → Option (ConnectionPool C)
open_all connect i zero p = some p
open_all connect i (suc n) p = connect i >>= λ c.
    open_all connect (suc i) n
      (record p { conn_list = p.conn_list ++ c ∷ []; free_conn = suc p.free_conn })

unfoldable pub init :
    {C : Type 0} → (ℕ → Option C) → ℕ → ConnectionPool C → Option (ConnectionPool C)
init connect n p = open_all connect 0 n p >>= λ p'. some (record p' { max_conn = p'.free_conn })

-- The test before the lock, `0 == connList.size()`.
unfoldable pub seems_empty : {C : Type 0} → ConnectionPool C → Bool
seems_empty p = length p.conn_list == 0

-- What happens under the lock: `front` of an empty list is undefined.
pub data Locked (C : Type 0) : Type 0 where
  waits undefined : Locked C
  taken : C → ConnectionPool C → Locked C

unfoldable pub take_front : {C : Type 0} → ConnectionPool C → List C → Locked C
take_front p [] = undefined
take_front p (c ∷ rest) =
    taken c
      (record p { conn_list = rest; free_conn = p.free_conn - 1; cur_conn = increment p.cur_conn })

unfoldable pub take_locked : {C : Type 0} → ConnectionPool C → Locked C
take_locked p = if p.free_conn == 0 then waits else take_front p p.conn_list

-- `GetConnection()` with no other thread: the null pointer, or what happens under the lock.
pub data Got (C : Type 0) : Type 0 where
  null_pointer : Got C
  locked : Locked C → Got C

unfoldable pub get_connection : {C : Type 0} → ConnectionPool C → Got C
get_connection p = if seems_empty p then null_pointer else locked (take_locked p)

-- What `ReleaseConnection` does under the lock.
abbrev pub put_back : {C : Type 0} → ConnectionPool C → C → ConnectionPool C
put_back p c = record p {
  conn_list = p.conn_list ++ c ∷ [];
  free_conn = suc p.free_conn;
  cur_conn = decrement p.cur_conn;
}

unfoldable pub release_connection :
    {C : Type 0} → ConnectionPool C → Option C → Bool × ConnectionPool C
release_connection p none = (false, p)
release_connection p (some c) = (true, put_back p c)

-- The connections closed, in order, and the pool behind.
unfoldable pub destroy_pool : {C : Type 0} → ConnectionPool C → List C × ConnectionPool C
destroy_pool p =
    if ltb 0 (length p.conn_list)
    then (p.conn_list, record p { cur_conn = pos 0; free_conn = 0; conn_list = [] })
    else ([], p)

-- `connectionRAII` around code that has the connection: what the code is given, and the pool behind.
unfoldable pub scope_exit :
    {C : Type 0} → ConnectionPool C → Got C → Option (Option C × ConnectionPool C)
scope_exit p null_pointer = some (none, (release_connection p none).1)
scope_exit p (locked waits) = none
scope_exit p (locked undefined) = none
scope_exit p (locked (taken c p')) = some (some c, (release_connection p' (some c)).1)

unfoldable pub with_connection :
    {C : Type 0} → ConnectionPool C → Option (Option C × ConnectionPool C)
with_connection p = scope_exit p (get_connection p)

-- The counters agree with the list, when `held` connections are in use.
pub record IsValid {C : Type 0} (held : ℕ) (p : ConnectionPool C) : Type 0 where
  pub counted : p.free_conn ≡ length p.conn_list
  pub in_use : p.cur_conn ≡ pos held
  pub complete : p.free_conn + held ≡ p.max_conn
