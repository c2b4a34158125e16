-- ===== src/Http/SqlConnectionPool/Raii.antt =====
-- A scope with a `connectionRAII`, and the end of the pool.
use carf_lib.Shared.{
  ℕ, zero, suc, ◌-◌, ◌≡◌, refl, ap, true, false, none, some, List, [], ◌∷◌, ◌++◌, arith, ltb, ◌==◌,
  length,
}
use carf_lib.Shared.Stoi.{ℤ, pos, negsuc}
use carf_lib.Http.SqlConnectionPool.{
  ConnectionPool, IsValid, taken, null_pointer, locked, get_connection, seems_empty, take_front,
  take_locked, release_connection, with_connection, scope_exit, destroy_pool, increment, decrement,
}

decrement-increment : (z : ℤ) → decrement (increment z) ≡ z
decrement-increment (pos n) = refl
decrement-increment (negsuc zero) = refl
decrement-increment (negsuc (suc n)) = refl

-- In a pool that counts right, whoever asks gets the first connection, and the null pointer where the
-- list is empty.
get_connection-cases :
    {C : Type 0} (held : ℕ) (p : ConnectionPool C)
    → IsValid held p
    → (p.conn_list ≡ [] → get_connection p ≡ null_pointer)
      × ((c : C) (rest : List C)
          → p.conn_list ≡ c ∷ rest
          → get_connection p
            ≡ locked (
                taken c (record p {
                  conn_list = rest;
                  free_conn = p.free_conn - 1;
                  cur_conn = increment p.cur_conn;
                })))
unfolding get_connection seems_empty take_locked take_front
get_connection-cases held p v = (
  λ e. rw e,
  λ c rest e.
      let some_free : (p.free_conn == 0) ≡ false = ground (arith, v.counted, ap length e) in
      let full : (length p.conn_list == 0) ≡ false = ground (arith, ap length e) in
      rw (full, some_free) (ap (λ xs. locked (take_front p xs)) e),
)

-- A scope with a `connectionRAII` on a pool that counts right, with no other thread: where the list is
-- empty the code in the scope gets the null pointer and nothing changes; otherwise it gets the first
-- connection, which stands last behind the scope, and the counters are what they were.
pub with_connection_lem :
    {C : Type 0} (held : ℕ) (p : ConnectionPool C)
    → IsValid held p
    → (p.conn_list ≡ [] → with_connection p ≡ some (none, p))
      × ((c : C) (rest : List C)
          → p.conn_list ≡ c ∷ rest
          → with_connection p ≡ some (some c, record p { conn_list = rest ++ c ∷ [] }))
unfolding with_connection scope_exit release_connection
with_connection_lem held p v =
    let (empty, full) = get_connection-cases held p v in
    (
      λ e. rw (empty e),
      λ c rest e.
          let same_free : suc (p.free_conn - 1) ≡ p.free_conn =
            ground (arith, v.counted, ap length e) in
          rw (full c rest e, same_free, decrement-increment p.cur_conn),
    )

-- What `DestroyPool` leaves behind.
abbrev Destroyed : {C : Type 0} → ConnectionPool C → Type 0
Destroyed p =
    ((destroy_pool p).0 ≡ p.conn_list)
    × (get_connection (destroy_pool p).1 ≡ null_pointer)
    × ((destroy_pool p).1.free_conn ≡ 0)
    × ((c : _)
        → (later : ConnectionPool _) × (get_connection
              (release_connection (destroy_pool p).1 (some c)).1
            ≡ locked (taken c later)))

destroy_of :
    {C : Type 0} (held : ℕ) (p : ConnectionPool C) (xs : List C)
    → IsValid held p
    → p.conn_list ≡ xs
    → Destroyed p
unfolding destroy_pool release_connection get_connection seems_empty take_locked take_front
destroy_of held p [] v e =
    let none_free : p.free_conn ≡ 0 = ground (arith, v.counted, ap length e) in
    rw (e, none_free) (refl, refl, refl, λ d. (_, refl))
destroy_of held p (c ∷ rest) v e =
    let full : ltb 0 (length p.conn_list) ≡ true = ground (arith, ap length e) in
    rw full (refl, refl, refl, λ d. (_, refl))

-- `DestroyPool` on a pool that counts right closes the connections of the list, each once, and leaves
-- the list and the count of free connections empty, so whoever asks then gets the null pointer;
-- connections in use are not closed, and one that is released later is handed out again.
pub destroy_pool_lem : {C : Type 0} (held : ℕ) (p : ConnectionPool C) → IsValid held p → Destroyed p
destroy_pool_lem held p v = destroy_of held p p.conn_list v refl
