-- ===== src/Http/SqlConnectionPool/Threads.antt =====
-- The pool with any number of threads that take and release connections. A thread that asks looks at
-- the list first, without the lock, and takes the lock in a later step; it may then find no free
-- connection and sleep. A release signals in a step of its own, behind the unlock.
pub mod Steps
pub mod Enough
use carf_lib.Shared.{
  one_of, ℕ, zero, suc, ◌+◌, ◌-◌, ◌≤◌, ◌<◌, ◌≡◌, refl, sym, ap, ◌∙◌, subst, ◌≢◌, ◌⊎◌, inl, inr,
  Option, none, some, List, [], ◌∷◌, ◌++◌, append_assoc, arith, ◌==◌, if◌then◌else◌, Bool-cases,
  ◌>>=◌, >>=-eq-some, some_eq, length, get_elem?, take, drop, length-append, length-Permᴰ,
}
use mathlib.Core.List.{Permᴰ}
use mathlib.Core.List.Permᴰ
use carf_lib.Shared.Stoi.{pos}
use carf_lib.Http.SqlConnectionPool.{
  ConnectionPool, IsValid, Locked, waits, undefined, taken, make, init, open_all, seems_empty,
  take_front, take_locked, release_connection, increment, decrement,
}

-- `passed` threads found the list not empty and have not had the lock since; `signals` releases have
-- not called `wakeUpOne` yet.
pub record System (C : Type 0) : Type 0 where
  pub pool : ConnectionPool C
  pub held : List C
  pub passed : ℕ
  pub sleeping : ℕ
  pub woken : ℕ
  pub signals : ℕ

abbrev pub start : {C : Type 0} → ConnectionPool C → System C
start p = record { pool = p; held = []; passed = 0; sleeping = 0; woken = 0; signals = 0 }

pub data Action : Type 0 where
  looks locks wakes signals : Action
  releases : ℕ → Action

unfoldable pub after_lock : {C : Type 0} → System C → Locked C → Option (System C)
after_lock s waits = some (record s { sleeping = suc s.sleeping })
after_lock s undefined = none
after_lock s (taken c p) = some (record s { pool = p; held = c ∷ s.held })

-- `reserve->wakeUpOne()`: a signal with no thread asleep is lost.
abbrev pub wake_up_one : {C : Type 0} → System C → ℕ → System C
wake_up_one s left =
    if s.sleeping == 0
    then record s { signals = left }
    else record s { signals = left; sleeping = s.sleeping - 1; woken = suc s.woken }

unfoldable pub step : {C : Type 0} → System C → Action → Option (System C)
step s looks = some (if seems_empty s.pool then s else record s { passed = suc s.passed })
step s locks = one_of s.passed >>= λ n. after_lock (record s { passed = n }) (take_locked s.pool)
step s wakes = one_of s.woken >>= λ n. after_lock (record s { woken = n }) (take_locked s.pool)
step s signals = one_of s.signals >>= λ n. some (wake_up_one s n)
step s (releases i) = get_elem? s.held i >>= λ c. some (record s {
  pool = (release_connection s.pool (some c)).1;
  held = take i s.held ++ drop (suc i) s.held;
  signals = suc s.signals;
})

unfoldable pub run : {C : Type 0} → System C → List Action → Option (System C)
run s [] = some s
run s (a ∷ rest) = step s a >>= λ s'. run s' rest

-- The counters are right, every opened connection is held by one thread or is in the list, once, and
-- while a thread sleeps every free connection has a thread awake, or a signal due, that will look
-- for it.
pub record Inv {C : Type 0} (opened : List C) (s : System C) : Type 0 where
  pub valid : IsValid (length s.held) s.pool
  pub accounted : Permᴰ (s.held ++ s.pool.conn_list) opened
  pub awake : 0 < s.sleeping → s.pool.free_conn ≤ s.woken + s.signals

open_all_lem :
    {C : Type 0} (connect : ℕ → Option C) (i n : ℕ) (p p' : ConnectionPool C)
    → p.free_conn ≡ length p.conn_list
    → open_all connect i n p ≡ some p'
    → (p'.free_conn ≡ length p'.conn_list)
      × (p'.free_conn ≡ p.free_conn + n)
      × (p'.cur_conn ≡ p.cur_conn)
unfolding open_all
open_all_lem connect i zero p p' h e =
    subst
      (λ q.
        (q.free_conn ≡ length q.conn_list)
        × (q.free_conn ≡ p.free_conn + 0)
        × (q.cur_conn ≡ p.cur_conn))
      (some_eq e) (h, omega arith, refl)
open_all_lem connect i (suc n) p p' h e =
    let (c, _, later) = >>=-eq-some (connect i) _ e in
    let (a, b, d) =
      open_all_lem connect (suc i) n
        (record p { conn_list = p.conn_list ++ c ∷ []; free_conn = suc p.free_conn }) p'
        (omega (arith, h, length-append p.conn_list (c ∷ []))) later in
    (a, omega arith, d)

-- A pool that `init` set up has the asked number of connections, all free.
pub init-IsValid :
    {C : Type 0} (connect : ℕ → Option C) (n : ℕ) (p : ConnectionPool C)
    → init connect n make ≡ some p
    → IsValid 0 p × (length p.conn_list ≡ n)
unfolding init
init-IsValid connect n p e =
    let (q, opened, done) = >>=-eq-some (open_all connect 0 n make) _ e in
    let (a, b, d) = open_all_lem connect 0 n make q refl opened in
    subst (λ p'. IsValid 0 p' × (length p'.conn_list ≡ n)) (some_eq done)
      (record { counted = a; in_use = d; complete = omega arith }, omega arith)

pub start-Inv : {C : Type 0} (p : ConnectionPool C) → IsValid 0 p → Inv p.conn_list (start p)
start-Inv p v = record {
  valid = v;
  accounted = Permᴰ.refl p.conn_list;
  awake = λ h. absurd (omega arith);
}
