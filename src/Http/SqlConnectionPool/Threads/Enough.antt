-- ===== src/Http/SqlConnectionPool/Threads/Enough.antt =====
-- No more threads than connections: nobody waits, and nobody gets the null pointer.
use carf_lib.Shared.{
  ℕ, suc, ◌+◌, ◌-◌, ◌≤◌, ◌<◌, ◌≡◌, refl, ap, ◌∙◌, subst, inl, inr, true, false, Option, some, List,
  [], ◌∷◌, arith, ◌==◌, Bool-cases, >>=-eq-some, some_eq, one_of, one_of_lem, length, get_elem?,
}
use carf_lib.Http.SqlConnectionPool.{
  ConnectionPool, IsValid, taken, locked, make, init, seems_empty, take_locked, get_connection,
  release_connection, increment,
}
use carf_lib.Http.SqlConnectionPool.Threads.{
  System, start, Action, looks, locks, wakes, releases, after_lock, step, run, Inv, init-IsValid,
  start-Inv,
}
use carf_lib.Http.SqlConnectionPool.Threads.Steps.{step-Inv, length-pick, Takes, take_locked-cases}

-- The threads between a look at the list and the release of what they got.
abbrev pub busy : {C : Type 0} → System C → ℕ
busy s = s.passed + length s.held

-- A thread looks while it is not busy, and there are `threads` of them.
abbrev pub IsSpare : {C : Type 0} → ℕ → System C → Action → Type 0
IsSpare threads s looks = busy s < threads
IsSpare threads s locks = Unit {0}
IsSpare threads s wakes = Unit {0}
IsSpare threads s Action.signals = Unit {0}
IsSpare threads s (releases i) = Unit {0}

unfoldable pub AllSpare : {C : Type 0} → ℕ → System C → List Action → Type 0
AllSpare threads s [] = Unit {0}
AllSpare threads s (a ∷ rest) =
    IsSpare threads s a × ((s' : System _) → step s a ≡ some s' → AllSpare threads s' rest)

-- Nobody sleeps or was woken, and no more than `threads` are busy.
pub record IsQuick {C : Type 0} (threads : ℕ) (s : System C) : Type 0 where
  pub awake : s.sleeping ≡ 0
  pub none_woken : s.woken ≡ 0
  pub few : busy s ≤ threads

-- Whoever has looked gets a connection under the lock.
enough_free :
    {C : Type 0} (held n : ℕ) (p : ConnectionPool C)
    → IsValid held p
    → p.max_conn ≡ n
    → held < n
    → Takes p (take_locked p)
enough_free held n p v size few = elim (take_locked-cases held p v) [
  | inl (empty, _) ↦ absurd (omega (arith, v.complete))
  | inr took ↦ took
]

after_lock-IsQuick :
    {C : Type 0} (threads : ℕ) (s s' : System C)
    → Takes s.pool (take_locked s.pool)
    → s.sleeping ≡ 0
    → s.woken ≡ 0
    → suc (busy s) ≤ threads
    → after_lock s (take_locked s.pool) ≡ some s'
    → IsQuick threads s' × (s'.pool.max_conn ≡ s.pool.max_conn)
unfolding after_lock
after_lock-IsQuick threads s s' (c, rest, queued, took) asleep woken few e =
    subst (λ t. IsQuick threads t × (t.pool.max_conn ≡ s.pool.max_conn)) (some_eq (rw took at e))
      (record { awake = asleep; none_woken = woken; few = omega (arith, few) }, refl)

step-IsQuick :
    {C : Type 0} (threads n : ℕ) (opened : List C) (s s' : System C) (a : Action)
    → Inv opened s
    → IsQuick threads s
    → s.pool.max_conn ≡ n
    → threads ≤ n
    → IsSpare threads s a
    → step s a ≡ some s'
    → IsQuick threads s' × (s'.pool.max_conn ≡ n)
unfolding step release_connection
step-IsQuick threads n opened s s' looks v q size fits spare e =
    subst (λ t. IsQuick threads t × (t.pool.max_conn ≡ n)) (some_eq e)
      (elim (Bool-cases (seems_empty s.pool)) [
        | inl empty ↦ rw empty (q, size)
        | inr full ↦ rw full (
          record { awake = q.awake; none_woken = q.none_woken; few = omega (arith, spare) },
          size,
        )
      ])
step-IsQuick threads n opened s s' locks v q size fits spare e =
    let (m, some_passed, done) = >>=-eq-some (one_of s.passed) _ e in
    let one = one_of_lem s.passed m some_passed in
    let (quick, same) =
      after_lock-IsQuick threads (record s { passed = m }) s'
        (enough_free (length s.held) n s.pool v.valid size (omega (arith, one, q.few))) q.awake
        q.none_woken (omega (arith, one, q.few)) done in
    (quick, same ∙ size)
step-IsQuick threads n opened s s' wakes v q size fits spare e =
    let (m, some_woken, done) = >>=-eq-some (one_of s.woken) _ e in
    absurd (omega (arith, one_of_lem s.woken m some_woken, q.none_woken))
step-IsQuick threads n opened s s' Action.signals v q size fits spare e =
    let (m, due, done) = >>=-eq-some (one_of s.signals) _ e in
    let lost : (s.sleeping == 0) ≡ true = ground (arith, q.awake) in
    subst (λ t. IsQuick threads t × (t.pool.max_conn ≡ n)) (some_eq done)
      (rw lost (record { awake = q.awake; none_woken = q.none_woken; few = q.few }, size))
step-IsQuick threads n opened s s' (releases i) v q size fits spare e =
    let (c, held, done) = >>=-eq-some (get_elem? s.held i) _ e in
    subst (λ t. IsQuick threads t × (t.pool.max_conn ≡ n)) (some_eq done)
      (
        record {
          awake = q.awake;
          none_woken = q.none_woken;
          few = omega (arith, q.few, length-pick s.held i c held);
        },
        size,
      )

run-IsQuick :
    {C : Type 0} (threads n : ℕ) (opened : List C) (s s' : System C) (schedule : List Action)
    → Inv opened s
    → IsQuick threads s
    → s.pool.max_conn ≡ n
    → threads ≤ n
    → AllSpare threads s schedule
    → run s schedule ≡ some s'
    → Inv opened s' × IsQuick threads s' × (s'.pool.max_conn ≡ n)
unfolding run AllSpare
run-IsQuick threads n opened s s' [] v q size fits spare e =
    subst (λ t. Inv opened t × IsQuick threads t × (t.pool.max_conn ≡ n)) (some_eq e) (v, q, size)
run-IsQuick threads n opened s s' (a ∷ rest) v q size fits (now, later) e =
    let (t, first, others) = >>=-eq-some (step s a) _ e in
    let (quick, same) = step-IsQuick threads n opened s t a v q size fits now first in
    run-IsQuick threads n opened t s' rest (step-Inv opened s t a v first) quick same fits
      (later t first) others

-- Whoever asks then, without another thread between the look and the lock, gets a connection.
get_connection-Takes :
    {C : Type 0} (p : ConnectionPool C)
    → Takes p (take_locked p)
    → (c : C) × (q : ConnectionPool C) × (get_connection p ≡ locked (taken c q))
unfolding get_connection seems_empty
get_connection-Takes p (c, rest, queued, took) =
    let full : (length p.conn_list == 0) ≡ false = ground (arith, ap length queued) in
    (
      c,
      record p { conn_list = rest; free_conn = p.free_conn - 1; cur_conn = increment p.cur_conn },
      rw full (ap locked took),
    )

-- A pool that `init` set up with `n` connections is used by no more than `n` threads, each of which has
-- released its connection, or seen the list empty, before it looks again. After any schedule of them
-- nobody sleeps; a thread that asks while it has none gets a connection, and so does each that looked
-- before and gets the lock now: none gets the null pointer, or waits.
pub enough-IsQuick :
    {C : Type 0} (connect : ℕ → Option C) (threads n : ℕ) (p : ConnectionPool C) (s : System C)
    (schedule : List Action)
    → init connect n make ≡ some p
    → threads ≤ n
    → AllSpare threads (start p) schedule
    → run (start p) schedule ≡ some s
    → (s.sleeping ≡ 0)
      × (busy s < threads
          → (c : C) × (q : ConnectionPool C) × (get_connection s.pool ≡ locked (taken c q)))
      × (0 < s.passed → (c : C) × (q : ConnectionPool C) × (take_locked s.pool ≡ taken c q))
enough-IsQuick connect threads n p s schedule opened fits spare e =
    let (valid, size) = init-IsValid connect n p opened in
    let quick : IsQuick threads (start p) = record {
      awake = refl;
      none_woken = refl;
      few = omega arith;
    } in
    let (v, q, same) =
      run-IsQuick threads n p.conn_list (start p) s schedule (start-Inv p valid) quick
        (omega (arith, valid.counted, valid.complete, size)) fits spare e in
    let takes = enough_free (length s.held) n s.pool v.valid same in
    (
      q.awake,
      λ few. get_connection-Takes s.pool (takes (omega (arith, few))),
      λ some_passed.
          let (c, rest, queued, took) = takes (omega (arith, some_passed, q.few)) in (c, _, took),
    )
