-- ===== src/Http/SqlConnectionPool/Threads/Steps.antt =====
-- Every step of a thread keeps the pool's invariant, and what follows of any schedule.
use carf_lib.Shared.{
  one_of, one_of_lem, ℕ, zero, suc, ◌+◌, ◌-◌, ◌≤◌, ◌<◌, ◌≡◌, refl, sym, ap, ◌∙◌, subst, ◌≢◌, ◌⊎◌,
  inl, inr, Option, some, List, [], ◌∷◌, ◌++◌, append_assoc, arith, ◌==◌, Bool-cases, >>=-eq-some,
  some_eq, length, get_elem?, take, drop, length-append, length-Permᴰ,
}
use mathlib.Core.List.{Permᴰ}
use mathlib.Core.List.Permᴰ
use carf_lib.Shared.Stoi.{pos}
use carf_lib.Http.SqlConnectionPool.{
  ConnectionPool, IsValid, Locked, waits, undefined, taken, make, init, seems_empty, take_front,
  take_locked, release_connection, increment, decrement,
}
use carf_lib.Http.SqlConnectionPool.Threads.{
  System, Inv, Action, looks, locks, wakes, releases, start, wake_up_one, after_lock, step, run,
  init-IsValid, start-Inv,
}

-- What a lock gives a pool that counts right: sleep, or its first connection.
abbrev pub Takes : {C : Type 0} → ConnectionPool C → Locked C → Type 0
Takes p l =
    (c : _) × (rest : List _) × (p.conn_list ≡ c ∷ rest)
    × (l
        ≡ taken c (record p {
          conn_list = rest;
          free_conn = p.free_conn - 1;
          cur_conn = increment p.cur_conn;
        }))

take_front-Takes :
    {C : Type 0} (p : ConnectionPool C) (xs : List C)
    → p.conn_list ≡ xs
    → 0 < length xs
    → Takes p (take_front p xs)
unfolding take_front
take_front-Takes p [] q h = absurd (omega arith)
take_front-Takes p (c ∷ rest) q h = (c, rest, q, refl)

pub take_locked-cases :
    {C : Type 0} (held : ℕ) (p : ConnectionPool C)
    → IsValid held p
    → ((p.free_conn ≡ 0) × (take_locked p ≡ waits)) ⊎ Takes p (take_locked p)
unfolding take_locked
take_locked-cases held p v = elim (Bool-cases (p.free_conn == 0)) [
  | inl e ↦ inl (ground arith, rw e)
  | inr e ↦ inr (rw e (take_front-Takes p p.conn_list refl (ground (arith, v.counted))))
]

pick :
    {A : Type 0} (xs : List A) (i : ℕ) (c : A)
    → get_elem? xs i ≡ some c
    → Permᴰ (c ∷ take i xs ++ drop (suc i) xs) xs
pick [] i c e = cc
pick (x ∷ xs) zero c e = Permᴰ.cons (sym (some_eq e)) (Permᴰ.refl xs)
pick (x ∷ xs) (suc i) c e = Permᴰ.trans (Permᴰ.swap refl refl) (Permᴰ.cons refl (pick xs i c e))

pub length-pick :
    {A : Type 0} (xs : List A) (i : ℕ) (c : A)
    → get_elem? xs i ≡ some c
    → suc (length (take i xs ++ drop (suc i) xs)) ≡ length xs
length-pick [] i c e = cc
length-pick (x ∷ xs) zero c e = refl
length-pick (x ∷ xs) (suc i) c e = ap suc (length-pick xs i c e)

-- `s` is the state with the thread that runs no longer counted as passed or woken.
after_lock-Inv :
    {C : Type 0} (opened : List C) (s s' : System C)
    → IsValid (length s.held) s.pool
    → Permᴰ (s.held ++ s.pool.conn_list) opened
    → (0 < s.sleeping → s.pool.free_conn ≤ suc s.woken + s.signals)
    → after_lock s (take_locked s.pool) ≡ some s'
    → Inv opened s'
unfolding after_lock
after_lock-Inv opened s s' v a w e = elim (take_locked-cases (length s.held) s.pool v) [
  | inl (empty, asleep) ↦
      let e' = rw asleep at e in
      subst (Inv opened) (some_eq e')
        (record { valid = v; accounted = a; awake = λ h. omega (arith, empty) })
  | inr (c, rest, queued, took) ↦
      let e' = rw took at e in
      let a' = rw queued at a in
      subst (Inv opened) (some_eq e') (record {
        valid = record {
          counted = ground (arith, ap length queued, v.counted);
          in_use = ap increment v.in_use;
          complete = ground (arith, ap length queued, v.counted, v.complete);
        };
        accounted = Permᴰ.trans (Permᴰ.symm (Permᴰ.middle c s.held rest)) a';
        awake = λ h. ground (arith, ap length queued, v.counted, w h);
      })
]

-- A release puts the connection at the end of the list.
put_back-Perm :
    {C : Type 0} (held list : List C) (i : ℕ) (c : C)
    → get_elem? held i ≡ some c
    → Permᴰ ((take i held ++ drop (suc i) held) ++ (list ++ c ∷ [])) (held ++ list)
put_back-Perm held list i c e =
    let others = take i held ++ drop (suc i) held in
    subst (λ l. Permᴰ l (held ++ list)) (append_assoc others list (c ∷ []))
      (Permᴰ.trans (Permᴰ.append_comm (others ++ list) (c ∷ []))
        (Permᴰ.append_right list (pick held i c e)))

releases-Inv :
    {C : Type 0} (opened : List C) (s : System C) (i : ℕ) (c : C)
    → Inv opened s
    → get_elem? s.held i ≡ some c
    → Inv opened (record s {
      pool = (release_connection s.pool (some c)).1;
      held = take i s.held ++ drop (suc i) s.held;
      signals = suc s.signals;
    })
unfolding release_connection
releases-Inv opened s i c v e =
    let e' = length-pick s.held i c e in
    record {
      valid = record {
        counted = omega (arith, length-append s.pool.conn_list (c ∷ []), v.valid.counted);
        in_use = ap decrement (v.valid.in_use ∙ ap pos (sym e'));
        complete = omega (arith, e', v.valid.complete);
      };
      accounted = Permᴰ.trans (put_back-Perm s.held s.pool.conn_list i c e) v.accounted;
      awake = λ h. omega (arith, v.awake h);
    }

wake_up_one-Inv :
    {C : Type 0} (opened : List C) (s : System C) (n : ℕ)
    → Inv opened s
    → s.signals ≡ suc n
    → Inv opened (wake_up_one s n)
wake_up_one-Inv opened s n v e = elim (Bool-cases (s.sleeping == 0)) [
  | inl none_asleep ↦
      rw none_asleep
        (record { valid = v.valid; accounted = v.accounted; awake = λ h. ground arith })
  | inr asleep ↦ rw asleep (record {
    valid = v.valid;
    accounted = v.accounted;
    awake = λ h. omega (arith, v.awake (omega arith));
  })
]

pub step-Inv :
    {C : Type 0} (opened : List C) (s s' : System C) (a : Action)
    → Inv opened s
    → step s a ≡ some s'
    → Inv opened s'
unfolding step
step-Inv opened s s' looks v e =
    subst (Inv opened) (some_eq e) (elim (Bool-cases (seems_empty s.pool)) [
      | inl empty ↦ rw empty v
      | inr full ↦ rw full (record { valid = v.valid; accounted = v.accounted; awake = v.awake })
    ])
step-Inv opened s s' locks v e =
    let (n, _, done) = >>=-eq-some (one_of s.passed) _ e in
    after_lock-Inv opened (record s { passed = n }) s' v.valid v.accounted
      (λ h. omega (arith, v.awake h)) done
step-Inv opened s s' wakes v e =
    let (n, some_woken, done) = >>=-eq-some (one_of s.woken) _ e in
    after_lock-Inv opened (record s { woken = n }) s' v.valid v.accounted
      (λ h. omega (arith, v.awake h, one_of_lem s.woken n some_woken)) done
step-Inv opened s s' Action.signals v e =
    let (n, due, done) = >>=-eq-some (one_of s.signals) _ e in
    subst (Inv opened) (some_eq done) (wake_up_one-Inv opened s n v (one_of_lem s.signals n due))
step-Inv opened s s' (releases i) v e =
    let (c, held, done) = >>=-eq-some (get_elem? s.held i) _ e in
    subst (Inv opened) (some_eq done) (releases-Inv opened s i c v held)

run-Inv :
    {C : Type 0} (opened : List C) (s s' : System C) (schedule : List Action)
    → Inv opened s
    → run s schedule ≡ some s'
    → Inv opened s'
unfolding run
run-Inv opened s s' [] v e = subst (Inv opened) (some_eq e) v
run-Inv opened s s' (a ∷ rest) v e =
    let (t, first, later) = >>=-eq-some (step s a) _ e in
    run-Inv opened t s' rest (step-Inv opened s t a v first) later

-- A pool that `init` set up with `n` connections, after any schedule of threads that ask for and
-- release connections: the counters are right and `m_FreeConn` and the connections in use are `n`
-- together, each opened connection is in use by one thread or in the list, once, a thread that gets
-- the lock never reads the front of an empty list, and while a thread sleeps every free connection has
-- a woken thread or a signal still to come.
pub run-init-Inv :
    {C : Type 0} (connect : ℕ → Option C) (n : ℕ) (p : ConnectionPool C) (s : System C)
    (schedule : List Action)
    → init connect n make ≡ some p
    → run (start p) schedule ≡ some s
    → Inv p.conn_list s × (s.pool.free_conn + length s.held ≡ n) × (take_locked s.pool ≢ undefined)
run-init-Inv connect n p s schedule opened e =
    let (valid, size) = init-IsValid connect n p opened in
    let v = run-Inv p.conn_list (start p) s schedule (start-Inv p valid) e in
    (
      v,
      omega (
        arith,
        length-Permᴰ v.accounted,
        length-append s.held s.pool.conn_list,
        v.valid.counted,
        size,
      ),
      elim (take_locked-cases (length s.held) s.pool v.valid) [
        | inl (_, asleep) ↦ λ bad. cc
        | inr (c, rest, _, took) ↦ λ bad. cc
      ],
    )

-- So once no thread is woken and no signal is due, threads sleep only while all `n` connections are
-- in use.
pub asleep_only_all_used :
    {C : Type 0} (connect : ℕ → Option C) (n : ℕ) (p : ConnectionPool C) (s : System C)
    (schedule : List Action)
    → init connect n make ≡ some p
    → run (start p) schedule ≡ some s
    → s.woken ≡ 0
    → s.signals ≡ 0
    → 0 < s.sleeping
    → length s.held ≡ n
asleep_only_all_used connect n p s schedule opened e w g h =
    let (v, sum, _) = run-init-Inv connect n p s schedule opened e in omega (arith, v.awake h, sum)
