-- ===== src/Base/BlockQueue/Threads.antt =====
-- The queue under any interleaving of threads that push and threads that pop.
use carf_lib.Shared.{
  ℕ, zero, suc, ◌+◌, ◌-◌, ◌≤◌, ◌<◌, ◌≡◌, refl, sym, ap, ◌∙◌, subst, inl, inr, true, false, Option,
  none, some, List, [], ◌∷◌, ◌++◌, append_assoc, arith, ◌==◌, if◌then◌else◌, Bool-cases, ◌>>=◌,
  >>=-eq-some, some_eq, length, length-append,
}
use carf_lib.Base.BlockQueue.{BlockQueue, IsValid, make, push_back, pop_front, take_front}

-- The queue, its history, and the threads at its two conditions: `sleeping_*` wait for a signal,
-- `woken_*` have one and have not run since.
pub record System (A : Type 0) : Type 0 where
  pub block_queue : BlockQueue A
  pub pushed : List A
  pub popped : List A
  pub sleeping_pushers : ℕ
  pub woken_pushers : ℕ
  pub sleeping_poppers : ℕ
  pub woken_poppers : ℕ

abbrev pub start : {A : Type 0} → ℕ → System A
start n = record {
  block_queue = make n;
  pushed = [];
  popped = [];
  sleeping_pushers = 0;
  woken_pushers = 0;
  sleeping_poppers = 0;
  woken_poppers = 0;
}

-- Who gets the mutex: a thread that enters its call, or one that a signal woke.
pub data Who : Type 0 where
  newcomer woken : Who

pub data Action (A : Type 0) : Type 0 where
  pushes : Who → A → Action A
  pops : Who → Action A

-- The woken threads left when one of them, or a newcomer, runs; `none` where there is none to run.
abbrev pub runs : Who → ℕ → Option ℕ
runs newcomer n = some n
runs woken zero = none
runs woken (suc n) = some n

-- `wakeUpOne()`: a signal with no thread asleep is lost.
abbrev pub wake_sleeping : ℕ → ℕ
wake_sleeping n = n - 1

abbrev pub wake_woken : ℕ → ℕ → ℕ
wake_woken m n = if m == 0 then n else suc n

unfoldable pub after_push : {A : Type 0} → System A → A → ℕ → Option (BlockQueue A) → System A
after_push s item left none = record s {
  woken_pushers = left;
  sleeping_pushers = suc s.sleeping_pushers;
}
after_push s item left (some q) = record s {
  block_queue = q;
  pushed = s.pushed ++ item ∷ [];
  woken_pushers = left;
  woken_poppers = wake_woken s.sleeping_poppers s.woken_poppers;
  sleeping_poppers = wake_sleeping s.sleeping_poppers;
}

unfoldable pub after_pop : {A : Type 0} → System A → ℕ → Option (A × BlockQueue A) → System A
after_pop s left none = record s { woken_poppers = left; sleeping_poppers = suc s.sleeping_poppers }
after_pop s left (some (t, q)) = record s {
  block_queue = q;
  popped = s.popped ++ t ∷ [];
  woken_poppers = left;
  woken_pushers = wake_woken s.sleeping_pushers s.woken_pushers;
  sleeping_pushers = wake_sleeping s.sleeping_pushers;
}

unfoldable pub step : {A : Type 0} → System A → Action A → Option (System A)
step s (pushes who item) = runs who s.woken_pushers >>= λ left.
    some (after_push s item left (push_back s.block_queue item))
step s (pops who) =
    runs who s.woken_poppers >>= λ left. some (after_pop s left (pop_front s.block_queue))

-- A schedule: each action is by a thread that can run.
unfoldable pub run : {A : Type 0} → System A → List (Action A) → Option (System A)
run s [] = some s
run s (a ∷ rest) = step s a >>= λ s'. run s' rest

-- What holds at every moment. The items popped and those in the queue are the items pushed, in order.
-- Where a popper sleeps, every item in the queue has a woken popper that will look for it; where a
-- pusher sleeps, so has every free place.
pub record Inv {A : Type 0} (n : ℕ) (s : System A) : Type 0 where
  pub valid : IsValid s.block_queue
  pub same_capacity : s.block_queue.capacity ≡ n
  pub in_order : s.popped ++ s.block_queue.queue ≡ s.pushed
  pub poppers_woken : 0 < s.sleeping_poppers → s.block_queue.used ≤ s.woken_poppers
  pub pushers_woken :
      0 < s.sleeping_pushers → s.block_queue.capacity ≤ s.woken_pushers + s.block_queue.used

start-Inv : {A : Type 0} (n : ℕ) → Inv n (start {A = A} n)
start-Inv n = record {
  valid = omega arith;
  same_capacity = refl;
  in_order = refl;
  poppers_woken = λ h. absurd (omega arith);
  pushers_woken = λ h. absurd (omega arith);
}

runs_lem : (who : Who) (m left : ℕ) → runs who m ≡ some left → m ≤ left + 1
runs_lem newcomer m left e = ground arith
runs_lem woken zero left e = cc
runs_lem woken (suc m) left e = ground arith

wake_lem : (m n : ℕ) → 0 < m → wake_woken m n ≡ suc n
wake_lem m n h = ground arith

-- A push that sleeps, or adds its item and signals.
after_push-Inv :
    {A : Type 0} (n : ℕ) (s : System A) (who : Who) (item : A) (left : ℕ)
    → Inv n s
    → runs who s.woken_pushers ≡ some left
    → Inv n (after_push s item left (push_back s.block_queue item))
unfolding after_push push_back
after_push-Inv n s who item left v e =
    elim (Bool-cases (s.block_queue.used == s.block_queue.capacity)) [
      | inl full ↦ rw full (record {
        valid = v.valid;
        same_capacity = v.same_capacity;
        in_order = v.in_order;
        poppers_woken = v.poppers_woken;
        pushers_woken = λ h. ground arith;
      })
      | inr room ↦ rw room (record {
        valid = ground (arith, length-append s.block_queue.queue (item ∷ []));
        same_capacity = v.same_capacity;
        in_order =
            sym (append_assoc s.popped s.block_queue.queue (item ∷ []))
            ∙ ap (λ xs. xs ++ item ∷ []) v.in_order;
        poppers_woken = λ h. omega (
          arith,
          wake_lem s.sleeping_poppers s.woken_poppers (omega arith),
          v.poppers_woken (omega arith),
        );
        pushers_woken = λ h. omega (arith, v.pushers_woken h, runs_lem who s.woken_pushers left e);
      })
    ]

pop_front_empty : {A : Type 0} (q : BlockQueue A) → (q.used == 0) ≡ true → pop_front q ≡ none
unfolding pop_front
pop_front_empty q e = rw e

-- A queue that counts right hands out its first item.
take_front_lem :
    {A : Type 0} (q : BlockQueue A) (xs : List A)
    → q.queue ≡ xs
    → q.used ≡ length xs
    → (q.used == 0) ≡ false
    → (t : A) × (rest : List A) × (q.queue ≡ t ∷ rest)
      × (pop_front q ≡ some (t, record q { queue = rest; used = q.used - 1 }))
unfolding pop_front take_front
take_front_lem q [] h c e = absurd (ground arith)
take_front_lem q (t ∷ rest) h c e = (t, rest, h, rw e (ap (take_front q) h))

-- A pop that sleeps, or takes the first item and signals.
after_pop-Inv :
    {A : Type 0} (n : ℕ) (s : System A) (who : Who) (left : ℕ)
    → Inv n s
    → runs who s.woken_poppers ≡ some left
    → Inv n (after_pop s left (pop_front s.block_queue))
unfolding after_pop
after_pop-Inv n s who left v e = elim (Bool-cases (s.block_queue.used == 0)) [
  | inl empty ↦ rw (pop_front_empty s.block_queue empty) (record {
    valid = v.valid;
    same_capacity = v.same_capacity;
    in_order = v.in_order;
    poppers_woken = λ h. ground arith;
    pushers_woken = v.pushers_woken;
  })
  | inr some_left ↦
      let (t, rest, queued, taken) =
        take_front_lem s.block_queue s.block_queue.queue refl v.valid.counted some_left in
      rw taken (record {
        valid = ground (arith, ap length queued);
        same_capacity = v.same_capacity;
        in_order =
            append_assoc s.popped (t ∷ []) rest
            ∙ ap (λ xs. s.popped ++ xs) (sym queued)
            ∙ v.in_order;
        poppers_woken = λ h. omega (arith, v.poppers_woken h, runs_lem who s.woken_poppers left e);
        pushers_woken = λ h. ground (
          arith,
          wake_lem s.sleeping_pushers s.woken_pushers (omega arith),
          v.pushers_woken (omega arith),
        );
      })
]

step-Inv :
    {A : Type 0} (n : ℕ) (s s' : System A) (a : Action A) → Inv n s → step s a ≡ some s' → Inv n s'
unfolding step
step-Inv n s s' (pushes who item) v e =
    let (left, r, done) = >>=-eq-some (runs who s.woken_pushers) _ e in
    subst (Inv n) (some_eq done) (after_push-Inv n s who item left v r)
step-Inv n s s' (pops who) v e =
    let (left, r, done) = >>=-eq-some (runs who s.woken_poppers) _ e in
    subst (Inv n) (some_eq done) (after_pop-Inv n s who left v r)

run-Inv :
    {A : Type 0} (n : ℕ) (s s' : System A) (schedule : List (Action A))
    → Inv n s
    → run s schedule ≡ some s'
    → Inv n s'
unfolding run
run-Inv n s s' [] v e = subst (Inv n) (some_eq e) v
run-Inv n s s' (a ∷ rest) v e =
    let (t, first, later) = >>=-eq-some (step s a) _ e in
    run-Inv n t s' rest (step-Inv n s t a v first) later

-- After any schedule of pushes and pops on a fresh queue, whatever threads come first: the queue holds
-- at most its capacity and counts right, the items popped and those in the queue are the items pushed,
-- in order and each once, and no signal is missed: while a popper sleeps every item has a woken popper,
-- while a pusher sleeps every free place has a woken pusher.
pub run-start-Inv :
    {A : Type 0} (n : ℕ) (s : System A) (schedule : List (Action A))
    → run (start n) schedule ≡ some s
    → Inv n s
run-start-Inv n s schedule e = run-Inv n (start n) s schedule (start-Inv n) e

-- So, whatever came before, when no woken thread is left to run, poppers sleep only on an empty queue
-- and pushers only on a full one, and with room for an item they do not both sleep.
pub asleep_only_blocked :
    {A : Type 0} (n : ℕ) (s : System A) (schedule : List (Action A))
    → run (start n) schedule ≡ some s
    → s.woken_poppers ≡ 0
    → s.woken_pushers ≡ 0
    → (0 < s.sleeping_poppers → length s.block_queue.queue ≡ 0)
      × (0 < s.sleeping_pushers → length s.block_queue.queue ≡ n)
      × (0 < n → 0 < s.sleeping_poppers → 0 < s.sleeping_pushers → ⊥)
asleep_only_blocked n s schedule e p q =
    let v = run-start-Inv n s schedule e in
    (
      λ h. omega (arith, v.poppers_woken h, v.valid.counted),
      λ h. omega (arith, v.pushers_woken h, v.valid.counted, v.valid.bounded, v.same_capacity),
      λ h k l. omega (arith, v.poppers_woken k, v.pushers_woken l, v.same_capacity),
    )
