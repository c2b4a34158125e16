-- ===== src/Net/TcpServer/Timed/Held.antt =====
-- Where the timer of one connection is.
use carf_lib.Shared.{
  ℕ, ◌+◌, ◌≤◌, ◌≡◌, refl, ap, ◌∙◌, subst, ◌≢◌, inl, inr, false, none, some, List, [], ◌∷◌, ◌++◌,
  arith, ◌==◌, if◌then◌else◌, Bool-cases,
}
use carf_lib.Shared.StdMap.{nat_key, lookup, insert, erase}
use carf_lib.Shared.StdMap.Sorted.{IsSorted, Above, lookup-Above}
use carf_lib.Net.TcpConnection.{TcpConnection, connected, Timer}
use carf_lib.Net.TcpServer.Timed.{entries, tasks}

-- Every entry for `i` has the key `k`.
abbrev pub EntriesAt : ℕ → ℕ → List (ℕ × ℕ) → Type 0
EntriesAt i k [] = Unit {0}
EntriesAt i k ((t, j) ∷ rest) = (j ≡ i → t ≡ k) × EntriesAt i k rest

-- Every task for `i` adds `timer`.
abbrev pub TasksOf : ℕ → Timer → List (ℕ × Timer) → Type 0
TasksOf i timer [] = Unit {0}
TasksOf i timer ((j, t) ∷ rest) = (j ≡ i → t ≡ timer) × TasksOf i timer rest

-- The timer of connection `i` is in the queue under its expiry, or in one task that adds it, and
-- not in both; while the connection is connected it is in one of them.
pub record IsHeld (i : ℕ) (c : TcpConnection) (timers : List (ℕ × ℕ)) (adds : List (ℕ × Timer))
    : Type 0 where
  pub timer : Timer
  pub timed : c.timer ≡ some timer
  pub once : entries i timers + tasks i adds ≤ 1
  pub entry : EntriesAt i timer.expired timers
  pub task : TasksOf i timer adds
  pub waits : c.state ≡ connected → 1 ≤ entries i timers + tasks i adds

pub entries-insert :
    (i k j : ℕ) (m : List (ℕ × ℕ))
    → lookup k m ≡ none
    → entries i (insert k j m) ≡ (if j == i then 1 else 0) + entries i m
unfolding lookup insert
entries-insert i k j [] h = refl
entries-insert i k j ((t, n) ∷ m) h = ground (arith, entries-insert i k j m)

pub EntriesAt-insert :
    (i e k j : ℕ) (m : List (ℕ × ℕ))
    → (j ≡ i → k ≡ e)
    → EntriesAt i e m
    → EntriesAt i e (insert k j m)
unfolding insert
EntriesAt-insert i e k j [] h own = (h, tt)
EntriesAt-insert i e k j ((t, n) ∷ m) h own = ground (arith, EntriesAt-insert i e k j m h own.1)

pub entries-erase :
    (i k : ℕ) (m : List (ℕ × ℕ))
    → IsSorted m
    → lookup k m ≢ some i
    → entries i (erase k m) ≡ entries i m
unfolding lookup erase
entries-erase i k [] sorted h = refl
entries-erase i k ((t, n) ∷ m) sorted h = elim (Bool-cases (t == k)) [
  | inl same ↦
      let p : t ≡ k = ground arith in
      let no_more = lookup-Above k m (subst (λ x. Above x m) p sorted.0) in
      let first : (n == i) ≡ false = ground (arith, rw (same, lookup) at h) in
      rw (same, erase) (entries-erase i k m sorted.1 (λ e. cc) ∙ rw first (omega arith))
  | inr other ↦
      rw (other, erase)
        (ap (λ x. (if n == i then 1 else 0) + x)
          (entries-erase i k m sorted.1 (λ e. h (rw (other, lookup) e))))
]

pub EntriesAt-erase : (i e k : ℕ) (m : List (ℕ × ℕ)) → EntriesAt i e m → EntriesAt i e (erase k m)
unfolding erase
EntriesAt-erase i e k [] own = tt
EntriesAt-erase i e k ((t, n) ∷ m) own = ground (arith, EntriesAt-erase i e k m own.1)

pub tasks-append : (i : ℕ) (xs ys : List (ℕ × Timer)) → tasks i (xs ++ ys) ≡ tasks i xs + tasks i ys
tasks-append i [] ys = omega arith
tasks-append i ((j, t) ∷ xs) ys = omega (arith, tasks-append i xs ys)

pub TasksOf-append :
    (i : ℕ) (t : Timer) (xs ys : List (ℕ × Timer))
    → TasksOf i t xs
    → TasksOf i t ys
    → TasksOf i t (xs ++ ys)
TasksOf-append i t [] ys h k = k
TasksOf-append i t ((j, u) ∷ xs) ys h k = (h.0, TasksOf-append i t xs ys h.1 k)

-- Where no task is for `i`, what they add does not matter to it.
pub TasksOf-none : (i : ℕ) (t : Timer) (xs : List (ℕ × Timer)) → tasks i xs ≡ 0 → TasksOf i t xs
TasksOf-none i t [] h = tt
TasksOf-none i t ((j, u) ∷ xs) h = (λ e. absurd (ground arith), TasksOf-none i t xs (omega arith))

pub EntriesAt-none : (i k : ℕ) (m : List (ℕ × ℕ)) → entries i m ≡ 0 → EntriesAt i k m
EntriesAt-none i k [] h = tt
EntriesAt-none i k ((t, j) ∷ m) h = (λ e. absurd (ground arith), EntriesAt-none i k m (omega arith))
