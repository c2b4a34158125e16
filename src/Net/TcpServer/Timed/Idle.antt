-- ===== src/Net/TcpServer/Timed/Idle.antt =====
-- From a server without connections: no timer is lost, and who is idle is shut down.
use carf_lib.Shared.{
  ℕ, ◌≤◌, ◌<◌, ◌≡◌, sym, ◌∙◌, subst, inl, inr, Bool, Option, some, List, [], ◌∷◌, arith, ◌==◌,
  Bool-cases, some_eq,
}
use carf_lib.Shared.StdMap.{nat_key, lookup}
use carf_lib.Shared.StdMap.Sorted.{IsSorted, Above}
use carf_lib.Net.TcpConnection.{TcpConnection, connected, Timer, shutdown_write}
use carf_lib.Net.TcpServer.Timed.{Timed, entries, tasks}
use carf_lib.Net.TcpServer.Timed.Held.{EntriesAt}
use carf_lib.Net.TimerQueue.Due.{AllInRange, IsDue, IsIdle}
use carf_lib.Net.TimerQueue.Idle.{run_due_lem}
use carf_lib.Net.TcpServer.Timed.{empty, Happening, fires, fired, step, run, AllAllowed}
use carf_lib.Net.TcpServer.Timed.Runs.{Inv}
use carf_lib.Net.TcpServer.Timed.Cycle.{run-Inv}

-- From a server without connections, after anything that is allowed: nothing fails, the queue is in
-- order, and each connection that is alive has one timer, which is in the queue under its expiry or in
-- one task that adds it, and not in both; it is in one of them while the connection is connected. Allowed
-- is what gives each new connection a timer, uses no number twice, overflows no time, lets no two
-- timers expire in the same microsecond, changes a connection without touching its timer or making it
-- connected again, and lets the timer descriptor fire only where, for every live connection, the last
-- visit plus its interval, both in microseconds, fits a `long`.
pub run-empty-Inv :
    (et : Bool) (hold : Option ℕ) (xs : List Happening)
    → AllAllowed (empty et hold) xs
    → (s : Timed) × (run (empty et hold) xs ≡ some s) × Inv s
run-empty-Inv et hold xs ok =
    run-Inv (empty et hold) xs
      (record { sorted = tt; held = λ i c e. absurd (unfold lookup in cc) }) ok

-- What is above a key stands under larger ones.
Above-entry : (i t k : ℕ) (m : List (ℕ × ℕ)) → Above t m → EntriesAt i k m → 1 ≤ entries i m → t < k
Above-entry i t k [] above own some_here = absurd (omega arith)
Above-entry i t k ((u, j) ∷ m) above own some_here = elim (Bool-cases (j == i)) [
  | inl here ↦ let p = own.0 (ground arith) in ground arith
  | inr other ↦ Above-entry i t k m above.1 own.1 (ground arith)
]

entry-IsDue :
    (i k now : ℕ) (m : List (ℕ × ℕ))
    → IsSorted m
    → EntriesAt i k m
    → 1 ≤ entries i m
    → k ≤ now
    → IsDue now i m
entry-IsDue i k now [] sorted own some_here past = absurd (omega arith)
entry-IsDue i k now ((t, j) ∷ m) sorted own some_here past = elim (Bool-cases (j == i)) [
  | inl here ↦ let p : j ≡ i = ground arith in let q = own.0 p in (ground arith, inl p)
  | inr other ↦
      let behind : 1 ≤ entries i m = ground arith in
      let below = Above-entry i t k m sorted.0 own.1 behind in
      (ground arith, inr (entry-IsDue i k now m sorted.1 own.1 behind past))
]

-- In a state that such a server reaches, where for every live connection with a timer the last visit plus
-- the timer's interval fits a `long` (`visited` starts at the largest one, so a connection with an
-- interval above 0 must have been read): a connection with no task queued for it, that is connected, whose timer has expired, whose last
-- visit is its interval or more ago and that has nothing left to send is shut down when the timer
-- descriptor is ready.
pub idle-shuts :
    (et : Bool) (hold : Option ℕ) (xs : List Happening) (s : Timed) (i now : ℕ) (clock : ℕ → ℕ)
    (c : TcpConnection) (timer : Timer)
    → AllAllowed (empty et hold) xs
    → run (empty et hold) xs ≡ some s
    → lookup i s.conns ≡ some c
    → c.state ≡ connected
    → c.timer ≡ some timer
    → tasks i s.adds ≡ 0
    → timer.expired ≤ now
    → IsIdle (clock i) c
    → AllInRange s.conns
    → (s' : Timed) × (step s (fires now clock) ≡ some s')
      × (lookup i s'.conns ≡ some (shutdown_write c))
unfolding step
idle-shuts et hold xs s i now clock c timer ok reached found on timed no_task past idle safe =
    let (u, ran, w) = run-empty-Inv et hold xs ok in
    let v = subst Inv (some_eq (sym ran ∙ reached)) w in
    let h = v.held i c found in
    let same : h.timer ≡ timer = some_eq (sym h.timed ∙ timed) in
    let due =
      entry-IsDue i h.timer.expired now s.timers v.sorted h.entry
        (omega (arith, h.waits on, no_task)) (subst (λ t. t.expired ≤ now) (sym same) past) in
    let (f, done, _, shuts, _) = run_due_lem now clock s.timers s.conns v.sorted safe in
    (fired s f, rw done, shuts i c found idle due)
