-- ===== src/Net/TcpServer/Timed/Firing.antt =====
-- The timer of one connection when the timer descriptor is ready.
use carf_lib.Shared.{
  ℕ, ◌≤◌, ◌≡◌, refl, sym, ap, ◌∙◌, subst, inl, inr, false, some, List, [], ◌∷◌, ◌++◌, arith, leb,
  ◌==◌, Bool-cases, some_eq,
}
use carf_lib.Shared.StdMap.{nat_key, lookup}
use carf_lib.Net.TcpConnection.{TcpConnection, shut_down, Timer}
use carf_lib.Net.TimerQueue.{run_due, run_timer, Fired}
use carf_lib.Net.TimerQueue.Due.{run_timer-other}
use carf_lib.Net.TcpServer.Timed.{entries, tasks}
use carf_lib.Net.TcpServer.Timed.Held.{TasksOf, tasks-append, TasksOf-append, TasksOf-none}
use carf_lib.Net.TcpServer.Timed.Turn.{
  run_timer-tasks_other, run_due-turn, run_due-untouched, run_timer_self,
}

-- What the loop leaves of a connection `c` and its timer: nothing changed, or its entry is gone, and
-- it was queued to be added, or shut down.
pub data WasFired (i : ℕ) (c : TcpConnection) (timers : List (ℕ × ℕ)) (f : Fired) : Type 0 where
  kept :
      lookup i f.conns ≡ some c
      → entries i f.timers ≡ entries i timers
      → tasks i f.added ≡ 0
      → WasFired i c timers f
  queued :
      (d : TcpConnection) (t : Timer)
      → lookup i f.conns ≡ some d
      → d.timer ≡ some t
      → 1 ≤ entries i timers
      → entries i f.timers ≡ 0
      → tasks i f.added ≡ 1
      → TasksOf i t f.added
      → WasFired i c timers f
  shut :
      (d : TcpConnection)
      → lookup i f.conns ≡ some d
      → d.timer ≡ c.timer
      → d.state ≡ shut_down
      → entries i f.timers ≡ 0
      → tasks i f.added ≡ 0
      → WasFired i c timers f

-- The timer of another connection ran before.
WasFired-behind :
    (i t j : ℕ) (c : TcpConnection) (rest : List (ℕ × ℕ)) (g : Fired) (more : List (ℕ × Timer))
    → (j == i) ≡ false
    → tasks i more ≡ 0
    → WasFired i c rest g
    → WasFired i c ((t, j) ∷ rest) (record g { added = more ++ g.added })
WasFired-behind i t j c rest g more other none_added (kept found same none_later) =
    kept found (same ∙ rw other (omega arith))
      (tasks-append i more g.added ∙ omega (arith, none_added, none_later))
WasFired-behind i t j c rest g more other none_added
      (queued d u found timed some_here gone one own) =
    queued d u found timed (omega (arith, some_here)) gone
      (tasks-append i more g.added ∙ omega (arith, none_added, one))
      (TasksOf-append i u more g.added (TasksOf-none i u more none_added) own)
WasFired-behind i t j c rest g more other none_added (shut d found timed state gone none_later) =
    shut d found timed state gone
      (tasks-append i more g.added ∙ omega (arith, none_added, none_later))

one_task : (i : ℕ) (t : Timer) → tasks i ((i, t) ∷ []) ≡ 1
one_task i t = ground arith

-- The loop, for a connection that has at most one entry.
pub run_due-WasFired :
    (i now : ℕ) (clock : ℕ → ℕ) (timers : List (ℕ × ℕ)) (conns : List (ℕ × TcpConnection))
    (f : Fired) (c : TcpConnection) (timer : Timer)
    → entries i timers ≤ 1
    → lookup i conns ≡ some c
    → c.timer ≡ some timer
    → run_due now clock timers conns ≡ some f
    → WasFired i c timers f
unfolding run_due
run_due-WasFired i now clock [] conns f c timer once found timed e =
    let same = some_eq e in
    kept (ap (λ g. lookup i g.conns) (sym same) ∙ found) (ap (λ g. entries i g.timers) (sym same))
      (ap (λ g. tasks i g.added) (sym same))
run_due-WasFired i now clock ((t, j) ∷ rest) conns f c timer once found timed e =
    elim (Bool-cases (leb t now)) [
      | inr later ↦
          let same = some_eq (rw later at e) in
          kept (ap (λ g. lookup i g.conns) (sym same) ∙ found)
            (ap (λ g. entries i g.timers) (sym same)) (ap (λ g. tasks i g.added) (sym same))
      | inl due ↦
          let (conns', more, g, ran, done, same) = run_due-turn now clock t j rest conns f due e in
          elim (Bool-cases (j == i)) [
            | inr other ↦ subst (WasFired i c ((t, j) ∷ rest)) (sym same) (
                WasFired-behind i t j c rest g more other
                  (run_timer-tasks_other clock i j conns conns' more other ran)
                  (run_due-WasFired i now clock rest conns' g c timer (omega (arith, once))
                    (run_timer-other clock j i conns conns' more (λ p. ground arith) ran ∙ found)
                    timed done))
            | inl here ↦
                let p : j ≡ i = ground arith in
                let alone : entries i rest ≡ 0 = ground arith in
                let (a, b, none_later) = run_due-untouched i now clock rest conns' g alone done in
                subst (WasFired i c ((t, j) ∷ rest)) (sym same)
                  (elim (run_timer_self clock i c timer conns conns' more found timed
                    (subst (λ k. run_timer clock k conns ≡ some (conns', more)) p ran)) [
                      | inl (d, u, at_i, its, added) ↦
                          queued d u (a ∙ at_i) its (ground arith) b
                            (tasks-append i more g.added
                              ∙ omega (arith, none_later, ap (tasks i) added, one_task i u))
                            (TasksOf-append i u more g.added
                              (subst (TasksOf i u) (sym added) (λ _. refl, tt))
                              (TasksOf-none i u g.added none_later))
                      | inr (d, at_i, its, is_shut, added) ↦
                          shut d (a ∙ at_i) (its ∙ sym timed) is_shut b (
                            tasks-append i more g.added
                            ∙ omega (arith, none_later, ap (tasks i) added))
                    ])
          ]
    ]
