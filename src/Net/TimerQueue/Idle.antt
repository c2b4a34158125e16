-- ===== src/Net/TimerQueue/Idle.antt =====
-- What `TimerQueue::handleRead` leaves: no entry that is due, and no idle connection that was due open.
use carf_lib.Shared.{
  ℕ, ◌≡◌, sym, ap, ◌∙◌, subst, inl, inr, none, some, List, [], ◌∷◌, arith, leb, ◌==◌, if◌then◌else◌,
  Bool-cases,
}
use carf_lib.Shared.StdMap.{nat_key, lookup}
use carf_lib.Shared.StdMap.Sorted.{IsSorted}
use carf_lib.Net.TcpConnection.{TcpConnection, Timer, shutdown_write}
use carf_lib.Net.TimerQueue.{Fired, run_due, run_timer}
use carf_lib.Net.TimerQueue.Due.{
  IsDue, IsIdle, InRange, AllInRange, run_timer-IsIdle, run_timer-other, lookup-not_due,
  run_due-Runs, run_due_step, run_due_nil, run_due_stop,
}

-- A timer that runs leaves a connection shut down that was idle and shut down already.
run_timer-stays :
    (clock : ℕ → ℕ) (i j : ℕ) (c : TcpConnection) (conns conns' : List (ℕ × TcpConnection))
    (more : List (ℕ × Timer))
    → IsIdle (clock i) c
    → InRange c
    → lookup i conns ≡ some (shutdown_write c)
    → run_timer clock j conns ≡ some (conns', more)
    → lookup i conns' ≡ some (shutdown_write c)
run_timer-stays clock i j c conns conns' more idle safe found ran = elim (Bool-cases (j == i)) [
  | inl same ↦
      let p : j ≡ i = ground arith in
      run_timer-IsIdle clock i (shutdown_write c) conns conns' more found
        (record {
          timer = idle.timer;
          timed = idle.timed;
          long_ago = idle.long_ago;
          sent = idle.sent;
        })
        safe (subst (λ k. run_timer clock k conns ≡ some (conns', more)) p ran)
  | inr other ↦ run_timer-other clock j i conns conns' more (λ p. ground arith) ran ∙ found
]

stays_shut :
    (now : ℕ) (clock : ℕ → ℕ) (timers : List (ℕ × ℕ)) (conns : List (ℕ × TcpConnection)) (f : Fired)
    (i : ℕ) (c : TcpConnection)
    → IsIdle (clock i) c
    → InRange c
    → lookup i conns ≡ some (shutdown_write c)
    → run_due now clock timers conns ≡ some f
    → lookup i f.conns ≡ some (shutdown_write c)
stays_shut now clock [] conns f i c idle safe found e =
    rw (run_due_nil now clock conns f e) at found
stays_shut now clock ((t, j) ∷ rest) conns f i c idle safe found e = elim (Bool-cases (leb t now)) [
  | inr later ↦ rw (run_due_stop now clock t j rest conns f later e) at found
  | inl due ↦
      let (conns', more, g, ran, done, same) = run_due_step now clock t j rest conns f due e in
      ap (lookup i) (sym same)
      ∙ stays_shut now clock rest conns' g i c idle safe
          (run_timer-stays clock i j c conns conns' more idle safe found ran) done
]

due_shut :
    (now : ℕ) (clock : ℕ → ℕ) (timers : List (ℕ × ℕ)) (conns : List (ℕ × TcpConnection)) (f : Fired)
    (i : ℕ) (c : TcpConnection)
    → IsIdle (clock i) c
    → InRange c
    → lookup i conns ≡ some c
    → IsDue now i timers
    → run_due now clock timers conns ≡ some f
    → lookup i f.conns ≡ some (shutdown_write c)
due_shut now clock [] conns f i c idle safe found entry e = absurd entry
due_shut now clock ((t, j) ∷ rest) conns f i c idle safe found (due, entry) e =
    let (conns', more, g, ran, done, same) = run_due_step now clock t j rest conns f due e in
    ap (lookup i) (sym same) ∙ elim (Bool-cases (j == i)) [
      | inl here ↦
          let p : j ≡ i = ground arith in
          stays_shut now clock rest conns' g i c idle safe
            (run_timer-IsIdle clock i c conns conns' more found idle safe
              (subst (λ k. run_timer clock k conns ≡ some (conns', more)) p ran))
            done
      | inr other ↦
          due_shut now clock rest conns' g i c idle safe
            (run_timer-other clock j i conns conns' more (λ p. ground arith) ran ∙ found)
            (elim entry [ inl here ↦ absurd (ground arith) | inr behind ↦ behind ]) done
    ]

not_due_kept :
    (now : ℕ) (clock : ℕ → ℕ) (timers : List (ℕ × ℕ)) (conns : List (ℕ × TcpConnection)) (f : Fired)
    (i : ℕ)
    → ¬ (IsDue now i timers)
    → run_due now clock timers conns ≡ some f
    → lookup i f.conns ≡ lookup i conns
not_due_kept now clock [] conns f i never e = ap (lookup i) (sym (run_due_nil now clock conns f e))
not_due_kept now clock ((t, j) ∷ rest) conns f i never e = elim (Bool-cases (leb t now)) [
  | inr later ↦ ap (lookup i) (sym (run_due_stop now clock t j rest conns f later e))
  | inl due ↦
      let (conns', more, g, ran, done, same) = run_due_step now clock t j rest conns f due e in
      ap (lookup i) (sym same)
      ∙ not_due_kept now clock rest conns' g i (λ d. never (due, inr d)) done
      ∙ run_timer-other clock j i conns conns' more (λ p. never (due, inl p)) ran
]

-- When the timer descriptor is ready and no expiry overflows, the loop over the timers succeeds.
-- Of the entries it leaves exactly those whose time has not come. A connection with an entry that is
-- due, whose last visit is its interval or more ago and that has nothing left to send, is shut down,
-- and one with no entry that is due is as it was.
pub run_due_lem :
    (now : ℕ) (clock : ℕ → ℕ) (timers : List (ℕ × ℕ)) (conns : List (ℕ × TcpConnection))
    → IsSorted timers
    → AllInRange conns
    → (f : Fired) × (run_due now clock timers conns ≡ some f)
      × ((k : ℕ) → lookup k f.timers ≡ (if leb k now then none else lookup k timers))
      × ((i : ℕ) (c : TcpConnection)
          → lookup i conns ≡ some c
          → IsIdle (clock i) c
          → IsDue now i timers
          → lookup i f.conns ≡ some (shutdown_write c))
      × ((i : ℕ) → ¬ (IsDue now i timers) → lookup i f.conns ≡ lookup i conns)
run_due_lem now clock timers conns sorted safe =
    let (f, ran, left) = run_due-Runs now clock timers conns safe in
    (
      f,
      ran,
      λ k. ap (lookup k) left ∙ lookup-not_due now k timers sorted,
      λ i c found idle due.
          due_shut now clock timers conns f i c idle (safe i c found) found due ran,
      λ i never. not_due_kept now clock timers conns f i never ran,
    )
