-- ===== src/Net/TcpServer/Timed/Cycle.antt =====
-- The life of the timers: what runs, what is removed, and who is shut down for being idle.
use carf_lib.Shared.{
  ℕ, ◌≡◌, refl, sym, ap, ◌∙◌, subst, ◌≢◌, ◌⊎◌, inl, inr, Option, none, some, List, [], ◌∷◌, ◌++◌,
  arith, ltb, leb, ◌==◌, Bool-cases, Option-cases, some_eq,
}
use carf_lib.Shared.StdMap.{nat_key, lookup, erase}
use carf_lib.Shared.StdMap.Sorted.{IsSorted}
use carf_lib.Net.TcpConnection.{TcpConnection, Timer}
use carf_lib.Net.TimerQueue.{run_due, run_timer, Fired, delete_timer}
use carf_lib.Net.TimerQueue.Due.{run_timer-other}
use carf_lib.Net.TcpServer.Timed.{Timed, tasks}
use carf_lib.Net.TcpServer.Timed.Held.{
  EntriesAt, IsHeld, tasks-append, TasksOf-append, EntriesAt-none, TasksOf-none,
}
use carf_lib.Shared.StdMap.Sorted.{erase-IsSorted}
use carf_lib.Shared.StdMap.{lookup-erase}
use carf_lib.Net.TimerQueue.Due.{run_due-Runs, not_due}
use carf_lib.Net.TcpServer.{cancel}
use carf_lib.Net.TcpServer.Timed.{
  Happening, accepts, changes, performs, fires, removes, fired, step, run, Allowed, AllAllowed,
}
use carf_lib.Net.TcpServer.Timed.Held.{entries-erase, EntriesAt-erase}
use carf_lib.Net.TcpServer.Timed.Firing.{WasFired, kept, queued, shut, run_due-WasFired}
use carf_lib.Net.TcpServer.Timed.Turn.{run_due-turn}
use carf_lib.Net.TcpServer.Timed.Runs.{Inv, accept-Inv, change-Inv, perform-Inv}

EntriesAt-not_due :
    (i k now : ℕ) (timers : List (ℕ × ℕ))
    → EntriesAt i k timers
    → EntriesAt i k (not_due now timers)
EntriesAt-not_due i k now [] own = tt
EntriesAt-not_due i k now ((t, j) ∷ rest) own = elim (Bool-cases (leb t now)) [
  | inl due ↦ rw due (EntriesAt-not_due i k now rest own.1)
  | inr later ↦ rw later own
]

not_due-IsSorted :
    (now : ℕ) (timers : List (ℕ × ℕ)) → IsSorted timers → IsSorted (not_due now timers)
not_due-IsSorted now [] sorted = tt
not_due-IsSorted now ((t, j) ∷ rest) sorted = elim (Bool-cases (leb t now)) [
  | inl due ↦ rw due (not_due-IsSorted now rest sorted.1)
  | inr later ↦ rw later sorted
]

-- Where its timer is, after the descriptor was ready.
fired-IsHeld :
    (i : ℕ) (c d : TcpConnection) (timers : List (ℕ × ℕ)) (adds : List (ℕ × Timer)) (f : Fired)
    → ((k : ℕ) → EntriesAt i k timers → EntriesAt i k f.timers)
    → IsHeld i c timers adds
    → WasFired i c timers f
    → lookup i f.conns ≡ some d
    → IsHeld i d f.timers (adds ++ f.added)
fired-IsHeld i c d timers adds f own h (kept found same none_added) e =
    let more = tasks-append i adds f.added in
    subst (λ x. IsHeld i x f.timers (adds ++ f.added)) (some_eq (sym found ∙ e))
      (record {
        timer = h.timer;
        timed = h.timed;
        once = omega (arith, more, h.once, same, none_added);
        entry = own h.timer.expired h.entry;
        task =
            TasksOf-append i h.timer adds f.added h.task
              (TasksOf-none i h.timer f.added none_added);
        waits = λ k. omega (arith, more, h.waits k, same, none_added);
      })
fired-IsHeld i c d timers adds f own h (queued b t found timed there gone one of_it) e =
    let more = tasks-append i adds f.added in
    let no_other : tasks i adds ≡ 0 = omega (arith, h.once, there) in
    subst (λ x. IsHeld i x f.timers (adds ++ f.added)) (some_eq (sym found ∙ e))
      (record {
        timer = t;
        timed = timed;
        once = omega (arith, more, gone, one, no_other);
        entry = EntriesAt-none i t.expired f.timers gone;
        task = TasksOf-append i t adds f.added (TasksOf-none i t adds no_other) of_it;
        waits = λ k. omega (arith, more, gone, one, no_other);
      })
fired-IsHeld i c d timers adds f own h (shut b found timed off gone none_added) e =
    let more = tasks-append i adds f.added in
    subst (λ x. IsHeld i x f.timers (adds ++ f.added)) (some_eq (sym found ∙ e))
      (record {
        timer = h.timer;
        timed = timed ∙ h.timed;
        once = omega (arith, more, h.once, gone, none_added);
        entry = EntriesAt-none i h.timer.expired f.timers gone;
        task =
            TasksOf-append i h.timer adds f.added h.task
              (TasksOf-none i h.timer f.added none_added);
        waits = λ k. absurd (let no = sym off ∙ k in cc);
      })

-- The entry of another connection is erased.
erased-IsHeld :
    (j : ℕ) (d : TcpConnection) (k : ℕ) (timers : List (ℕ × ℕ)) (adds : List (ℕ × Timer))
    → IsSorted timers
    → lookup k timers ≢ some j
    → IsHeld j d timers adds
    → IsHeld j d (erase k timers) adds
erased-IsHeld j d k timers adds sorted other h =
    let same = entries-erase j k timers sorted other in
    record {
      timer = h.timer;
      timed = h.timed;
      once = omega (arith, h.once, same);
      entry = EntriesAt-erase j h.timer.expired k timers h.entry;
      task = h.task;
      waits = λ p. omega (arith, h.waits p, same);
    }

remove-Inv :
    (s : Timed) (i : ℕ) (c : TcpConnection) (timer : Timer) (timers : List (ℕ × ℕ))
    → Inv s
    → ((j : ℕ) → lookup timer.expired s.timers ≡ some j → j ≡ i)
    → (timers ≡ s.timers) ⊎ (timers ≡ erase timer.expired s.timers)
    → Inv (record s { timers = timers; conns = erase i s.conns })
remove-Inv s i c timer timers v own which = record {
  sorted = elim which [
    | inl same ↦ subst IsSorted (sym same) v.sorted
    | inr less ↦ subst IsSorted (sym less) (erase-IsSorted timer.expired s.timers v.sorted)
  ];
  held = λ j d e.
      let at_j = sym (lookup-erase i j s.conns) ∙ e in
      elim (Bool-cases (i == j)) [
        | inl same ↦ absurd (let no = rw same at at_j in cc)
        | inr other ↦
            let h = v.held j d (rw other at at_j) in
            elim which [
              | inl same ↦ subst (λ m. IsHeld j d m s.adds) (sym same) h
              | inr less ↦
                  subst (λ m. IsHeld j d m s.adds) (sym less)
                    (erased-IsHeld j d timer.expired s.timers s.adds v.sorted
                      (λ p. let q = own j p in ground arith) h)
            ]
      ];
}

cancel-cases :
    (hold : Option ℕ) (o : Option Timer) (timer : Timer) (timers : List (ℕ × ℕ))
    → o ≡ some timer
    → (left : List (ℕ × ℕ)) × (cancel hold o timers ≡ some left)
      × ((left ≡ timers) ⊎ (left ≡ erase timer.expired timers))
unfolding cancel delete_timer
cancel-cases none o timer timers e = (timers, refl, inl refl)
cancel-cases (some h) o timer timers e = elim (Bool-cases (ltb 0 h)) [
  | inr never ↦ (timers, rw never, inl refl)
  | inl late ↦ elim (Option-cases (lookup timer.expired timers)) [
    | inl absent ↦ (timers, rw (late, e) (rw (absent, delete_timer)), inl refl)
    | inr (j, present) ↦
        (erase timer.expired timers, rw (late, e) (rw (present, delete_timer)), inr refl)
  ]
]

-- A timer makes no connection alive again.
run_timer-absent :
    (clock : ℕ → ℕ) (i j : ℕ) (conns conns' : List (ℕ × TcpConnection)) (more : List (ℕ × Timer))
    → lookup i conns ≡ none
    → run_timer clock j conns ≡ some (conns', more)
    → lookup i conns' ≡ none
unfolding run_timer
run_timer-absent clock i j conns conns' more gone e = elim (Bool-cases (j == i)) [
  | inr other ↦ run_timer-other clock j i conns conns' more (λ p. ground arith) e ∙ gone
  | inl same ↦
      let p : j ≡ i = ground arith in
      let missing = ap (λ k. lookup k conns) p ∙ gone in
      let kept = some_eq (rw (missing, run_timer) at e) in ap (λ q. lookup i q.0) (sym kept) ∙ gone
]

run_due-absent :
    (i now : ℕ) (clock : ℕ → ℕ) (timers : List (ℕ × ℕ)) (conns : List (ℕ × TcpConnection))
    (f : Fired)
    → lookup i conns ≡ none
    → run_due now clock timers conns ≡ some f
    → lookup i f.conns ≡ none
unfolding run_due
run_due-absent i now clock [] conns f gone e = ap (λ g. lookup i g.conns) (sym (some_eq e)) ∙ gone
run_due-absent i now clock ((t, j) ∷ rest) conns f gone e = elim (Bool-cases (leb t now)) [
  | inr later ↦ ap (λ g. lookup i g.conns) (sym (some_eq (rw later at e))) ∙ gone
  | inl due ↦
      let (conns', more, g, ran, done, same) = run_due-turn now clock t j rest conns f due e in
      ap (λ h. lookup i h.conns) same
      ∙ run_due-absent i now clock rest conns' g
          (run_timer-absent clock i j conns conns' more gone ran) done
]

fire-Inv :
    (s : Timed) (now : ℕ) (clock : ℕ → ℕ) (f : Fired)
    → Inv s
    → run_due now clock s.timers s.conns ≡ some f
    → f.timers ≡ not_due now s.timers
    → Inv (fired s f)
fire-Inv s now clock f v ran left = record {
  sorted = subst IsSorted (sym left) (not_due-IsSorted now s.timers v.sorted);
  held = λ i d e. elim (Option-cases (lookup i s.conns)) [
    | inl gone ↦ absurd (let no = run_due-absent i now clock s.timers s.conns f gone ran in cc)
    | inr (c, found) ↦
        let h = v.held i c found in
        fired-IsHeld i c d s.timers s.adds f
          (λ k own. subst (EntriesAt i k) (sym left) (EntriesAt-not_due i k now s.timers own)) h
          (run_due-WasFired i now clock s.timers s.conns f c h.timer (omega (arith, h.once)) found
            h.timed ran)
          e
  ];
}

step-Inv :
    (s : Timed) (x : Happening) → Inv s → Allowed s x → (s' : Timed) × (step s x ≡ some s') × Inv s'
unfolding step Allowed
step-Inv s (accepts i now) v ((timer, made), _, no_entry, no_task) =
    (_, rw made, accept-Inv s i timer v no_entry no_task)
step-Inv s (changes i c) v (b, found, timed, stays) =
    (_, refl, change-Inv s i b c v found timed stays)
step-Inv s performs v free = (_, refl, perform-Inv s s.adds v refl free)
step-Inv s (fires now clock) v safe =
    let (f, ran, left) = run_due-Runs now clock s.timers s.conns safe in
    (fired s f, rw ran, fire-Inv s now clock f v ran left)
step-Inv s (removes i) v (c, timer, found, timed, own) =
    let (left, done, which) = cancel-cases s.hold c.timer timer s.timers timed in
    (
      record s { timers = left; conns = erase i s.conns },
      rw (found, done),
      remove-Inv s i c timer left v own which,
    )

pub run-Inv :
    (s : Timed) (xs : List Happening)
    → Inv s
    → AllAllowed s xs
    → (s' : Timed) × (run s xs ≡ some s') × Inv s'
unfolding run AllAllowed
run-Inv s [] v ok = (s, refl, v)
run-Inv s (x ∷ rest) v (ok, later) =
    let (t, first, w) = step-Inv s x v ok in
    let (u, others, z) = run-Inv t rest w (later t first) in (u, rw first others, z)
