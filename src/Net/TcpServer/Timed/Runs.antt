-- ===== src/Net/TcpServer/Timed/Runs.antt =====
-- No timer of a connection is lost, in any order of what happens.
use carf_lib.Shared.{
  ℕ, ◌≡◌, refl, sym, ap, ◌∙◌, subst, ◌⊎◌, inl, inr, Bool, true, false, some, List, [], ◌∷◌, ◌++◌,
  arith, ◌==◌, Bool-cases, some_eq,
}
use carf_lib.Shared.StdMap.{nat_key, lookup, assign, lookup-assign}
use carf_lib.Shared.StdMap.Sorted.{IsSorted}
use carf_lib.Net.TcpConnection.{TcpConnection, connected, Timer, connection}
use carf_lib.Net.TcpServer.Timed.{Timed, entries, tasks}
use carf_lib.Net.TcpServer.Timed.Held.{
  TasksOf, IsHeld, tasks-append, TasksOf-append, EntriesAt-none, TasksOf-none,
}
use carf_lib.Shared.StdMap.Sorted.{insert-IsSorted}
use carf_lib.Net.TcpServer.Timed.{perform, IsFree}
use carf_lib.Net.TcpServer.Timed.Held.{entries-insert, EntriesAt-insert}

pub record Inv (s : Timed) : Type 0 where
  pub sorted : IsSorted s.timers
  pub held : (i : ℕ) (c : TcpConnection) → lookup i s.conns ≡ some c → IsHeld i c s.timers s.adds

-- A connection that was put into the map is the one found there, and the others are as they were.
found_after :
    (i j : ℕ) (c d : TcpConnection) (conns : List (ℕ × TcpConnection))
    → lookup j (assign i d conns) ≡ some c
    → ((i ≡ j) × (d ≡ c)) ⊎ (((i == j) ≡ false) × (lookup j conns ≡ some c))
found_after i j c d conns e =
    let at_j = sym (lookup-assign i j d conns) ∙ e in
    elim (Bool-cases (i == j)) [
      | inl same ↦ inl (ground arith, some_eq (rw same at at_j))
      | inr other ↦ inr (other, rw other at at_j)
    ]

new-IsHeld :
    (i : ℕ) (et : Bool) (timer : Timer) (timers : List (ℕ × ℕ)) (adds : List (ℕ × Timer))
    → entries i timers ≡ 0
    → tasks i adds ≡ 0
    → IsHeld i (connection et (some timer)) timers (adds ++ (i, timer) ∷ [])
new-IsHeld i et timer timers adds no_entry no_task =
    let one = tasks-append i adds ((i, timer) ∷ []) in
    let self : (i == i) ≡ true = ground arith in
    record {
      timer = timer;
      timed = refl;
      once = ground arith;
      entry = EntriesAt-none i timer.expired timers no_entry;
      task =
          TasksOf-append i timer adds ((i, timer) ∷ []) (TasksOf-none i timer adds no_task)
            (λ _. refl, tt);
      waits = λ _. ground arith;
    }

-- A task for another connection.
more-IsHeld :
    (i j : ℕ) (c : TcpConnection) (timer : Timer) (timers : List (ℕ × ℕ)) (adds : List (ℕ × Timer))
    → (i == j) ≡ false
    → IsHeld j c timers adds
    → IsHeld j c timers (adds ++ (i, timer) ∷ [])
more-IsHeld i j c timer timers adds other h =
    let same = tasks-append j adds ((i, timer) ∷ []) in
    record {
      timer = h.timer;
      timed = h.timed;
      once = ground (arith, h.once);
      entry = h.entry;
      task =
          TasksOf-append j h.timer adds ((i, timer) ∷ []) h.task (λ p. absurd (ground arith), tt);
      waits = λ k. ground (arith, h.waits k);
    }

pub accept-Inv :
    (s : Timed) (i : ℕ) (timer : Timer)
    → Inv s
    → entries i s.timers ≡ 0
    → tasks i s.adds ≡ 0
    → Inv (record s {
      conns = assign i (connection s.et (some timer)) s.conns;
      adds = s.adds ++ (i, timer) ∷ [];
    })
accept-Inv s i timer v no_entry no_task = record {
  sorted = v.sorted;
  held = λ j c e. elim (found_after i j c (connection s.et (some timer)) s.conns e) [
    | inl (p, q) ↦
        subst (λ k. IsHeld k c s.timers (s.adds ++ (i, timer) ∷ [])) p
          (subst (λ d. IsHeld i d s.timers (s.adds ++ (i, timer) ∷ [])) q
            (new-IsHeld i s.et timer s.timers s.adds no_entry no_task))
    | inr (other, old) ↦ more-IsHeld i j c timer s.timers s.adds other (v.held j c old)
  ];
}

pub change-Inv :
    (s : Timed) (i : ℕ) (b c : TcpConnection)
    → Inv s
    → lookup i s.conns ≡ some b
    → c.timer ≡ b.timer
    → (c.state ≡ connected → b.state ≡ connected)
    → Inv (record s { conns = assign i c s.conns })
change-Inv s i b c v found timed stays = record {
  sorted = v.sorted;
  held = λ j d e. elim (found_after i j d c s.conns e) [
    | inl (p, q) ↦
        let h = v.held i b found in
        subst (λ k. IsHeld k d s.timers s.adds) p
          (subst (λ x. IsHeld i x s.timers s.adds) q
            (record {
              timer = h.timer;
              timed = timed ∙ h.timed;
              once = h.once;
              entry = h.entry;
              task = h.task;
              waits = λ k. h.waits (stays k);
            }))
    | inr (_, old) ↦ v.held j d old
  ];
}

-- The next task moves a timer from the tasks to the queue.
pub perform-Inv :
    (s : Timed) (adds : List (ℕ × Timer))
    → Inv s
    → s.adds ≡ adds
    → IsFree s.timers adds
    → Inv (perform s adds)
perform-Inv s [] v e free = v
perform-Inv s ((i, timer) ∷ rest) v e free = record {
  sorted = insert-IsSorted timer.expired i s.timers v.sorted;
  held = λ j c found.
      let h = v.held j c found in
      let moved = entries-insert j timer.expired i s.timers free in
      let before = ap (tasks j) e in
      let own = subst (TasksOf j h.timer) e h.task in
      record {
        timer = h.timer;
        timed = h.timed;
        once = omega (arith, moved, before, h.once);
        entry =
            EntriesAt-insert j h.timer.expired timer.expired i s.timers
              (λ p. ap (λ t. t.expired) (own.0 p)) h.entry;
        task = own.1;
        waits = λ k. omega (arith, moved, before, h.waits k);
      };
}
