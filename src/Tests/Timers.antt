-- ===== src/Tests/Timers.antt =====
-- The timer of a connection from its making to its end.
use carf_lib.Shared.{
  ℕ, ◌+◌, ◌≤◌, ◌≡◌, refl, sym, ◌∙◌, subst, inl, inr, false, some, List, [], ◌∷◌, arith, ◌==◌,
  Bool-cases, some_eq,
}
use carf_lib.Shared.StdMap.{nat_key, lookup, assign, insert}
use carf_lib.Net.Buffer.{make}
use carf_lib.Net.TcpConnection.{
  TcpConnection, Timer, connection, shutdown_write, handle_timer, long_max,
}
use carf_lib.Net.TimerQueue.{run_due, run_timer}
use carf_lib.Net.TimerQueue.Due.{AllInRange, InRange}
use carf_lib.Net.TcpServer.{new_timer}
use carf_lib.Net.TcpServer.Timed.{
  Timed, empty, Happening, accepts, changes, performs, fires, removes, step, run, Allowed,
  AllAllowed,
}
use carf_lib.Net.TcpServer.Timed.Runs.{Inv}
use carf_lib.Net.TcpServer.Timed.Idle.{run-empty-Inv, idle-shuts}

abbrev timer : ℕ → Timer
timer t = record { interval = 1000000; expired = t }

-- Made at 5, its timer added, and read from at 6.
abbrev visited : ℕ → TcpConnection
visited t = record (connection false (some (timer t))) { visited = 6 }

abbrev made : Timed
made = record (empty false (some 1)) {
  conns = (0, connection false (some (timer 1000005))) ∷ [];
  adds = (0, timer 1000005) ∷ [];
}

abbrev queued : Timed
queued = record made { timers = (1000005, 0) ∷ []; adds = [] }

abbrev was_read : Timed
was_read = record queued { conns = (0, visited 1000005) ∷ [] }

-- The timer runs before the connection is idle for long enough.
abbrev put_off : Timed
put_off = record was_read {
  conns = (0, visited 1000006) ∷ [];
  timers = [];
  adds = (0, timer 1000006) ∷ [];
}

abbrev early : ℕ → ℕ
early i = 1000005

makes : step (empty false (some 1)) (accepts 0 5) ≡ some made
unfolding step new_timer assign
makes = refl

queues : step made performs ≡ some queued
unfolding step insert
queues = refl

reads : step queued (changes 0 (visited 1000005)) ≡ some was_read
unfolding step assign
reads = refl

puts_off : step was_read (fires 1000005 early) ≡ some put_off
unfolding step run_due run_timer handle_timer lookup assign make
puts_off = refl

after :
    (s t : Timed) (x : Happening) (rest : List Happening)
    → step s x ≡ some t
    → AllAllowed t rest
    → (s' : Timed) → step s x ≡ some s'
    → AllAllowed s' rest
after s t x rest e ok s' e' = subst (λ u. AllAllowed u rest) (some_eq (sym e ∙ e')) ok

abbrev tail : List Happening
tail = fires 1000005 early ∷ performs ∷ removes 0 ∷ []

abbrev again : Timed
again = record put_off { timers = (1000006, 0) ∷ []; adds = [] }

queues_again : step put_off performs ≡ some again
unfolding step insert
queues_again = refl

visited-InRange : InRange (visited 1000005)
visited-InRange t e = subst (λ (u : Timer). 6 + u.interval ≤ long_max) (some_eq e) (omega arith)

one_InRange : AllInRange was_read.conns
unfolding lookup
one_InRange i c e = elim (Bool-cases (0 == i)) [
  | inl same ↦ subst InRange (some_eq (rw same at e)) visited-InRange
  | inr other ↦ absurd (let no = rw other at e in cc)
]

tail_allowed : AllAllowed was_read tail
unfolding AllAllowed Allowed lookup
tail_allowed = (
  one_InRange,
  after was_read put_off (fires 1000005 early) (performs ∷ removes 0 ∷ []) puts_off (
    refl,
    after put_off again performs (removes 0 ∷ []) queues_again
        ((visited 1000006, timer 1000006, refl, refl, λ j e. sym (some_eq e)), λ _ _. tt),
  ),
)

begun_allowed :
    (rest : List Happening)
    → AllAllowed was_read rest
    → AllAllowed
        (empty false (some 1))
        (accepts 0 5 ∷ performs ∷ changes 0 (visited 1000005) ∷ rest)
unfolding AllAllowed Allowed lookup new_timer
begun_allowed rest ok = (
  ((timer 1000005, refl), refl, refl, refl),
  after (empty false (some 1)) made (accepts 0 5) (performs ∷ changes 0 (visited 1000005) ∷ rest)
      makes
      (
        refl,
        after made queued performs (changes 0 (visited 1000005) ∷ rest) queues (
          (connection false (some (timer 1000005)), refl, refl, λ e. e),
          after queued was_read (changes 0 (visited 1000005)) rest reads ok,
        ),
      ),
)

abbrev whole : List Happening
whole = accepts 0 5 ∷ performs ∷ changes 0 (visited 1000005) ∷ tail

run-empty-Inv_example : (s : Timed) × (run (empty false (some 1)) whole ≡ some s) × Inv s
run-empty-Inv_example = run-empty-Inv false (some 1) whole (begun_allowed tail tail_allowed)

abbrev begun : List Happening
begun = accepts 0 5 ∷ performs ∷ changes 0 (visited 1000005) ∷ []

reached : run (empty false (some 1)) begun ≡ some was_read
unfolding run step new_timer assign insert
reached = refl

abbrev late : ℕ → ℕ
late i = 2000000

idle-shuts_example :
    (s' : Timed) × (step was_read (fires 2000000 late) ≡ some s')
    × (lookup 0 s'.conns ≡ some (shutdown_write (visited 1000005)))
idle-shuts_example =
    idle-shuts false (some 1) begun was_read 0 2000000 late (visited 1000005) (timer 1000005)
      (begun_allowed [] (unfold AllAllowed in tt)) reached (unfold lookup in refl) refl refl refl
      (omega arith)
      (record {
        timer = timer 1000005;
        timed = refl;
        long_ago = omega arith;
        sent = unfold make in refl;
      })
      one_InRange
