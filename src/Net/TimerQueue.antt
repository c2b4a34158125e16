-- ===== src/Net/TimerQueue.antt =====
-- net/TimerQueue.h and .cc: the timers of the connections in the order of their expiry.
-- A timer is named by the number of its connection; `conns` holds the connections that are alive, so
-- a timer whose connection is gone finds none, as its `weak_ptr` does.
pub mod Due
pub mod Idle
pub mod Wait
use carf_lib.Shared.{
  ℕ, zero, suc, ◌+◌, ◌-◌, ◌*◌, ◌/◌, ◌%◌, ◌^◌, ◌≤◌, ◌<◌, min, ◌≡◌, refl, sym, ap, ap₂, ◌∙◌, subst,
  ◌≢◌, ◌↔◌, ◌⊎◌, inl, inr, Bool, true, false, not, ◌&&◌, ◌||◌, Option, none, some, List, [], ◌∷◌,
  ◌++◌, map, append-nil, append_assoc, arith, ltb, leb, ◌==◌, if◌then◌else◌, ==_iff, Bool-cases,
  Option-cases, ◌>>=◌, >>=-eq-some, some_eq, Bytes, codes, bytes_eq, bytes_eq_iff, find_byte,
  is_space, length, get_elem?, take, drop, replicate, length-append, take-append-drop, length-take,
  length-drop, length-replicate, take-append, drop-append, take-append_le, drop-append_le, take_all,
  drop_all, drop-drop, take-drop, take-take, take-append_split, drop-append_split, take-replicate,
  drop-replicate,
}
use carf_lib.Shared.StdMap.{nat_key, lookup, assign, insert, erase}
use carf_lib.Net.TcpConnection.{
  TcpConnection, Timer, connection, add_time, handle_timer, stop_timer,
}

abbrev pub micro_seconds_per_second : ℕ
micro_seconds_per_second = 1000 * 1000

-- `howMuchTimeFromNow`: seconds and nanoseconds. A time that is past counts as less than 100.
unfoldable pub how_much_time_from_now : ℕ → ℕ → ℕ × ℕ
how_much_time_from_now when_due now =
    let microseconds : ℕ = if ltb (when_due - now) 100 then 100 else when_due - now in
    (microseconds / micro_seconds_per_second, (microseconds % micro_seconds_per_second) * 1000)

abbrev pub int_max : ℕ
int_max = 2 ^ 31 - 1

-- `now.addTime(check_per_seconds_*1000*1000)` and `resetTimerfd`, which reads the clock again. The product
-- is one of `int`, whose overflow is undefined.
unfoldable pub next_check : ℕ → ℕ → ℕ → Option (ℕ × ℕ)
next_check check now later =
    if leb (check * 1000 * 1000) int_max
    then (do t ← add_time now (check * 1000 * 1000); some (how_much_time_from_now t later))
    else none

-- The call of `addTimer` in `handleTimer`.
abbrev pub re_added : ℕ → TcpConnection → Bool → List (ℕ × Timer)
re_added i c more = elim c.timer [ none ↦ [] | some timer ↦ if more then (i, timer) ∷ [] else [] ]

-- `timer->run`: the connections, and the timer where it is to be added again. `clock i` is the time
-- that the callback of connection `i` reads.
unfoldable pub run_timer :
    (ℕ → ℕ) → ℕ → List (ℕ × TcpConnection) → Option (List (ℕ × TcpConnection) × List (ℕ × Timer))
run_timer clock i conns = elim (lookup i conns) [
  | none ↦ some (conns, [])
  | some c ↦ handle_timer c (clock i) >>= λ (c', more). some (assign i c' conns, re_added i c' more)
]

-- What `handleRead` leaves: the entries not due, the connections, and the timers to be added by tasks
-- that the loop runs later.
pub record Fired : Type 0 where
  pub timers : List (ℕ × ℕ)
  pub conns : List (ℕ × TcpConnection)
  pub added : List (ℕ × Timer)

-- The loop of `handleRead`: `begin()` is the first entry, and is erased when its timer has run.
unfoldable pub run_due : ℕ → (ℕ → ℕ) → List (ℕ × ℕ) → List (ℕ × TcpConnection) → Option Fired
run_due now clock [] conns = some (record { timers = []; conns = conns; added = [] })
run_due now clock ((t, i) ∷ rest) conns =
    let others = run_timer clock i conns >>= λ (conns', more).
    run_due now clock rest conns' >>= λ f. some (record f { added = more ++ f.added }) in
    if leb t now
    then others
    else some (record { timers = (t, i) ∷ rest; conns = conns; added = [] })

abbrev pub add_timer_in_loop : ℕ → Timer → List (ℕ × ℕ) → List (ℕ × ℕ)
add_timer_in_loop i timer timers = insert timer.expired i timers

unfoldable pub delete_timer : ℕ → List (ℕ × ℕ) → List (ℕ × ℕ)
delete_timer t timers = elim (lookup t timers) [ none ↦ timers | some _ ↦ erase t timers ]
