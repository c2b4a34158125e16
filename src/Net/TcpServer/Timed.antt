-- ===== src/Net/TcpServer/Timed.antt =====
-- The timers of the connections from net/TcpServer.cc through net/TimerQueue.cc and net/TcpConnection.cc:
-- a timer is made for a new connection and queued to be added, is added, runs when its time has come, and
-- is then queued again or shuts its connection down; it is deleted when its connection is removed.
-- Tasks that add timers keep their order; between them connections change, and are removed, at any time.
pub mod Held
pub mod Turn
pub mod Firing
pub mod Runs
pub mod Cycle
pub mod Idle
use carf_lib.Shared.{
  ℕ, zero, suc, ◌+◌, ◌-◌, ◌*◌, ◌/◌, ◌%◌, ◌^◌, ◌≤◌, ◌<◌, min, ◌≡◌, refl, sym, ap, ap₂, ◌∙◌, subst,
  ◌≢◌, ◌↔◌, ◌⊎◌, inl, inr, Bool, true, false, not, ◌&&◌, ◌||◌, Option, none, some, List, [], ◌∷◌,
  ◌++◌, map, append-nil, append_assoc, arith, ltb, leb, ◌==◌, if◌then◌else◌, ==_iff, Bool-cases,
  Option-cases, ◌>>=◌, >>=-eq-some, some_eq, one_of, one_of_lem, Bytes, codes, bytes_eq,
  bytes_eq_iff, find_byte, is_space, length, get_elem?, take, drop, replicate, length-append,
  take-append-drop, length-take, length-drop, length-replicate, take-append, drop-append,
  take-append_le, drop-append_le, take_all, drop_all, drop-drop, take-drop, take-take,
  take-append_split, drop-append_split, take-replicate, drop-replicate, set, length-set,
  get_elem?-set_self, get_elem?-set_ne, get_elem?-replicate, length-Permᴰ,
}
use carf_lib.Shared.StdMap.{nat_key, lookup, assign, erase}
use carf_lib.Shared.StdMap.Sorted.{IsSorted}
use carf_lib.Net.TcpConnection.{TcpConnection, State, connected, Timer, connection}
use carf_lib.Net.TimerQueue.{run_due, Fired, add_timer_in_loop}
use carf_lib.Net.TimerQueue.Due.{AllInRange}
use carf_lib.Net.TcpServer.{new_timer, cancel}

-- The connections that are alive, by number; the entries of the queue; the timers that tasks will add.
pub record Timed : Type 0 where
  pub et : Bool
  pub hold : Option ℕ
  pub conns : List (ℕ × TcpConnection)
  pub timers : List (ℕ × ℕ)
  pub adds : List (ℕ × Timer)

abbrev pub empty : Bool → Option ℕ → Timed
empty et hold = record { et = et; hold = hold; conns = []; timers = []; adds = [] }

-- `addTimer`: a task of the main loop.
abbrev pub add_timer : ℕ → Option Timer → List (ℕ × Timer) → List (ℕ × Timer)
add_timer i none adds = adds
add_timer i (some timer) adds = adds ++ (i, timer) ∷ []

-- A connection is made, another thread changes one, the next task adds its timer, the timer descriptor
-- is ready, a connection is removed.
pub data Happening : Type 0 where
  accepts : ℕ → ℕ → Happening
  changes : ℕ → TcpConnection → Happening
  performs : Happening
  fires : ℕ → (ℕ → ℕ) → Happening
  removes : ℕ → Happening

abbrev pub perform : Timed → List (ℕ × Timer) → Timed
perform s [] = s
perform s ((i, timer) ∷ rest) = record s {
  timers = add_timer_in_loop i timer s.timers;
  adds = rest;
}

abbrev pub fired : Timed → Fired → Timed
fired s f = record s { timers = f.timers; conns = f.conns; adds = s.adds ++ f.added }

-- `newConnection()` for connection `i`.
abbrev pub accept_timed : Timed → ℕ → ℕ → Option Timed
accept_timed s i now = new_timer s.hold now >>= λ timer.
    some (record s {
      conns = assign i (connection s.et timer) s.conns;
      adds = add_timer i timer s.adds;
    })

-- `removeConnectionInLoop(conn)`.
abbrev pub remove_timed : Timed → ℕ → Option Timed
remove_timed s i = lookup i s.conns >>= λ c. cancel s.hold c.timer s.timers >>= λ timers.
    some (record s { timers = timers; conns = erase i s.conns })

-- `handleRead()` of the queue, up to the next setting of the descriptor.
abbrev pub fire_timed : Timed → ℕ → (ℕ → ℕ) → Option Timed
fire_timed s now clock = run_due now clock s.timers s.conns >>= λ f. some (fired s f)

unfoldable pub step : Timed → Happening → Option Timed
step s (accepts i now) = accept_timed s i now
step s (changes i c) = some (record s { conns = assign i c s.conns })
step s performs = some (perform s s.adds)
step s (fires now clock) = fire_timed s now clock
step s (removes i) = remove_timed s i

unfoldable pub run : Timed → List Happening → Option Timed
run s [] = some s
run s (x ∷ rest) = step s x >>= λ s'. run s' rest

-- How many entries, and how many tasks, are for connection `i`.
abbrev pub entries : ℕ → List (ℕ × ℕ) → ℕ
entries i [] = 0
entries i ((k, j) ∷ rest) = (if j == i then 1 else 0) + entries i rest

abbrev pub tasks : ℕ → List (ℕ × Timer) → ℕ
tasks i [] = 0
tasks i ((j, timer) ∷ rest) = (if j == i then 1 else 0) + tasks i rest

-- No other timer has the expiry of the one that is added.
abbrev pub IsFree : List (ℕ × ℕ) → List (ℕ × Timer) → Type 0
IsFree timers [] = Unit {0}
IsFree timers ((i, timer) ∷ rest) = lookup timer.expired timers ≡ none

-- A number is not used again, and a time does not overflow; a change keeps the timer and makes no
-- connection connected again; no two timers expire at the same time; a connection that is removed is
-- there.
unfoldable pub Allowed : Timed → Happening → Type 0
Allowed s (accepts i now) =
    ((timer : Timer) × (new_timer s.hold now ≡ some (some timer)))
    × (lookup i s.conns ≡ none)
    × (entries i s.timers ≡ 0)
    × (tasks i s.adds ≡ 0)
Allowed s (changes i c) =
    (b : TcpConnection) × (lookup i s.conns ≡ some b)
    × (c.timer ≡ b.timer)
    × (c.state ≡ connected → b.state ≡ connected)
Allowed s performs = IsFree s.timers s.adds
Allowed s (fires now clock) = AllInRange s.conns
Allowed s (removes i) =
    (c : TcpConnection) × (timer : Timer) × (lookup i s.conns ≡ some c)
    × (c.timer ≡ some timer)
    × ((j : ℕ) → lookup timer.expired s.timers ≡ some j → j ≡ i)

unfoldable pub AllAllowed : Timed → List Happening → Type 0
AllAllowed s [] = Unit {0}
AllAllowed s (x ∷ rest) = Allowed s x × ((s' : Timed) → step s x ≡ some s' → AllAllowed s' rest)
