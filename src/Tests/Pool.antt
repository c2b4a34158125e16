-- ===== src/Tests/Pool.antt =====
-- The pool of database connections on short histories.
use carf_lib.Shared.{ℕ, ◌+◌, ◌≡◌, refl, ◌≢◌, Option, some, List, [], ◌∷◌, length, take}
use carf_lib.Shared.Stoi.{pos}
use carf_lib.Http.SqlConnectionPool.{
  ConnectionPool, IsValid, make, init, open_all, take_front, undefined, seems_empty, take_locked,
  release_connection,
}
use carf_lib.Http.SqlConnectionPool.Threads.{
  Action, System, Inv, start, step, run, after_lock, looks, locks, wakes, releases,
}
use carf_lib.Http.SqlConnectionPool.Threads.Steps.{run-init-Inv}

abbrev connect : ℕ → Option ℕ
connect i = some (10 + i)

abbrev two : ConnectionPool ℕ
two = record { conn_list = 10 ∷ 11 ∷ []; max_conn = 2; cur_conn = pos 0; free_conn = 2 }

two_opened : init connect 2 make ≡ some two
unfolding init open_all
two_opened = refl

-- Three threads see a connection; the third to get the lock sleeps, and wakes for the one released.
abbrev schedule : List Action
schedule = looks ∷ looks ∷ looks ∷ locks ∷ locks ∷ locks ∷ releases 1 ∷ Action.signals ∷ wakes ∷ []

abbrev reached : System ℕ
reached = record {
  pool = record { conn_list = []; max_conn = 2; cur_conn = pos 2; free_conn = 0 };
  held = 10 ∷ 11 ∷ [];
  passed = 0;
  sleeping = 0;
  woken = 0;
  signals = 0;
}

abbrev blocked : System ℕ
blocked = record reached { held = 11 ∷ 10 ∷ []; sleeping = 1 }

schedule_runs : run (start two) schedule ≡ some reached
unfolding run step seems_empty take_locked take_front after_lock release_connection
schedule_runs = refl

schedule_blocks : run (start two) (take 6 schedule) ≡ some blocked
unfolding run step seems_empty take_locked take_front after_lock release_connection
schedule_blocks = refl

run-init-Inv_example :
    Inv two.conn_list reached
    × (reached.pool.free_conn + length reached.held ≡ 2)
    × (take_locked reached.pool ≢ undefined)
run-init-Inv_example = run-init-Inv connect 2 two reached schedule two_opened schedule_runs

two-IsValid : IsValid 0 two
two-IsValid = record { counted = refl; in_use = refl; complete = refl }
