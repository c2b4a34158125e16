-- ===== src/Tests/Startup.antt =====
-- The start of the program, and its pool of database connections under more threads than one.
use carf_lib.Shared.{
  ℕ, suc, ◌+◌, ◌<◌, ◌≡◌, refl, sym, ◌∙◌, subst, Option, none, some, List, [], ◌∷◌, ◌++◌, arith,
  some_eq, true, Bytes, codes,
}
use carf_lib.Shared.StdMap.{bytes_key}
use carf_lib.Shared.Stoi.{pos}
use carf_lib.Net.EventLoopThreadPool
use carf_lib.Net.EventLoopThreadPool.Start
use carf_lib.Net.EventLoopThreadPool.Start.{finished, continues, runs, stores}
use carf_lib.Base.Thread
use carf_lib.Base.Thread.{Starting, returned, running, Who, the_parent, the_child}
use carf_lib.Http.HttpServer.Database.{full_rows}
use carf_lib.Http.SqlConnectionPool.{
  ConnectionPool, make, init, open_all, taken, locked, get_connection, take_locked, take_front,
  seems_empty,
}
use carf_lib.Http.SqlConnectionPool.Threads.{
  System, Action, looks, locks, start, step, run, after_lock,
}
use carf_lib.Http.SqlConnectionPool.Threads.Enough.{busy, AllSpare, enough-IsQuick}
use carf_lib.Main.{Surroundings, main}

abbrev connect : ℕ → Option ℕ
connect i = some (10 + i)

abbrev eight : ConnectionPool ℕ
eight = record {
  conn_list = 10 ∷ 11 ∷ 12 ∷ 13 ∷ 14 ∷ 15 ∷ 16 ∷ 17 ∷ [];
  max_conn = 8;
  cur_conn = pos 0;
  free_conn = 8;
}

eight_opened : init connect 8 make ≡ some eight
unfolding init open_all
eight_opened = refl

abbrev table : List (Bytes × Bytes)
table = (codes "ann", codes "ab") ∷ []

abbrev named : Bytes → Bytes
named a = codes "0.0.0.0"

abbrev thread_runs : Starting
thread_runs = record { parent = returned; child = running; cond_num = 1 }

-- The thread counts and signals before the first test.
abbrev at_once : List Who
at_once = the_child ∷ the_child ∷ the_parent ∷ []

-- Thread `k` is started, runs before the first test of `cond_num`, and stores its loop before the test of
-- its place.
abbrev starts : ℕ → List Start.Action
starts k = continues ∷ runs k ∷ runs k ∷ stores 0 ∷ continues ∷ continues ∷ continues ∷ []

abbrev all_start : List Start.Action
all_start = starts 0 ++ (starts 1 ++ (starts 2 ++ (starts 3 ++ (starts 4 ++ continues ∷ []))))

abbrev five_started : Start.System
five_started = record {
  pool = record {
    loop = 0;
    num = 5;
    current_loop = none;
    loops = some 0 ∷ some 1 ∷ some 2 ∷ some 3 ∷ some 4 ∷ [];
    index = 5;
  };
  main = finished;
  started = 5;
  threads = thread_runs ∷ thread_runs ∷ thread_runs ∷ thread_runs ∷ thread_runs ∷ [];
  unstored = [];
  signals = 5;
}

abbrev surroundings : Surroundings ℕ
surroundings = record {
  inet_pton = λ s. none;
  bind = λ a. true;
  listen = true;
  connect = connect;
  store_result = λ c s. some (full_rows table);
  idlefd = none;
  now = 100;
  later = 105;
  log_time = 0;
  log_order = at_once;
  pool_order = all_start;
}

abbrev schedule : List Action
schedule = looks ∷ looks ∷ locks ∷ []

abbrev passed : ℕ → System ℕ
passed n = record (start eight) { passed = n }

abbrev one_holds : System ℕ
one_holds = record (start eight) {
  pool = record eight {
    conn_list = 11 ∷ 12 ∷ 13 ∷ 14 ∷ 15 ∷ 16 ∷ 17 ∷ [];
    cur_conn = pos 1;
    free_conn = 7;
  };
  held = 10 ∷ [];
  passed = 1;
}

look_passes : (n : ℕ) → step (passed n) looks ≡ some (passed (suc n))
unfolding step seems_empty
look_passes n = refl

schedule_runs : run (start eight) schedule ≡ some one_holds
unfolding run step seems_empty take_locked take_front after_lock
schedule_runs = refl

schedule_spare : AllSpare 5 (start eight) schedule
unfolding AllSpare
schedule_spare = (
  omega arith,
  λ s e.
      subst (λ t. AllSpare 5 t (looks ∷ locks ∷ [])) (some_eq (sym (look_passes 0) ∙ e))
        (
          omega arith,
          λ t f.
              subst (λ u. AllSpare 5 u (locks ∷ [])) (some_eq (sym (look_passes 1) ∙ f))
                (tt, λ _ _. tt),
        ),
)

enough-IsQuick_example :
    (one_holds.sleeping ≡ 0)
    × (busy one_holds < 5
        → (c : ℕ) × (q : ConnectionPool ℕ) × (get_connection one_holds.pool ≡ locked (taken c q)))
    × (0 < one_holds.passed
        → (c : ℕ) × (q : ConnectionPool ℕ) × (take_locked one_holds.pool ≡ taken c q))
enough-IsQuick_example =
    enough-IsQuick connect 5 8 eight one_holds schedule eight_opened (omega arith) schedule_spare
      schedule_runs
