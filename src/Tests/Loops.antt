-- ===== src/Tests/Loops.antt =====
-- Event loops, their pool and the server on short histories.
use carf_lib.Shared.{
  ℕ, ◌≤◌, length, zero, suc, ◌<◌, ◌≡◌, refl, sym, ◌∙◌, subst, ◌≢◌, ◌⊎◌, true, false, none, some,
  List, [], ◌∷◌, ◌++◌, map, arith, ◌==◌, some_eq, get_elem?, replicate,
}
use carf_lib.Net.TcpServer.Started.{started-server-Inv}
use carf_lib.Shared.StdMap.{nat_key, lookup, assign}
use carf_lib.Net.EventLoop
use carf_lib.Net.EventLoop.{Active, Phase, Inv, start, queues, wakes, proceeds, polls, run, step}
use carf_lib.Net.EventLoop.Rounds.{loop-start-Inv}
use carf_lib.Net.EventLoopThreadPool
use carf_lib.Net.EventLoopThreadPool.{EventLoopThreadPool}
use carf_lib.Net.EventLoopThreadPool.Start
use carf_lib.Net.EventLoopThreadPool.Start.{
  System, begin, creating, finished, sleeping, continues, runs, stores,
}
use carf_lib.Net.EventLoopThreadPool.Start.Progress.{IsLost, CanStep, start_lem}
use carf_lib.Base.Thread.{Starting, asleep, returned, running, parent_step, child_step}
use carf_lib.Net.EventLoopThreadPool.Turns.{turns}
use carf_lib.Net.TcpConnection.{Timer, connection}
use carf_lib.Net.TimerQueue.{add_timer_in_loop}
use carf_lib.Net.TcpServer
use carf_lib.Net.TcpServer.{
  TcpServer, server, accepts, closes, performs, add_timer, remove_connection_in_loop, perform,
  removed,
}
use carf_lib.Net.TcpServer.Numbers.{IsReady, IsKept, AllAllowed, Allowed}
use carf_lib.Net.TcpServer.Numbers
use carf_lib.Net.TcpServer.Steps.{run-server-Inv}
use carf_lib.Net.TcpServer.{destroy}
use carf_lib.Net.TcpServer.Removal.{removes_all}
use carf_lib.Net.TcpServer.Lost.{same_expiry_lost}
use carf_lib.Net.TcpServer.Turns.{connections_in_turn}

-- A task is queued while the loop waits.
abbrev one_queued : EventLoop.EventLoop ℕ
one_queued = record start { tasks = 7 ∷ []; wakeup_count = 1; queued = 7 ∷ [] }

loop-start-Inv_example : Inv one_queued
unfolding run step EventLoop.queue_in_loop EventLoop.wakeup
loop-start-Inv_example = loop-start-Inv one_queued (queues 7 ∷ wakes ∷ []) refl

-- A thread that has signalled, and whose `Thread::start` has returned.
abbrev thread_runs : Starting
thread_runs = record { parent = returned; child = running; cond_num = 1 }

-- One thread, whose loop is stored while `start` sleeps.
abbrev one_started : System
one_started = record {
  pool = record { loop = 0; num = 1; current_loop = none; loops = some 0 ∷ []; index = 1 };
  main = sleeping 0;
  started = 1;
  threads = thread_runs ∷ [];
  unstored = [];
  signals = 1;
}

-- The start of thread `k` with the thread first, and the test of its place, which finds a null pointer.
abbrev starts : ℕ → List Start.Action
starts k = continues ∷ runs k ∷ runs k ∷ continues ∷ continues ∷ []

start_lem_example :
    (length (starts 0 ++ (continues ∷ stores 0 ∷ [])) ≤ 14)
    × (one_started.main ≡ finished
        → (i : ℕ) → i < 1
        → get_elem? one_started.pool.loops i ≡ some (some i))
    × ((one_started.main ≡ finished) ⊎ (((i : ℕ) × IsLost one_started i) ⊎ CanStep one_started))
    × ((i : ℕ) (rest : List Start.Action) (s' : System)
        → IsLost one_started i
        → Start.run one_started rest ≡ some s'
        → IsLost s' i)
unfolding Start.run Start.step Start.continue_main Start.in_start Start.store
    EventLoopThreadPool.make EventLoopThreadPool.store_loop parent_step child_step
start_lem_example = start_lem 1 one_started (starts 0 ++ (continues ∷ stores 0 ∷ [])) refl

-- The order of steps in which `start` sleeps for ever.
abbrev sleeps_for_ever : System
sleeps_for_ever = record (begin 1) {
  main = creating 0;
  started = 1;
  threads = record { parent = asleep; child = running; cond_num = 1 } ∷ [];
  unstored = 0 ∷ [];
}

sleeps_for_ever-run :
    Start.run (begin 1) (continues ∷ continues ∷ runs 0 ∷ runs 0 ∷ continues ∷ [])
    ≡ some sleeps_for_ever
unfolding Start.run Start.step Start.continue_main Start.in_start parent_step child_step
    EventLoopThreadPool.make
sleeps_for_ever-run = refl

abbrev pool : EventLoopThreadPool ℕ
pool = record { loop = 0; num = 2; current_loop = none; loops = some 0 ∷ some 1 ∷ []; index = 2 }

pool_full : (i : ℕ) → i < 2 → (l : ℕ) × (get_elem? pool.loops i ≡ some (some l))
pool_full zero h = (0, refl)
pool_full (suc zero) h = (1, refl)
pool_full (suc (suc i)) h = absurd (omega arith)

pool-IsReady : IsReady pool
pool-IsReady = record { full = pool_full }

abbrev history : List TcpServer.Action
history = accepts 5 ∷ closes 0 ∷ performs ∷ []

abbrev first : TcpServer ℕ
first = server true (some 3) pool (some 4)

abbrev timer : Timer
timer = record { interval = 3000000; expired = 3000005 }

-- One connection.
abbrev accepted : TcpServer ℕ
accepted = record first {
  next_conn_id = 1;
  objects = connection true (some timer) ∷ [];
  conns = (0, 0) ∷ [];
  pool = record pool { current_loop = some 0 };
  tasks = add_timer 0 timer ∷ [];
  established = (0, 0) ∷ [];
}

abbrev closing : TcpServer ℕ
closing = record accepted { tasks = add_timer 0 timer ∷ remove_connection_in_loop 0 ∷ [] }

accepted-step : TcpServer.step first (accepts 5) ≡ some accepted
unfolding TcpServer.step TcpServer.new_connection TcpServer.new_timer
    EventLoopThreadPool.get_next_loop EventLoopThreadPool.next_index assign
accepted-step = refl

closing-run : TcpServer.run first (accepts 5 ∷ closes 0 ∷ []) ≡ some closing
unfolding TcpServer.run TcpServer.step TcpServer.remove_connection
closing-run = rw accepted-step refl

allowed_later : (s : TcpServer ℕ) → some accepted ≡ some s → AllAllowed s (closes 0 ∷ performs ∷ [])
unfolding AllAllowed Allowed IsKept lookup
allowed_later s e =
    subst (λ s. AllAllowed s (closes 0 ∷ performs ∷ [])) (some_eq e)
      (((λ n. cc), tt), λ t f. (tt, λ u g. tt))

closed-AllAllowed : AllAllowed first (accepts 5 ∷ closes 0 ∷ [])
unfolding AllAllowed Allowed
closed-AllAllowed = (
  (omega arith, omega arith),
  λ s e. let later = allowed_later s (sym accepted-step ∙ e) in (later.0, λ t f. tt),
)

history-AllAllowed : AllAllowed first history
unfolding AllAllowed Allowed
history-AllAllowed = ((omega arith, omega arith), λ s e. allowed_later s (sym accepted-step ∙ e))

-- Both threads store their loops while `start` sleeps or tests.
abbrev both_started : System
both_started = record {
  pool = pool;
  main = finished;
  started = 2;
  threads = thread_runs ∷ thread_runs ∷ [];
  unstored = [];
  signals = 2;
}

abbrev both : List Start.Action
both = starts 0 ++ (stores 0 ∷ continues ∷ starts 1 ++ (stores 0 ∷ continues ∷ continues ∷ []))

started-server-Inv_example :
    (s : TcpServer ℕ) × (TcpServer.run first history ≡ some s) × Numbers.Inv s
unfolding Start.run Start.step Start.continue_main Start.in_start Start.store
    EventLoopThreadPool.make EventLoopThreadPool.store_loop parent_step child_step
started-server-Inv_example =
    started-server-Inv 2 both_started both true (some 3) (some 4) history refl refl
      history-AllAllowed

connections_in_turn_example :
    (pool.num ≡ 0 → map (λ (e : ℕ × ℕ). some e.0) closing.established ≡ replicate 1 (some 0))
    × (0 < pool.num
        → map some (map (λ (e : ℕ × ℕ). some e.0) closing.established) ≡ turns pool.loops 2 0 1)
connections_in_turn_example =
    connections_in_turn true (some 3) pool (some 4) (accepts 5 ∷ closes 0 ∷ []) closing refl refl
      closing-run

closing-Inv : Numbers.Inv closing
closing-Inv =
    let (s, done, v) =
      run-server-Inv true (some 3) pool (some 4) (accepts 5 ∷ closes 0 ∷ []) pool-IsReady
        closed-AllAllowed in
    subst Numbers.Inv (some_eq (sym done ∙ closing-run)) v

closing_all : (k : ℕ) → lookup k closing.conns ≢ none → ¬ (IsKept k closing.tasks)
unfolding lookup IsKept
closing_all zero there kept = kept.0 refl
closing_all (suc k) there kept = let other : (0 == suc k) ≡ false = ground arith in there (rw other)

removes_all_example :
    (s : TcpServer ℕ) × (TcpServer.run closing (performs ∷ performs ∷ []) ≡ some s)
    × (s.conns ≡ [])
    × (destroy s ≡ some s.pool)
removes_all_example = removes_all closing closing-Inv closing_all

abbrev pair : TcpServer ℕ
pair = record accepted {
  next_conn_id = 2;
  objects = connection true (some timer) ∷ connection true (some timer) ∷ [];
  conns = (0, 0) ∷ (1, 1) ∷ [];
}

same_expiry_lost_example :
    (lookup 3000005 (add_timer_in_loop 0 timer []) ≡ some 0)
    × (perform (record pair { timers = add_timer_in_loop 0 timer [] }) (add_timer 1 timer)
        ≡ some (record pair { timers = add_timer_in_loop 0 timer [] }))
    × ((left : List (ℕ × ℕ)) × (perform
            (record pair { timers = add_timer_in_loop 0 timer [] })
            (remove_connection_in_loop 1)
          ≡ some (
              removed
                (record pair { timers = add_timer_in_loop 0 timer [] })
                1
                (connection true (some timer))
                left))
        × (lookup 3000005 left ≡ none))
unfolding lookup
same_expiry_lost_example =
    same_expiry_lost pair 0 1 3 timer timer (connection true (some timer)) tt refl refl refl refl
      refl (omega arith)
