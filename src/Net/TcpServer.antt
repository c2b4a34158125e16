-- ===== src/Net/TcpServer.antt =====
-- net/TcpServer.h and .cc: the connections of the server by their numbers, the pool of loops, the timer
-- queue and the main loop's tasks. A connection object is named by its place in `objects`, so that
-- a task keeps the object it was made for. A loop is a value of any type.
-- `connectionCallback` is the application's and is left out, and so is what the I/O threads do to
-- a connection between its steps here.
pub mod Numbers
pub mod Steps
pub mod Started
pub mod Removal
pub mod Lost
pub mod Turns
pub mod Address
pub mod Timed
use carf_lib.Shared.{
  ℕ, zero, suc, ◌+◌, ◌-◌, ◌*◌, ◌/◌, ◌%◌, ◌^◌, ◌≤◌, ◌<◌, min, ◌≡◌, refl, sym, ap, ap₂, ◌∙◌, subst,
  ◌≢◌, ◌↔◌, ◌⊎◌, inl, inr, Bool, true, false, not, ◌&&◌, ◌||◌, Option, none, some, List, [], ◌∷◌,
  ◌++◌, map, append-nil, append_assoc, arith, ltb, leb, ◌==◌, if◌then◌else◌, ==_iff, Bool-cases,
  Option-cases, ◌>>=◌, >>=-eq-some, some_eq, one_of, one_of_lem, Bytes, codes, bytes_eq,
  bytes_eq_iff, find_byte, is_space, length, get_elem?, take, drop, replicate, length-append,
  take-append-drop, length-take, length-drop, length-replicate, take-append, drop-append,
  take-append_le, drop-append_le, take_all, drop_all, drop-drop, take-drop, take-take,
  take-append_split, drop-append_split, take-replicate, drop-replicate, set, length-set,
  get_elem?-set_self, get_elem?-set_ne, get_elem?-replicate, length-Permᴰ,
}
use carf_lib.Shared.StdMap.{nat_key, lookup, assign, erase}
use carf_lib.Net.TcpConnection.{TcpConnection, Timer, connection, add_time, stop_timer}
use carf_lib.Net.TimerQueue.{add_timer_in_loop, delete_timer, int_max}
use carf_lib.Net.EventLoopThreadPool.{EventLoopThreadPool, make, get_next_loop}

-- The functions that the server queues in the loop of the main thread.
pub data Task : Type 0 where
  add_timer : ℕ → Timer → Task
  remove_connection_in_loop : ℕ → Task

-- `conns` is `conn_`, `hold` is `conn_hold_seconds`, `none` where that is negative. `established` are
-- the connections whose `connectEstablished` was queued, each with its loop. `idlefd` is `none`
-- for -1.
pub record TcpServer (L : Type 0) : Type 0 where
  pub et : Bool
  pub hold : Option ℕ
  pub next_conn_id : ℕ
  pub objects : List TcpConnection
  pub conns : List (ℕ × ℕ)
  pub pool : EventLoopThreadPool L
  pub timers : List (ℕ × ℕ)
  pub tasks : List Task
  pub established : List (L × ℕ)
  pub idlefd : Option ℕ

abbrev pub server : {L : Type 0} → Bool → Option ℕ → EventLoopThreadPool L → Option ℕ → TcpServer L
server et hold pool idlefd = record {
  et = et;
  hold = hold;
  next_conn_id = 0;
  objects = [];
  conns = [];
  pool = pool;
  timers = [];
  tasks = [];
  established = [];
  idlefd = idlefd;
}

-- The timer of a new connection: none where `conn_hold_seconds` is negative.
unfoldable pub new_timer : Option ℕ → ℕ → Option (Option Timer)
new_timer none now = some none
new_timer (some h) now = do
  t ← add_time now (h * 1000 * 1000)
  some (some (record { interval = h * 1000 * 1000; expired = t }))

-- `timer_queue->addTimer(timer)`.
abbrev pub timer_tasks : ℕ → Option Timer → List Task
timer_tasks i none = []
timer_tasks i (some timer) = add_timer i timer ∷ []

-- The connection is made and put into the map, and its tasks are queued.
abbrev pub register :
    {L : Type 0} → TcpServer L → EventLoopThreadPool L → L → Option Timer → TcpServer L
register s pool loop timer = record s {
  next_conn_id = suc s.next_conn_id;
  objects = s.objects ++ (connection s.et timer ∷ []);
  conns = assign s.next_conn_id (length s.objects) s.conns;
  pool = pool;
  tasks = s.tasks ++ timer_tasks (length s.objects) timer;
  established = s.established ++ ((loop, length s.objects) ∷ []);
}

-- `newConnection()` where `accept` gave a descriptor, at the time `now`: `none` where the loop is a null
-- pointer, or an addition overflows.
unfoldable pub new_connection : {L : Type 0} → TcpServer L → ℕ → Option (TcpServer L)
new_connection s now = do
  (next, pool) ← get_next_loop s.pool
  loop ← next
  timer ← new_timer s.hold now
  if ltb s.next_conn_id int_max then some (register s pool loop timer) else none

-- `newConnection()` where `accept` failed: the test assigns EMFILE to `errno`, so it holds. `accepted`
-- and `opened` are what the second `accept` and `open` return; the closed descriptors come too.
unfoldable pub accept_failed :
    {L : Type 0} → TcpServer L → Option ℕ → Option ℕ → TcpServer L × List (Option ℕ)
accept_failed s accepted opened = (record s { idlefd = opened }, s.idlefd ∷ accepted ∷ [])

unfoldable pub remove_connection : {L : Type 0} → TcpServer L → ℕ → TcpServer L
remove_connection s i = record s { tasks = s.tasks ++ (remove_connection_in_loop i ∷ []) }

-- `if(conn_hold_seconds>0)`: `none` where the connection's timer is a null pointer.
unfoldable pub cancel : Option ℕ → Option Timer → List (ℕ × ℕ) → Option (List (ℕ × ℕ))
cancel none timer timers = some timers
cancel (some h) timer timers =
    if ltb 0 h then (timer >>= λ t. some (delete_timer t.expired timers)) else some timers

-- What is left when connection `i` is removed.
abbrev pub removed : {L : Type 0} → TcpServer L → ℕ → TcpConnection → List (ℕ × ℕ) → TcpServer L
removed s i c timers = record s {
  timers = timers;
  objects = set s.objects i (stop_timer c);
  conns = erase i s.conns;
}

-- `removeConnectionInLoop(conn)`. A connection's number is its place in `objects`.
unfoldable pub remove_in_loop : {L : Type 0} → TcpServer L → ℕ → Option (TcpServer L)
remove_in_loop s i = do
  c ← get_elem? s.objects i
  timers ← cancel s.hold c.timer s.timers
  some (removed s i c timers)

-- `set_conn_hold_seconds(seconds)`, where `seconds` is not negative.
unfoldable pub set_conn_hold_seconds : {L : Type 0} → TcpServer L → ℕ → TcpServer L
set_conn_hold_seconds s seconds = record s { hold = some seconds }

-- The destructor: the assertion, and the pool that is deleted.
unfoldable pub destroy : {L : Type 0} → TcpServer L → Option (EventLoopThreadPool L)
destroy s = if length s.conns == 0 then some s.pool else none

abbrev pub perform : {L : Type 0} → TcpServer L → Task → Option (TcpServer L)
perform s (add_timer i timer) = some (record s { timers = add_timer_in_loop i timer s.timers })
perform s (remove_connection_in_loop i) = remove_in_loop s i

-- The main loop's next task.
unfoldable pub perform_next : {L : Type 0} → TcpServer L → List Task → Option (TcpServer L)
perform_next s [] = some s
perform_next s (task ∷ rest) = perform (record s { tasks = rest }) task

-- What happens to the server: its handlers and tasks run in the main thread, and other threads close
-- connections between them.
pub data Action : Type 0 where
  accepts : ℕ → Action
  fails : Option ℕ → Option ℕ → Action
  closes : ℕ → Action
  performs : Action

unfoldable pub step : {L : Type 0} → TcpServer L → Action → Option (TcpServer L)
step s (accepts now) = new_connection s now
step s (fails accepted opened) = some (accept_failed s accepted opened).0
step s (closes i) = some (remove_connection s i)
step s performs = perform_next s s.tasks

unfoldable pub run : {L : Type 0} → TcpServer L → List Action → Option (TcpServer L)
run s [] = some s
run s (a ∷ rest) = step s a >>= λ s'. run s' rest
