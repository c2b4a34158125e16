-- ===== src/Main.antt =====
-- main.cc: the server as the program sets it up and starts it, before the main loop runs. What the system
-- and the database answer, the clock, and the orders in which the threads run are in `Surroundings`.
-- Where log lines go (`setOuputFunc`) is not part of it.
use carf_lib.Shared.{ℕ, ◌*◌, Bool, true, false, Option, none, some, List, [], ◌>>=◌, Bytes}
use carf_lib.Shared.StdMap.{bytes_key}
use carf_lib.Net.TimerQueue.{next_check}
use carf_lib.Net.EventLoopThreadPool.Start
use carf_lib.Net.EventLoopThreadPool.Start.{begin, finished}
use carf_lib.Base.Thread
use carf_lib.Base.Thread.{created, Parent, returned, Who}
use carf_lib.Base.LogFile.{LogFile, open_log}
use carf_lib.Base.Logger.{LogLevel}
use carf_lib.Net.TcpServer.{TcpServer, server}
use carf_lib.Net.TcpServer.Address.{bound_address, address}
use carf_lib.Http.HttpServer.{Users}
use carf_lib.Http.HttpServer.Database.{Rows, sql_pool_init}
use carf_lib.Http.SqlConnectionPool.{ConnectionPool, make}

-- `HttpServer server_(&loop,"",8000,5,1,10,3)`: address, port, loops of the pool, mode, seconds that a
-- connection may be idle, and seconds between two checks.
abbrev pub ip : Bytes
ip = []

abbrev pub port : ℕ
port = 8000

abbrev pub pool_size : ℕ
pool_size = 5

abbrev pub edge_triggered : Bool
edge_triggered = false

abbrev pub timer_hold_seconds : ℕ
timer_hold_seconds = 10

abbrev pub timer_check_per_seconds : ℕ
timer_check_per_seconds = 3

-- `LogFile("",true,200*1024*1024)`.
abbrev pub roll_size : ℕ
roll_size = 200 * 1024 * 1024

-- `checkEveryN=1024`.
abbrev pub check_every_n : ℕ
check_every_n = 1024

-- The connections to the database in `sql_pool_init`.
abbrev pub max_conn : ℕ
max_conn = 8

-- What `main` finds: `inet_pton`; whether `bind` and `listen` give 0; the database; the descriptor of
-- /dev/null; the time as the timer queue reads it, twice, and as the log file does, in seconds; and in
-- what order the log file's thread, and the threads of the pool, take their steps with `main`.
pub record Surroundings (C : Type 0) : Type 0 where
  pub inet_pton : Bytes → Option Bytes
  pub bind : Bytes → Bool
  pub listen : Bool
  pub connect : ℕ → Option C
  pub store_result : C → Bytes → Option Rows
  pub idlefd : Option ℕ
  pub now : ℕ
  pub later : ℕ
  pub log_time : ℕ
  pub log_order : List Who
  pub pool_order : List Start.Action

-- What is there when `main` starts its loop.
pub record Program (C : Type 0) : Type 0 where
  pub first_check : ℕ × ℕ
  pub address : Bytes
  pub tcp_server : TcpServer ℕ
  pub log_level : LogLevel
  pub log : LogFile
  pub sql_pool : ConnectionPool C
  pub users : Users

-- `assert`, and a call that has returned or not.
unfoldable pub asserted : {A : Type 0} → Bool → A → Option A
asserted true a = some a
asserted false a = none

abbrev pub has_returned : Parent → Bool
has_returned returned = true
has_returned _ = false

abbrev pub has_finished : Start.Main → Bool
has_finished finished = true
has_finished _ = false

-- `new LogFile`, which starts the thread of the log file.
unfoldable pub start_log : {C : Type 0} → Surroundings C → Option LogFile
unfolding asserted
start_log at = do
  h ← Thread.run created at.log_order
  asserted (has_returned h.parent) (open_log roll_size check_every_n at.log_time)

-- `server_.start()`: the threads of the pool, then `listen`.
unfoldable pub start_server : {C : Type 0} → Surroundings C → Option (TcpServer ℕ)
unfolding asserted
start_server at = do
  s ← Start.run (begin pool_size) at.pool_order
  pool ← asserted (has_finished s.main) s.pool
  asserted at.listen (server edge_triggered (some timer_hold_seconds) pool at.idlefd)

-- `none` where an assertion fails, or `main` still waits for a thread that it starts.
unfoldable pub main : {C : Type 0} → Surroundings C → Option (Program C)
unfolding asserted start_log start_server
main at = do
  first_check ← next_check timer_check_per_seconds at.now at.later
  addr ← bound_address at.inet_pton ip port
  bound ← asserted (at.bind addr) addr
  log ← start_log at
  (sql_pool, users) ← sql_pool_init at.connect at.store_result max_conn make []
  tcp_server ← start_server at
  some (record {
    first_check = first_check;
    address = bound;
    tcp_server = tcp_server;
    log_level = LogLevel.error;
    log = log;
    sql_pool = sql_pool;
    users = users;
  })
