-- ===== src/Net/TcpServer/Started.antt =====
-- The server over the pool that `start()` has started.
use carf_lib.Shared.{ℕ, ◌≡◌, Bool, Option, some, List, arith}
use carf_lib.Net.EventLoopThreadPool.Start
use carf_lib.Net.EventLoopThreadPool.Start.{System, begin, finished}
use carf_lib.Net.EventLoopThreadPool.Start.Steps.{finished-full, run-begin_sizes}
use carf_lib.Net.TcpServer.{TcpServer, server, Action, run}
use carf_lib.Net.TcpServer.Numbers.{IsReady, Inv, AllAllowed}
use carf_lib.Net.TcpServer.Steps.{run-server-Inv}

started-IsReady :
    (num : ℕ) (s : System) (schedule : List Start.Action)
    → Start.run (begin num) schedule ≡ some s
    → s.main ≡ finished
    → IsReady s.pool
started-IsReady num s schedule e over =
    let (same, _) = run-begin_sizes num s schedule e in
    record { full = λ i h. (i, finished-full num s schedule e over i (omega arith)) }

-- `TcpServer::start()` and then the server: the pool starts its threads, in whatever order they run, and
-- `start()` of the pool returns. Then, in any order of handlers and tasks in which the number and the
-- expiries do not overflow and a connection is closed at most once, after it was made: nothing
-- fails, so no loop is a null pointer and no timer that is cancelled; connection objects are numbered
-- in turn, so that no two have the same number; each entry of the map is the object with its number,
-- with a timer where the server has a hold time; and the removals that are queued are of different
-- connections that are in the map.
pub started-server-Inv :
    (num : ℕ) (started : System) (schedule : List Start.Action) (et : Bool) (hold : Option ℕ)
    (idlefd : Option ℕ) (acts : List Action)
    → Start.run (begin num) schedule ≡ some started
    → started.main ≡ finished
    → AllAllowed (server et hold started.pool idlefd) acts
    → (s : TcpServer ℕ) × (run (server et hold started.pool idlefd) acts ≡ some s) × Inv s
started-server-Inv num started schedule et hold idlefd acts e over allowed =
    run-server-Inv et hold started.pool idlefd acts (started-IsReady num started schedule e over)
      allowed
