-- ===== src/Net/TcpServer/Numbers.antt =====
-- What is kept true of the server's connections, their numbers and the removals that are queued.
use carf_lib.Shared.{
  ℕ, suc, ◌+◌, ◌*◌, ◌≤◌, ◌<◌, ◌≡◌, refl, sym, ◌≢◌, inl, inr, true, Option, none, some, List, [],
  ◌∷◌, ◌++◌, arith, leb, ◌==◌, Bool-cases, length, get_elem?,
}
use carf_lib.Shared.StdMap.{nat_key, lookup, assign, erase, lookup-assign, lookup-erase}
use carf_lib.Net.TcpConnection.{TcpConnection, Timer, long_max}
use carf_lib.Net.TimerQueue.{int_max}
use carf_lib.Net.EventLoopThreadPool.{EventLoopThreadPool, get_next_loop, next_index}
use carf_lib.Net.TcpServer.{
  Task, add_timer, remove_connection_in_loop, TcpServer, new_timer, timer_tasks, Action, accepts,
  fails, closes, performs, step,
}
use native.Mathlib.Nat.{mod-lt}

-- The pool has started: every slot holds a loop.
pub record IsReady {L : Type 0} (p : EventLoopThreadPool L) : Type 0 where
  pub full : (i : ℕ) → i < p.num → (l : L) × (get_elem? p.loops i ≡ some (some l))

-- No task removes connection `i`.
unfoldable pub IsKept : ℕ → List Task → Type 0
IsKept i [] = Unit {0}
IsKept i (add_timer k t ∷ rest) = IsKept i rest
IsKept i (remove_connection_in_loop k ∷ rest) = (k ≢ i) × IsKept i rest

-- The connections that tasks remove are there, each in one task.
unfoldable pub ArePresent : List (ℕ × ℕ) → List Task → Type 0
ArePresent conns [] = Unit {0}
ArePresent conns (add_timer k t ∷ rest) = ArePresent conns rest
ArePresent conns (remove_connection_in_loop k ∷ rest) =
    (lookup k conns ≢ none) × IsKept k rest × ArePresent conns rest

abbrev pub HasTimer : Option ℕ → Option Timer → Type 0
HasTimer none timer = Unit {0}
HasTimer (some h) timer = (t : Timer) × (timer ≡ some t)

-- An entry of the map is for a connection made before, under its own number, with its timer.
pub record IsEntry (hold : Option ℕ) (objects : List TcpConnection) (i j : ℕ) : Type 0 where
  pub own : j ≡ i
  pub object : TcpConnection
  pub stored : get_elem? objects i ≡ some object
  pub timed : HasTimer hold object.timer

pub record Inv {L : Type 0} (s : TcpServer L) : Type 0 where
  pub numbered : length s.objects ≡ s.next_conn_id
  pub entries : (i j : ℕ) → lookup i s.conns ≡ some j → IsEntry s.hold s.objects i j
  pub present : ArePresent s.conns s.tasks
  pub is_ready : IsReady s.pool

abbrev pub Fits : Option ℕ → ℕ → Type 0
Fits none now = Unit {0}
Fits (some h) now = now + h * 1000 * 1000 ≤ long_max

-- A connection is made before its number or its expiry overflows, and closed once.
unfoldable pub Allowed : {L : Type 0} → TcpServer L → Action → Type 0
Allowed s (accepts now) = (s.next_conn_id < int_max) × Fits s.hold now
Allowed s (fails accepted opened) = Unit {0}
Allowed s (closes i) = (lookup i s.conns ≢ none) × IsKept i s.tasks
Allowed s performs = Unit {0}

unfoldable pub AllAllowed : {L : Type 0} → TcpServer L → List Action → Type 0
AllAllowed s [] = Unit {0}
AllAllowed s (a ∷ rest) =
    Allowed s a × ((s' : TcpServer _) → step s a ≡ some s' → AllAllowed s' rest)

next_index_lt : (i : Option ℕ) (num : ℕ) → 0 < num → next_index i num < num
unfolding next_index
next_index_lt none num h = mod-lt 0 h
next_index_lt (some i) num h = mod-lt (suc i) h

pub get_next_loop-IsReady :
    {L : Type 0} (p : EventLoopThreadPool L)
    → IsReady p
    → (l : L) × (q : EventLoopThreadPool L) × (get_next_loop p ≡ some (some l, q)) × IsReady q
unfolding get_next_loop
get_next_loop-IsReady p r = elim (Bool-cases (p.num == 0)) [
  | inl e ↦ (p.loop, p, rw e, r)
  | inr e ↦
      let i = next_index p.current_loop p.num in
      let (l, found) = r.full i (next_index_lt p.current_loop p.num (ground arith)) in
      (l, record p { current_loop = some i }, rw (e, found), record { full = r.full })
]

pub new_timer-HasTimer :
    (hold : Option ℕ) (now : ℕ)
    → Fits hold now
    → (timer : Option Timer) × (new_timer hold now ≡ some timer) × HasTimer hold timer
unfolding new_timer
new_timer-HasTimer none now h = (none, refl, tt)
new_timer-HasTimer (some k) now h =
    let timer : Timer = record { interval = k * 1000 * 1000; expired = now + k * 1000 * 1000 } in
    let fits : leb (now + k * 1000 * 1000) long_max ≡ true = ground arith in
    (some timer, rw fits, (timer, refl))

IsKept-timer :
    (i k : ℕ) (timer : Option Timer) (tasks : List Task)
    → IsKept i tasks
    → IsKept i (tasks ++ timer_tasks k timer)
unfolding IsKept
IsKept-timer i k none [] h = tt
IsKept-timer i k (some t) [] h = tt
IsKept-timer i k timer (add_timer j t ∷ rest) h = IsKept-timer i k timer rest h
IsKept-timer i k timer (remove_connection_in_loop j ∷ rest) h =
    (h.0, IsKept-timer i k timer rest h.1)

IsKept-remove :
    (i k : ℕ) (tasks : List Task)
    → k ≢ i
    → IsKept i tasks
    → IsKept i (tasks ++ (remove_connection_in_loop k ∷ []))
unfolding IsKept
IsKept-remove i k [] n h = (n, tt)
IsKept-remove i k (add_timer j t ∷ rest) n h = IsKept-remove i k rest n h
IsKept-remove i k (remove_connection_in_loop j ∷ rest) n h = (h.0, IsKept-remove i k rest n h.1)

pub ArePresent-accept :
    (k j : ℕ) (timer : Option Timer) (conns : List (ℕ × ℕ)) (tasks : List Task)
    → ArePresent conns tasks
    → ArePresent (assign k j conns) (tasks ++ timer_tasks j timer)
unfolding ArePresent
ArePresent-accept k j none conns [] h = tt
ArePresent-accept k j (some t) conns [] h = tt
ArePresent-accept k j timer conns (add_timer i t ∷ rest) h =
    ArePresent-accept k j timer conns rest h
ArePresent-accept k j timer conns (remove_connection_in_loop i ∷ rest) h = (
  λ e. h.0 (ground (arith, lookup-assign k i j conns)),
  IsKept-timer i j timer rest h.1,
  ArePresent-accept k j timer conns rest h.2,
)

pub ArePresent-close :
    (i : ℕ) (conns : List (ℕ × ℕ)) (tasks : List Task)
    → lookup i conns ≢ none
    → IsKept i tasks
    → ArePresent conns tasks
    → ArePresent conns (tasks ++ (remove_connection_in_loop i ∷ []))
unfolding ArePresent IsKept
ArePresent-close i conns [] n k h = (n, tt, tt)
ArePresent-close i conns (add_timer j t ∷ rest) n k h = ArePresent-close i conns rest n k h
ArePresent-close i conns (remove_connection_in_loop j ∷ rest) n k h =
    (h.0, IsKept-remove j i rest (λ e. k.0 (sym e)) h.1, ArePresent-close i conns rest n k.1 h.2)

pub ArePresent-erase :
    (i : ℕ) (conns : List (ℕ × ℕ)) (tasks : List Task)
    → IsKept i tasks
    → ArePresent conns tasks
    → ArePresent (erase i conns) tasks
unfolding ArePresent IsKept
ArePresent-erase i conns [] k h = tt
ArePresent-erase i conns (add_timer j t ∷ rest) k h = ArePresent-erase i conns rest k h
ArePresent-erase i conns (remove_connection_in_loop j ∷ rest) k h = (
  λ e. h.0 (ground (arith, lookup-erase i j conns, k.0)),
  h.1,
  ArePresent-erase i conns rest k.1 h.2,
)
