-- ===== src/Net/EventLoop.antt =====
-- net/EventLoop.h and .cc: one loop, and all the threads that queue tasks in it.
-- The loop takes the steps of `loop()`; between any two of them other threads run. A task is a value of
-- any type. The event descriptor counts: a write adds one, a read makes it zero, and it is readable
-- while it is not zero. `epollWait` is that of net/Epoll.cc, with its vector of events.
pub mod Rounds
use carf_lib.Net.Epoll.Wait.{first_size}
use carf_lib.Shared.{
  one_of, ℕ, zero, suc, ◌+◌, ◌-◌, ◌*◌, ◌/◌, ◌%◌, ◌^◌, ◌≤◌, ◌<◌, min, ◌≡◌, refl, sym, ap, ap₂, ◌∙◌,
  subst, ◌≢◌, ◌↔◌, ◌⊎◌, inl, inr, Bool, true, false, not, ◌&&◌, ◌||◌, Option, none, some, List, [],
  ◌∷◌, ◌++◌, map, append-nil, append_assoc, arith, ltb, leb, ◌==◌, if◌then◌else◌, ==_iff,
  Bool-cases, Option-cases, ◌>>=◌, >>=-eq-some, some_eq, Bytes, codes, bytes_eq, bytes_eq_iff,
  find_byte, is_space, length, get_elem?, take, drop, replicate, length-append, take-append-drop,
  length-take, length-drop, length-replicate, take-append, drop-append, take-append_le,
  drop-append_le, take_all, drop_all, drop-drop, take-drop, take-take, take-append_split,
  drop-append_split, take-replicate, drop-replicate,
}

-- An active channel: that of the event descriptor, or another by its number.
pub data Active : Type 0 where
  wakeup_channel : Active
  channel : ℕ → Active

-- Where the loop stands: in `epollWait`, with active channels still to handle, with tasks of `t_task`
-- still to run, or behind the loop.
pub data Phase (T : Type 0) : Type 0 where
  waiting stopped : Phase T
  handling : List Active → Phase T
  running : List T → Phase T

-- `unwritten` threads have queued a task and not yet called `wakeup()`, and `events_size` is the size of
-- `revents`. `queued`, `performed` and `handled` are the history.
pub record EventLoop (T : Type 0) : Type 0 where
  pub phase : Phase T
  pub quit : Bool
  pub tasks : List T
  pub wakeup_count : ℕ
  pub unwritten : ℕ
  pub events_size : ℕ
  pub queued : List T
  pub performed : List T
  pub handled : List ℕ

abbrev pub start : {T : Type 0} → EventLoop T
start = record {
  phase = waiting;
  quit = false;
  tasks = [];
  wakeup_count = 0;
  unwritten = 0;
  events_size = first_size;
  queued = [];
  performed = [];
  handled = [];
}

abbrev pub has_wakeup : List Active → Bool
has_wakeup [] = false
has_wakeup (wakeup_channel ∷ rest) = true
has_wakeup (channel i ∷ rest) = has_wakeup rest

-- `queueInLoop` by any thread, a task or a handler of this loop too: the critical section.
unfoldable pub queue_in_loop : {T : Type 0} → EventLoop T → T → EventLoop T
queue_in_loop l t = record l {
  tasks = l.tasks ++ t ∷ [];
  unwritten = suc l.unwritten;
  queued = l.queued ++ t ∷ [];
}

-- `wakeup()`, which follows in the same thread.
unfoldable pub wakeup : {T : Type 0} → EventLoop T → ℕ → EventLoop T
wakeup l left = record l { unwritten = left; wakeup_count = suc l.wakeup_count }

-- The read of the event descriptor.
abbrev pub handle_read : {T : Type 0} → EventLoop T → List Active → EventLoop T
handle_read l rest = record l { wakeup_count = 0; phase = handling rest }

-- `tasks_.swap(t_task)`.
abbrev pub swap_tasks : {T : Type 0} → EventLoop T → EventLoop T
swap_tasks l = record l { phase = running l.tasks; tasks = [] }

-- `while(!_quit)`.
abbrev pub next_round : {T : Type 0} → EventLoop T → EventLoop T
next_round l = record l { phase = if l.quit then stopped else waiting }

-- The next step of the loop; `none` where it waits or has stopped.
unfoldable pub proceed : {T : Type 0} → EventLoop T → Phase T → Option (EventLoop T)
proceed l waiting = none
proceed l stopped = none
proceed l (handling []) = some (swap_tasks l)
proceed l (handling (wakeup_channel ∷ rest)) = some (handle_read l rest)
proceed l (handling (channel i ∷ rest)) =
    some (record l { phase = handling rest; handled = l.handled ++ i ∷ [] })
proceed l (running []) = some (next_round l)
proceed l (running (t ∷ rest)) =
    some (record l { phase = running rest; performed = l.performed ++ t ∷ [] })

-- What `epoll_wait` may give where the vector has `size` places and the event descriptor counts `count`.
-- The channel of the descriptor is level triggered: while it is readable the channel is ready, and can
-- be missing only from a batch that fills the vector; else it is not ready.
unfoldable pub may_give : ℕ → ℕ → List Active → Bool
may_give size count active =
    if has_wakeup active
    then ltb 0 count && leb (length active) size
    else if ltb 0 count
    then length active == size
    else leb (length active) size

-- `revents.resize(2*revents.size())`.
abbrev pub grown : ℕ → List Active → ℕ
grown size active = if length active == size then 2 * size else size

-- `epollWait` returns: -1 is `none`, and a timeout is the empty list.
unfoldable pub poll :
    {T : Type 0} → EventLoop T → Phase T → Option (List Active) → Option (EventLoop T)
unfolding may_give
poll l waiting none = some (record l { quit = true; phase = handling [] })
poll l waiting (some active) =
    if may_give l.events_size l.wakeup_count active
    then some (record l { phase = handling active; events_size = grown l.events_size active })
    else none
poll l stopped r = none
poll l (handling rest) r = none
poll l (running rest) r = none

pub data Action (T : Type 0) : Type 0 where
  queues : T → Action T
  wakes proceeds : Action T
  polls : Option (List Active) → Action T

unfoldable pub step : {T : Type 0} → EventLoop T → Action T → Option (EventLoop T)
step l (queues t) = some (queue_in_loop l t)
step l wakes = one_of l.unwritten >>= λ n. some (wakeup l n)
step l proceeds = proceed l l.phase
step l (polls r) = poll l l.phase r

-- A schedule: each action is one that is possible.
unfoldable pub run : {T : Type 0} → EventLoop T → List (Action T) → Option (EventLoop T)
run l [] = some l
run l (a ∷ rest) = step l a >>= λ l'. run l' rest

-- The tasks of `t_task` still to run.
abbrev pub left_of : {T : Type 0} → Phase T → List T
left_of (running rest) = rest
left_of _ = []

-- Outside of the handlers, whose round ends with the tasks, nothing is queued without a wakeup that is
-- written or still to be written.
abbrev pub Awake : {T : Type 0} → Phase T → ℕ → ℕ → Type 0
Awake waiting queued wakeups = 0 < queued → 0 < wakeups
Awake stopped queued wakeups = Unit {0}
Awake (handling rest) queued wakeups = Unit {0}
Awake (running rest) queued wakeups = 0 < queued → 0 < wakeups

pub record Inv {T : Type 0} (l : EventLoop T) : Type 0 where
  pub in_order : l.performed ++ (left_of l.phase ++ l.tasks) ≡ l.queued
  pub awake : Awake l.phase (length l.tasks) (l.wakeup_count + l.unwritten)
