-- ===== src/Net/EventLoopThreadPool/Start.antt =====
-- `start()` and the threads that it starts: when it returns every loop is stored, at its place.
-- The mutex makes each critical section one step. A waiting `start` tests its condition again when a
-- signal wakes it; a thread signals in a step of its own, behind its critical section. Inside of each
-- `threads_[i]->start()` the two threads take the steps of Base.Thread, one at a time.
pub mod Stores
pub mod Steps
pub mod Ends
pub mod Progress
use carf_lib.Shared.{
  one_of, ℕ, zero, suc, ◌+◌, ◌-◌, ◌*◌, ◌/◌, ◌%◌, ◌^◌, ◌≤◌, ◌<◌, min, ◌≡◌, refl, sym, ap, ap₂, ◌∙◌,
  subst, ◌≢◌, ◌↔◌, ◌⊎◌, inl, inr, Bool, true, false, not, ◌&&◌, ◌||◌, Option, none, some, List, [],
  ◌∷◌, ◌++◌, map, append-nil, append_assoc, arith, ltb, leb, ◌==◌, if◌then◌else◌, ==_iff,
  Bool-cases, Option-cases, ◌>>=◌, >>=-eq-some, some_eq, Bytes, codes, bytes_eq, bytes_eq_iff,
  find_byte, is_space, length, get_elem?, take, drop, replicate, length-append, take-append-drop,
  length-take, length-drop, length-replicate, take-append, drop-append, take-append_le,
  drop-append_le, take_all, drop_all, drop-drop, take-drop, take-take, take-append_split,
  drop-append_split, take-replicate, drop-replicate, set, length-set, get_elem?-set_self,
  get_elem?-set_ne, get_elem?-replicate, length-Permᴰ,
}
use carf_lib.Base.Thread.{
  Starting, created, Parent, Child, testing, tested, asleep, returned, counting, signalling,
  running, parent_step, child_step,
}
use carf_lib.Base.Thread
use carf_lib.Net.EventLoopThreadPool.{EventLoopThreadPool, make, store_loop}

-- Where `start` stands in its round for thread `i`: before `threads_[i]->start()`, in it behind
-- `pthread_create`, before a test of `loops_[i]==NULL`, in `cond_.wait()`, or behind the loop.
pub data Main : Type 0 where
  starting creating checking sleeping : ℕ → Main
  finished : Main

-- The pool, whose loops are the numbers of the threads; how many threads were started; for each of them
-- where it and its `Thread::start` are; the threads that have not stored their loop; and how many have
-- stored it and not yet signalled.
pub record System : Type 0 where
  pub pool : EventLoopThreadPool ℕ
  pub main : Main
  pub started : ℕ
  pub threads : List Starting
  pub unstored : List ℕ
  pub signals : ℕ

abbrev pub begin : ℕ → System
begin num = record {
  pool = make 0 num;
  main = starting 0;
  started = 0;
  threads = [];
  unstored = [];
  signals = 0;
}

-- The thread of `start`; thread `k` in `ThreadData::run`; the store of the thread at a place of
-- `unstored`; and a signal.
pub data Action : Type 0 where
  continues wakes : Action
  runs stores : ℕ → Action

-- The test of the `while` loop; a place out of range is undefined.
abbrev pub after_test : System → ℕ → Option (Option ℕ) → Option System
after_test s i none = none
after_test s i (some none) = some (record s { main = sleeping i })
after_test s i (some (some l)) = some (record s { main = starting (suc i) })

-- A step of `Thread::start()`, whose thread and `cond_num` are `h`.
unfoldable pub in_start : System → ℕ → Starting → Parent → Option System
in_start s i h returned = some (record s { main = checking i })
in_start s i h testing =
    parent_step h testing >>= λ h'. some (record s { threads = set s.threads i h' })
in_start s i h tested =
    parent_step h tested >>= λ h'. some (record s { threads = set s.threads i h' })
in_start s i h asleep = none

unfoldable pub continue_main : System → Main → Option System
unfolding in_start
continue_main s (starting i) =
    if ltb i s.pool.num
    then some (record s {
      main = creating i;
      started = suc s.started;
      threads = s.threads ++ created ∷ [];
      unstored = s.unstored ++ s.started ∷ [];
    })
    else some (record s { main = finished })
continue_main s (creating i) = get_elem? s.threads i >>= λ h. in_start s i h h.parent
continue_main s (checking i) = after_test s i (get_elem? s.pool.loops i)
continue_main s (sleeping i) = none
continue_main s finished = none

-- `cond_.wakeUpOne()`.
abbrev pub woken : Main → Main
woken (sleeping i) = checking i
woken (starting i) = starting i
woken (creating i) = creating i
woken (checking i) = checking i
woken finished = finished

-- The function of a thread runs behind `ThreadData::run`'s signal.
abbrev pub runs_function : Child → Bool
runs_function counting = false
runs_function signalling = false
runs_function running = true

-- `threadFunc`, up to its signal, of thread `l`, which is `k`th of those that have not stored a loop.
unfoldable pub store : System → ℕ → ℕ → Starting → Option System
store s k l h =
    if runs_function h.child
    then some (record s {
      pool = store_loop s.pool l;
      unstored = take k s.unstored ++ drop (suc k) s.unstored;
      signals = suc s.signals;
    })
    else none

unfoldable pub step : System → Action → Option System
unfolding store
step s continues = continue_main s s.main
step s (runs k) = do
  h ← get_elem? s.threads k
  h' ← child_step h h.child
  some (record s { threads = set s.threads k h' })
step s (stores k) = do l ← get_elem? s.unstored k; h ← get_elem? s.threads l; store s k l h
step s wakes = one_of s.signals >>= λ n. some (record s { main = woken s.main; signals = n })

unfoldable pub run : System → List Action → Option System
run s [] = some s
run s (a ∷ rest) = step s a >>= λ s'. run s' rest

-- What stands at place `i` of `loops_` when the first `n` are stored.
abbrev pub place : ℕ → ℕ → ℕ → Option (Option ℕ)
place num n i = if ltb i n then some (some i) else if ltb i num then some none else none

-- How far the threads are, by where `start` stands: `n` loops are stored.
abbrev pub Stage : Main → ℕ → ℕ → ℕ → ℕ → Type 0
Stage (starting i) num started n signals = (i ≤ num) × (started ≡ i) × (n ≡ i)
Stage (creating i) num started n signals = (i < num) × (started ≡ suc i) × (i ≤ n) × (n ≤ suc i)
Stage (checking i) num started n signals = (i < num) × (started ≡ suc i) × (i ≤ n) × (n ≤ suc i)
Stage (sleeping i) num started n signals =
    (i < num) × (started ≡ suc i) × (i ≤ n) × (n ≤ suc i) × (n ≡ suc i → 0 < signals)
Stage finished num started n signals = (started ≡ num) × (n ≡ num)

pub record Inv (num : ℕ) (s : System) : Type 0 where
  pub same_num : s.pool.num ≡ num
  pub sized : length s.pool.loops ≡ num
  pub places : (i : ℕ) → get_elem? s.pool.loops i ≡ place num s.pool.index i
  pub behind : s.unstored ≡ (if s.started == s.pool.index then [] else s.pool.index ∷ [])
  pub counted : length s.threads ≡ s.started
  pub stage : Stage s.main num s.started s.pool.index s.signals
