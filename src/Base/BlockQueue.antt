-- ===== src/Base/BlockQueue.antt =====
-- base/BlockQueue.h: the bounded queue between the threads that log and the one that writes.
-- A critical section runs alone, so a call is one step: it completes, or it finds its condition false
-- and waits, which gives the mutex up. A signal wakes one waiting thread; a woken thread tests its
-- condition again when it has the mutex, and other threads may come first.
pub mod Threads
use carf_lib.Shared.{
  ℕ, zero, suc, ◌+◌, ◌-◌, ◌*◌, ◌/◌, ◌%◌, ◌^◌, ◌≤◌, ◌<◌, min, ◌≡◌, refl, sym, ap, ap₂, ◌∙◌, subst,
  ◌≢◌, ◌↔◌, ◌⊎◌, inl, inr, Bool, true, false, not, ◌&&◌, ◌||◌, Option, none, some, List, [], ◌∷◌,
  ◌++◌, map, append-nil, append_assoc, arith, ltb, leb, ◌==◌, if◌then◌else◌, ==_iff, Bool-cases,
  Option-cases, ◌>>=◌, >>=-eq-some, Bytes, codes, bytes_eq, bytes_eq_iff, find_byte, is_space,
  length, get_elem?, take, drop, replicate, length-append, take-append-drop, length-take,
  length-drop, length-replicate, take-append, drop-append, take-append_le, drop-append_le, take_all,
  drop_all, drop-drop, take-drop, take-take, take-append_split, drop-append_split, take-replicate,
  drop-replicate,
}

pub record BlockQueue (A : Type 0) : Type 0 where
  pub queue : List A
  pub used : ℕ
  pub capacity : ℕ

abbrev pub make : {A : Type 0} → ℕ → BlockQueue A
make n = record { queue = []; used = 0; capacity = n }

-- `push_back(item)`; `none` where the thread waits on `waitForEmpty`.
unfoldable pub push_back : {A : Type 0} → BlockQueue A → A → Option (BlockQueue A)
push_back q item =
    if q.used == q.capacity
    then none
    else some (record q { queue = q.queue ++ item ∷ []; used = q.used + 1 })

unfoldable pub take_front : {A : Type 0} → BlockQueue A → List A → Option (A × BlockQueue A)
take_front q [] = none
take_front q (t ∷ rest) = some (t, record q { queue = rest; used = q.used - 1 })

-- `pop_front()`; `none` where the thread waits on `waitForFull`.
unfoldable pub pop_front : {A : Type 0} → BlockQueue A → Option (A × BlockQueue A)
unfolding take_front
pop_front q = if q.used == 0 then none else take_front q q.queue

-- The counter is the length of the queue, and the queue is within its capacity.
pub record IsValid {A : Type 0} (q : BlockQueue A) : Type 0 where
  pub counted : q.used ≡ length q.queue
  pub bounded : q.used ≤ q.capacity
