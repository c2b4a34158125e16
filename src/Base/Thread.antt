-- ===== src/Base/Thread.antt =====
-- base/Thread.h and .cc: what may be called when, and how `start()` waits for its thread.
-- A failed assertion is `none`. The mutex of `start()` is taken by nobody else: `ThreadData::run` counts
-- and signals without it, so its steps may come between the test and the wait of `start()`.
pub mod Lifecycle
pub mod Wakeup
use carf_lib.Shared.{
  ℕ, zero, suc, ◌+◌, ◌-◌, ◌*◌, ◌/◌, ◌%◌, ◌^◌, ◌≤◌, ◌<◌, min, ◌≡◌, refl, sym, ap, ap₂, ◌∙◌, subst,
  ◌≢◌, ◌↔◌, ◌⊎◌, inl, inr, Bool, true, false, not, ◌&&◌, ◌||◌, Option, none, some, List, [], ◌∷◌,
  ◌++◌, map, append-nil, append_assoc, arith, ltb, leb, ◌==◌, if◌then◌else◌, ==_iff, Bool-cases,
  Option-cases, ◌>>=◌, >>=-eq-some, some_eq, one_of, one_of_lem, Bytes, codes, bytes_eq,
  bytes_eq_iff, find_byte, is_space, length, get_elem?, take, drop, replicate, length-append,
  take-append-drop, length-take, length-drop, length-replicate, take-append, drop-append,
  take-append_le, drop-append_le, take_all, drop_all, drop-drop, take-drop, take-take,
  take-append_split, drop-append_split, take-replicate, drop-replicate, set, length-set,
  get_elem?-set_self, get_elem?-set_ne, get_elem?-replicate, length-Permᴰ,
}

pub record Thread : Type 0 where
  pub started : Bool
  pub joined : Bool
  pub detached : Bool

abbrev pub make : Bool → Thread
make detach = record { started = false; joined = false; detached = detach }

-- `start()`, up to its wait.
unfoldable pub start : Thread → Option Thread
start t = if t.started then none else some (record t { started = true })

unfoldable pub join : Thread → Option Thread
join t =
    if not t.started
    then none
    else if t.joined
    then none
    else if t.detached
    then none
    else some (record t { joined = true })

-- Where `start()` is: before a test of `cond_num==0`, behind one that found it zero, in
-- `_cond.wait()`, or returned.
pub data Parent : Type 0 where
  testing tested asleep returned : Parent

-- Where `ThreadData::run` is: before `++(*cond_num_)`, before `_cond->wakeUpOne()`, or behind it.
pub data Child : Type 0 where
  counting signalling running : Child

pub record Starting : Type 0 where
  pub parent : Parent
  pub child : Child
  pub cond_num : ℕ

-- Behind `pthread_create`.
abbrev pub created : Starting
created = record { parent = testing; child = counting; cond_num = 0 }

unfoldable pub parent_step : Starting → Parent → Option Starting
parent_step s testing = some (record s { parent = if s.cond_num == 0 then tested else returned })
parent_step s tested = some (record s { parent = asleep })
parent_step s asleep = none
parent_step s returned = none

-- A signal with no thread asleep is lost.
abbrev pub signalled : Parent → Parent
signalled testing = testing
signalled tested = tested
signalled asleep = testing
signalled returned = returned

unfoldable pub child_step : Starting → Child → Option Starting
child_step s counting = some (record s { cond_num = suc s.cond_num; child = signalling })
child_step s signalling = some (record s { parent = signalled s.parent; child = running })
child_step s running = none

pub data Who : Type 0 where
  the_parent the_child : Who

unfoldable pub step : Starting → Who → Option Starting
unfolding parent_step child_step
step s the_parent = parent_step s s.parent
step s the_child = child_step s s.child

unfoldable pub run : Starting → List Who → Option Starting
run s [] = some s
run s (w ∷ rest) = step s w >>= λ s'. run s' rest
