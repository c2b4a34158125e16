-- ===== src/Net/EventLoopThreadPool.antt =====
-- net/EventLoopThreadPool.h and .cc: the loops of the I/O threads, one to a thread.
-- A loop is a value of any type; a null pointer in `loops_` is `none`.
pub mod Turns
pub mod Start
use carf_lib.Shared.{
  ℕ, zero, suc, ◌+◌, ◌-◌, ◌*◌, ◌/◌, ◌%◌, ◌^◌, ◌≤◌, ◌<◌, min, ◌≡◌, refl, sym, ap, ap₂, ◌∙◌, subst,
  ◌≢◌, ◌↔◌, ◌⊎◌, inl, inr, Bool, true, false, not, ◌&&◌, ◌||◌, Option, none, some, List, [], ◌∷◌,
  ◌++◌, map, append-nil, append_assoc, arith, ltb, leb, ◌==◌, if◌then◌else◌, ==_iff, Bool-cases,
  Option-cases, ◌>>=◌, >>=-eq-some, some_eq, Bytes, codes, bytes_eq, bytes_eq_iff, find_byte,
  is_space, length, get_elem?, take, drop, replicate, length-append, take-append-drop, length-take,
  length-drop, length-replicate, take-append, drop-append, take-append_le, drop-append_le, take_all,
  drop_all, drop-drop, take-drop, take-take, take-append_split, drop-append_split, take-replicate,
  drop-replicate, set, length-set, get_elem?-set_self, get_elem?-set_ne, get_elem?-replicate,
  length-Permᴰ,
}

-- `current_loop` is `none` for -1.
pub record EventLoopThreadPool (L : Type 0) : Type 0 where
  pub loop : L
  pub num : ℕ
  pub current_loop : Option ℕ
  pub loops : List (Option L)
  pub index : ℕ

unfoldable pub make : {L : Type 0} → L → ℕ → EventLoopThreadPool L
make loop num = record {
  loop = loop;
  num = num;
  current_loop = none;
  loops = replicate num none;
  index = 0;
}

-- `(currentLoop+1)%num_`.
unfoldable pub next_index : Option ℕ → ℕ → ℕ
next_index none num = 0 % num
next_index (some i) num = suc i % num

-- `loops_[i]`; out of range is undefined.
abbrev pub slot : {L : Type 0} → List (Option L) → ℕ → Option (Option L)
slot loops i = get_elem? loops i

-- `getNextLoop()`: the pointer, and the pool.
unfoldable pub get_next_loop :
    {L : Type 0} → EventLoopThreadPool L → Option (Option L × EventLoopThreadPool L)
get_next_loop p = if p.num == 0 then some (some p.loop, p) else (do
  let i = next_index p.current_loop p.num
  l ← slot p.loops i
  some (l, record p { current_loop = some i }))

-- What `threadFunc` does under the mutex, in a thread whose own loop is `l`.
unfoldable pub store_loop : {L : Type 0} → EventLoopThreadPool L → L → EventLoopThreadPool L
store_loop p l = record p { loops = set p.loops p.index (some l); index = suc p.index }
