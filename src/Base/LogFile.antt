-- ===== src/Base/LogFile.antt =====
-- base/LogFile.h and base/LogFile.cc: the log file and when it is rolled. The clock is an argument of
-- each call, in seconds. `file` is what was written to the file that is open, `closed` what was written
-- to the files before it, oldest first; failing `fopen` calls are not modelled.
pub mod Rolling
pub mod Names
pub mod Asynchronous
use carf_lib.Shared.{
  ℕ, zero, suc, ◌+◌, ◌-◌, ◌*◌, ◌/◌, ◌%◌, ◌^◌, ◌≤◌, ◌<◌, min, ◌≡◌, refl, sym, ap, ap₂, ◌∙◌, subst,
  ◌≢◌, ◌↔◌, ◌⊎◌, inl, inr, Bool, true, false, not, ◌&&◌, ◌||◌, Option, none, some, List, [], ◌∷◌,
  ◌++◌, map, append-nil, append_assoc, arith, ltb, leb, ◌==◌, if◌then◌else◌, ==_iff, Bool-cases,
  Option-cases, ◌>>=◌, >>=-eq-some, some_eq, Bytes, codes, bytes_eq, bytes_eq_iff, find_byte,
  is_space, length, get_elem?, take, drop, replicate, length-append, take-append-drop, length-take,
  length-drop, length-replicate, take-append, drop-append, take-append_le, drop-append_le, take_all,
  drop_all, drop-drop, take-drop, take-take, take-append_split, drop-append_split, take-replicate,
  drop-replicate,
}
use carf_lib.Base.Timestamp.{Tm, date_and_time}

pub record LogFile : Type 0 where
  pub roll_size : ℕ
  pub check_every_n : ℕ
  pub written_bytes : ℕ
  pub count : ℕ
  pub current_day : ℕ
  pub file : Bytes
  pub closed : List Bytes

abbrev pub k_roll_per_seconds : ℕ
k_roll_per_seconds = 60 * 60 * 24

-- `getCurrentName(&now)`: `%4d%02d%02d %02d:%02d:%02d.log` in an array of 32 bytes, the seconds being
-- what `time` gave. `localtime` is a parameter.
unfoldable pub get_current_name : (ℕ → Tm) → ℕ → Bytes
get_current_name localtime now = take 31 (date_and_time (localtime now) ++ codes ".log")

unfoldable pub roll_file : LogFile → ℕ → LogFile
roll_file l now = record l {
  written_bytes = 0;
  count = 0;
  current_day = now / k_roll_per_seconds;
  file = [];
  closed = l.closed ++ l.file ∷ [];
}

-- The constructor: `file_` is NULL before its `rollFile()`.
unfoldable pub open_log : ℕ → ℕ → ℕ → LogFile
open_log roll_size check_every_n now = record {
  roll_size = roll_size;
  check_every_n = check_every_n;
  written_bytes = 0;
  count = 0;
  current_day = now / k_roll_per_seconds;
  file = [];
  closed = [];
}

-- `fwrite`, and the bytes counted.
abbrev pub write_bytes : LogFile → Bytes → LogFile
write_bytes l s = record l { written_bytes = l.written_bytes + length s; file = l.file ++ s }

-- The tests behind each write, the same in both modes.
unfoldable pub roll_if_due : LogFile → ℕ → LogFile
unfolding roll_file
roll_if_due l now =
    if leb l.roll_size l.written_bytes
    then roll_file l now
    else if leb l.check_every_n l.count
    then if now / k_roll_per_seconds == l.current_day then l else roll_file l now
    else l

-- `append_file` with no thread: the calls are counted.
unfoldable pub append_file : LogFile → ℕ → Bytes → LogFile
unfolding roll_if_due
append_file l now s = roll_if_due (write_bytes (record l { count = l.count + 1 }) s) now

-- One round of the writing thread: the message that it popped.
unfoldable pub asy_write_one : LogFile → ℕ → Bytes → LogFile
unfolding roll_if_due
asy_write_one l now s = roll_if_due (write_bytes l s) now

-- `asyWrite()` over the messages that it could pop: with each comes the flag `over` as the loop reads it
-- before the pop, and the time.
unfoldable pub asy_write : LogFile → List (Bool × ℕ × Bytes) → LogFile
unfolding asy_write_one
asy_write l [] = l
asy_write l ((over, now, s) ∷ queue) =
    let rest = asy_write (asy_write_one l now s) queue in if over then l else rest
