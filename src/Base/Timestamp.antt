-- ===== src/Base/Timestamp.antt =====
-- base/Timestamp.h and .cc: a time as microseconds since the epoch, and as text.
-- `gmtime` stands for `gmtime_r`, and `Tm` for its fields.
pub mod Text
use carf_lib.Shared.{
  ℕ, zero, suc, ◌+◌, ◌-◌, ◌*◌, ◌/◌, ◌%◌, ◌^◌, ◌≤◌, ◌<◌, min, ◌≡◌, refl, sym, ap, ap₂, ◌∙◌, subst,
  ◌≢◌, ◌↔◌, ◌⊎◌, inl, inr, Bool, true, false, not, ◌&&◌, ◌||◌, Option, none, some, List, [], ◌∷◌,
  ◌++◌, map, append-nil, append_assoc, arith, ltb, leb, ◌==◌, if◌then◌else◌, ==_iff, Bool-cases,
  Option-cases, ◌>>=◌, >>=-eq-some, some_eq, one_of, one_of_lem, Bytes, codes, bytes_eq,
  bytes_eq_iff, find_byte, is_space, length, get_elem?, take, drop, replicate, length-append,
  take-append-drop, length-take, length-drop, length-replicate, take-append, drop-append,
  take-append_le, drop-append_le, take_all, drop_all, drop-drop, take-drop, take-take,
  take-append_split, drop-append_split, take-replicate, drop-replicate, set, length-set,
  get_elem?-set_self, get_elem?-set_ne, get_elem?-replicate, length-Permᴰ,
}
use carf_lib.Shared.Format.{padded}

-- `struct tm`: years from 1900 on, and months from 0 on.
pub record Tm : Type 0 where
  pub tm_year : ℕ
  pub tm_mon : ℕ
  pub tm_mday : ℕ
  pub tm_hour : ℕ
  pub tm_min : ℕ
  pub tm_sec : ℕ

abbrev pub k_micro_seconds_per_second : ℕ
k_micro_seconds_per_second = 1000 * 1000

-- `now()`, of what `gettimeofday` gives: `none` where a `long` overflows.
unfoldable pub now : ℕ → ℕ → Option ℕ
now tv_sec tv_usec =
    if leb (tv_sec * k_micro_seconds_per_second + tv_usec) (2 ^ 63 - 1)
    then some (tv_sec * k_micro_seconds_per_second + tv_usec)
    else none

-- `%02d`.
abbrev pub two : ℕ → Bytes
two n = padded b'0' 2 n

-- `%4d%02d%02d %02d:%02d:%02d`.
unfoldable pub date_and_time : Tm → Bytes
date_and_time t =
    padded b' ' 4 (t.tm_year + 1900)
    ++ (two (t.tm_mon + 1)
        ++ (two t.tm_mday
            ++ (b' ' ∷ (two t.tm_hour ++ (b':' ∷ (two t.tm_min ++ (b':' ∷ two t.tm_sec)))))))

-- `toFormattedString(showMicroseconds)`; `buf` has 64 bytes.
unfoldable pub to_formatted_string : (ℕ → Tm) → ℕ → Bool → Bytes
to_formatted_string gmtime micro_seconds show_microseconds =
    let tm = gmtime (micro_seconds / k_micro_seconds_per_second) in
    take 63 (
      if show_microseconds
      then date_and_time tm ++ (b'.' ∷ padded b'0' 6 (micro_seconds % k_micro_seconds_per_second))
      else date_and_time tm)
