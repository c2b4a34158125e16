-- ===== src/Base/Logger.antt =====
-- base/Logger.h and .cc: a line of the log in a buffer of 1024 bytes, and the levels.
-- `bufsiz` stands for stdio's `BUFSIZ`, `localtime` for the C function; the text that `vsnprintf` makes
-- of the format and its arguments is an argument. A write past the buffer is `none`.
pub mod Lines
use carf_lib.Shared.{
  ℕ, zero, suc, ◌+◌, ◌-◌, ◌*◌, ◌/◌, ◌%◌, ◌^◌, ◌≤◌, ◌<◌, min, ◌≡◌, refl, sym, ap, ap₂, ◌∙◌, subst,
  ◌≢◌, ◌↔◌, ◌⊎◌, inl, inr, Bool, true, false, not, ◌&&◌, ◌||◌, Option, none, some, List, [], ◌∷◌,
  ◌++◌, map, append-nil, append_assoc, arith, ltb, leb, ◌==◌, if◌then◌else◌, ==_iff, Bool-cases,
  Option-cases, ◌>>=◌, >>=-eq-some, some_eq, one_of, one_of_lem, Bytes, codes, bytes_eq,
  bytes_eq_iff, find_byte, is_space, length, get_elem?, take, drop, replicate, length-append,
  take-append-drop, length-take, length-drop, length-replicate, take-append, drop-append,
  take-append_le, drop-append_le, take_all, drop_all, drop-drop, take-drop, take-take,
  take-append_split, drop-append_split, take-replicate, drop-replicate, set, length-set,
  get_elem?-set_self, get_elem?-set_ne, get_elem?-replicate, length-Permᴰ,
}
use carf_lib.Shared.Decimal.{decimal}
use carf_lib.Shared.Format.{padded}
use carf_lib.Net.Buffer.{copy_to}
use carf_lib.Base.Timestamp.{Tm, two}

pub data LogLevel : Type 0 where
  debug info warn error : LogLevel

-- The numbers of the levels.
abbrev pub rank : LogLevel → ℕ
rank debug = 0
rank info = 1
rank warn = 2
rank error = 3

abbrev pub log_name : LogLevel → Bytes
log_name debug = codes "LOG_DEBUG"
log_name info = codes "LOG_INFO"
log_name warn = codes "LOG_WARN"
log_name error = codes "LOG_ERROR"

abbrev pub buf_size : ℕ
buf_size = 1024

pub record Logger : Type 0 where
  pub filename : Bytes
  pub line : ℕ
  pub buf : Bytes
  pub write_length : ℕ

-- A string and the zero byte behind it, written from place `i` of an array.
unfoldable pub put_string : Bytes → ℕ → Bytes → Option Bytes
put_string buf i s =
    if leb (i + length s + 1) (length buf) then some (copy_to buf i (s ++ (0 ∷ []))) else none

-- `snprintf(buf+write_length,limit,...)`, and `write_length+=n`.
unfoldable pub print : Logger → ℕ → Bytes → Option Logger
print l limit s = do
  buf ← put_string l.buf l.write_length (take (limit - 1) s)
  some (record l { buf = buf; write_length = l.write_length + length s })

-- What the constructor asks the system for: the local time, its microseconds, and the thread.
pub record Moment : Type 0 where
  pub tm : Tm
  pub tv_usec : ℕ
  pub tid : ℕ

-- What the constructor prints: `%d-%02d-%02d %02d:%02d:%02d.%06ld %s(%5d):`.
unfoldable pub header : Moment → LogLevel → Bytes
header m level =
    decimal (m.tm.tm_year + 1900)
    ++ (b'-'
        ∷ (two (m.tm.tm_mon + 1)
            ++ (b'-'
                ∷ (two m.tm.tm_mday
                    ++ (b' '
                        ∷ (two m.tm.tm_hour
                            ++ (b':'
                                ∷ (two m.tm.tm_min
                                    ++ (b':'
                                        ∷ (two m.tm.tm_sec
                                            ++ (b'.'
                                                ∷ (padded b'0' 6 m.tv_usec
                                                    ++ (b' '
                                                        ∷ (log_name level
                                                            ++ (b'('
                                                            ∷ (padded b' ' 5 m.tid
                                                            ++ (b')' ∷ b':' ∷ [])))))))))))))))))

-- The constructor. `raw` is what the arrays hold before: `filename` has 128 bytes.
unfoldable pub make : ℕ → Bytes → Bytes → ℕ → LogLevel → Moment → Option Logger
make bufsiz raw file line level now =
    if ltb (length file) 128
    then print (record { filename = file; line = line; buf = raw; write_length = 0 }) bufsiz
        (header now level)
    else none

-- `log(format,...)`: `message` is what the format and the arguments give.
unfoldable pub log : ℕ → Logger → Bytes → Option Logger
log bufsiz l message = print l (bufsiz - 1) message

-- `-%s:%d\n`.
unfoldable pub tail : Bytes → ℕ → Bytes
tail file line = b'-' ∷ (file ++ (b':' ∷ (decimal line ++ (10 ∷ []))))

-- The destructor: what is given to `g_output`. The array `tail` has 256 bytes.
unfoldable pub finish : Logger → Option Bytes
finish l = do
  buf ← put_string l.buf l.write_length (take 255 (tail l.filename l.line))
  some (take (l.write_length + length (tail l.filename l.line)) buf)

-- The life of the temporary object in `LOG_INFO` and its kin.
unfoldable pub write_line : ℕ → Bytes → Bytes → ℕ → LogLevel → Moment → Bytes → Option Bytes
write_line bufsiz raw file line level now message =
    make bufsiz raw file line level now >>= λ l. log bufsiz l message >>= finish

-- `if(g_logLevel<=level&&log_t) Logger(...).log(...)`: the lines that are output.
unfoldable pub log_macro :
    LogLevel → Bool → ℕ → Bytes → Bytes → ℕ → LogLevel → Moment → Bytes → Option (List Bytes)
log_macro g_log_level log_t bufsiz raw file line level now message =
    let written = write_line bufsiz raw file line level now message in
    if leb (rank g_log_level) (rank level) && log_t
    then (written >>= λ s. some (s ∷ []))
    else some []
