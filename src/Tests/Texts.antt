-- ===== src/Tests/Texts.antt =====
-- Times and lines of the log as text.
use carf_lib.Shared.{
  ℕ, ◌+◌, ◌*◌, ◌/◌, ◌%◌, ◌≤◌, ◌<◌, ◌≡◌, sym, ap, ap₂, ◌∙◌, ◌↔◌, ◌⊎◌, true, false, Option, none,
  some, List, [], ◌∷◌, ◌++◌, arith, Bytes, codes, length, replicate, length-replicate,
}
use carf_lib.Base.Timestamp.{Tm, to_formatted_string, k_micro_seconds_per_second}
use carf_lib.Base.Timestamp.Text.{IsCalendar, to_formatted_string_iff}
use carf_lib.Base.Logger.{Moment, header, info, warn, rank, tail, log_macro, buf_size}
use carf_lib.Base.Logger.Lines.{log_macro_lem}
use native.Mathlib.Nat.{div-add-mod}

-- A calendar whose months have 28 days, for some years.
abbrev gmtime : ℕ → Tm
gmtime s = record {
  tm_year = s / 60 / 60 / 24 / 28 / 12;
  tm_mon = s / 60 / 60 / 24 / 28 % 12;
  tm_mday = s / 60 / 60 / 24 % 28 + 1;
  tm_hour = s / 60 / 60 % 24;
  tm_min = s / 60 % 60;
  tm_sec = s % 60;
}

split_inj : (k a b : ℕ) → 0 < k → a / k ≡ b / k → a % k ≡ b % k → a ≡ b
split_inj k a b h e f = sym (div-add-mod a k) ∙ ap₂ (λ q r. k * q + r) e f ∙ div-add-mod b k

gmtime-IsCalendar : IsCalendar gmtime 2000000000
gmtime-IsCalendar = record {
  in_range = λ s h. record {
    year = omega arith;
    mon = omega arith;
    mday = omega arith;
    hour = omega arith;
    min = omega arith;
    sec = omega arith;
  };
  inj = λ s t h k e.
      let days =
        split_inj 28 (s / 60 / 60 / 24) (t / 60 / 60 / 24) (omega arith)
          (split_inj 12 (s / 60 / 60 / 24 / 28) (t / 60 / 60 / 24 / 28) (omega arith)
            (ap (λ m. m.tm_year) e) (ap (λ m. m.tm_mon) e))
          (let d = ap (λ m. m.tm_mday) e in omega arith) in
      let hours =
        split_inj 24 (s / 60 / 60) (t / 60 / 60) (omega arith) days (ap (λ m. m.tm_hour) e) in
      let mins = split_inj 60 (s / 60) (t / 60) (omega arith) hours (ap (λ m. m.tm_min) e) in
      split_inj 60 s t (omega arith) mins (ap (λ m. m.tm_sec) e);
}

abbrev earlier : ℕ
earlier = 1500000

abbrev later : ℕ
later = 1700000

to_formatted_string_iff_example :
    (length (to_formatted_string gmtime earlier true) ≡ 24)
    × ((to_formatted_string gmtime earlier true ≡ to_formatted_string gmtime later true)
        ↔ (earlier ≡ later))
    × ((to_formatted_string gmtime earlier false ≡ to_formatted_string gmtime later false)
        ↔ (earlier / k_micro_seconds_per_second ≡ later / k_micro_seconds_per_second))
to_formatted_string_iff_example =
    to_formatted_string_iff gmtime 2000000000 earlier later gmtime-IsCalendar (omega arith)
      (omega arith)

abbrev raw : Bytes
raw = replicate 1024 7

-- Two in the morning, thread 7.
abbrev moment : Moment
moment = record { tm = gmtime 7200; tv_usec = 5; tid = 7 }

abbrev output : Option (List Bytes)
output = log_macro info true 8192 raw (codes "m.cc") 12 warn moment (codes "hi")

abbrev line_size : ℕ
line_size = length (header moment warn) + length (codes "hi") + length (tail (codes "m.cc") 12)

log_macro_lem_example :
    ((rank warn < rank info) ⊎ (true ≡ false) → output ≡ some [])
    × (rank info ≤ rank warn
        → true ≡ true
        → (line_size < buf_size
            → output ≡ some ((header moment warn ++ codes "hi" ++ tail (codes "m.cc") 12) ∷ []))
          × (buf_size ≤ line_size → output ≡ none))
log_macro_lem_example =
    log_macro_lem info warn true 8192 12 raw (codes "m.cc") (codes "hi") moment
      (length-replicate {A = ℕ} 1024 7) (omega arith) (omega arith) (omega arith)
