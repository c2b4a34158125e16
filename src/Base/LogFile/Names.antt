-- ===== src/Base/LogFile/Names.antt =====
-- The names of the log files.
use carf_lib.Shared.{
  ℕ, ◌<◌, ◌≡◌, sym, ap, ◌∙◌, ◌↔◌, ◌++◌, arith, codes, length, length-append, take_all,
}
use carf_lib.Shared.Format.{parts_inj}
use carf_lib.Base.Timestamp.{Tm, date_and_time}
use carf_lib.Base.Timestamp.Text.{IsCalendar, length-date_and_time, date_and_time_inj}
use carf_lib.Base.LogFile.{get_current_name}

-- No name is cut, and two files that are rolled below the limit have the same name exactly when they are
-- rolled in the same second.
pub get_current_name_iff :
    (localtime : ℕ → Tm) (limit a b : ℕ)
    → IsCalendar localtime limit
    → a < limit
    → b < limit
    → (length (get_current_name localtime a) ≡ 21)
      × ((get_current_name localtime a ≡ get_current_name localtime b) ↔ (a ≡ b))
unfolding get_current_name
get_current_name_iff localtime limit a b c h k =
    let size_a = length-date_and_time (localtime a) (c.in_range a h) in
    let size_b = length-date_and_time (localtime b) (c.in_range b k) in
    let long_a : length (date_and_time (localtime a) ++ codes ".log") ≡ 21 =
      length-append (date_and_time (localtime a)) (codes ".log") ∙ omega arith in
    let long_b : length (date_and_time (localtime b) ++ codes ".log") ≡ 21 =
      length-append (date_and_time (localtime b)) (codes ".log") ∙ omega arith in
    let whole_a = take_all 31 (date_and_time (localtime a) ++ codes ".log") (omega arith) in
    let whole_b = take_all 31 (date_and_time (localtime b) ++ codes ".log") (omega arith) in
    (
      ap length whole_a ∙ long_a,
      (
        λ e.
            let (dates, _) =
              parts_inj (date_and_time (localtime a)) (date_and_time (localtime b)) _ _
                (size_a ∙ sym size_b) (sym whole_a ∙ e ∙ whole_b) in
            c.inj a b h k (
              date_and_time_inj (localtime a) (localtime b) (c.in_range a h) (c.in_range b k)
                dates),
        λ e. ap (get_current_name localtime) e,
      ),
    )
