-- ===== src/Base/Timestamp/Text.antt =====
-- The text of a time has a fixed length and tells times apart.
use carf_lib.Shared.{
  ℕ, ◌+◌, ◌/◌, ◌%◌, ◌≤◌, ◌<◌, min, ◌≡◌, sym, ap, ◌∙◌, subst, ◌↔◌, true, false, ◌∷◌, ◌++◌, arith,
  Bytes, length, drop, length-append, take_all,
}
use carf_lib.Shared.Format.{padded, length-padded, padded_inj, parts_inj}
use carf_lib.Base.Timestamp.{
  Tm, k_micro_seconds_per_second, two, date_and_time, to_formatted_string,
}

-- Years of at most four digits, and numbers of at most two.
pub record InRange (t : Tm) : Type 0 where
  pub year : t.tm_year + 1900 < 10000
  pub mon : t.tm_mon + 1 < 100
  pub mday : t.tm_mday < 100
  pub hour : t.tm_hour < 100
  pub min : t.tm_min < 100
  pub sec : t.tm_sec < 100

length-two : (n : ℕ) → n < 100 → length (two n) ≡ 2
length-two n h = length-padded b'0' 1 n h

two_inj :
    (m n : ℕ) (xs ys : Bytes) → m < 100 → n < 100 → two m ++ xs ≡ two n ++ ys → (m ≡ n) × (xs ≡ ys)
two_inj m n xs ys h k e =
    let (same, rest) = parts_inj (two m) (two n) xs ys (length-two m h ∙ sym (length-two n k)) e in
    (padded_inj b'0' 2 m n (omega arith) same, rest)

pub length-date_and_time : (t : Tm) → InRange t → length (date_and_time t) ≡ 17
unfolding date_and_time
length-date_and_time t r = omega (
  arith,
  length-append (padded b' ' 4 (t.tm_year + 1900)) _,
  length-append (two (t.tm_mon + 1)) _,
  length-append (two t.tm_mday) _,
  length-append (two t.tm_hour) _,
  length-append (two t.tm_min) _,
  length-padded b' ' 3 (t.tm_year + 1900) r.year,
  length-two (t.tm_mon + 1) r.mon,
  length-two t.tm_mday r.mday,
  length-two t.tm_hour r.hour,
  length-two t.tm_min r.min,
  length-two t.tm_sec r.sec,
)

-- The fields of the calendar are known from the text.
pub date_and_time_inj :
    (s t : Tm) → InRange s → InRange t → date_and_time s ≡ date_and_time t → s ≡ t
unfolding date_and_time
date_and_time_inj s t r q e =
    let (years, e1) =
      parts_inj (padded b' ' 4 (s.tm_year + 1900)) (padded b' ' 4 (t.tm_year + 1900)) _ _
        (length-padded b' ' 3 (s.tm_year + 1900) r.year
          ∙ sym (length-padded b' ' 3 (t.tm_year + 1900) q.year))
        e in
    let year = padded_inj b' ' 4 (s.tm_year + 1900) (t.tm_year + 1900) (omega arith) years in
    let (mon, e2) = two_inj (s.tm_mon + 1) (t.tm_mon + 1) _ _ r.mon q.mon e1 in
    let (mday, e3) = two_inj s.tm_mday t.tm_mday _ _ r.mday q.mday e2 in
    let (hour, e4) = two_inj s.tm_hour t.tm_hour _ _ r.hour q.hour (ap (drop 1) e3) in
    let (min, e5) = two_inj s.tm_min t.tm_min _ _ r.min q.min (ap (drop 1) e4) in
    let sec = padded_inj b'0' 2 s.tm_sec t.tm_sec (omega arith) (ap (drop 1) e5) in
    let same_year : s.tm_year ≡ t.tm_year = omega arith in
    let same_mon : s.tm_mon ≡ t.tm_mon = omega arith in
    λ i. record {
      tm_year = same_year i;
      tm_mon = same_mon i;
      tm_mday = mday i;
      tm_hour = hour i;
      tm_min = min i;
      tm_sec = sec i;
    }

-- `gmtime` on the seconds below a limit: its fields are in range, and tell seconds apart.
pub record IsCalendar (gmtime : ℕ → Tm) (limit : ℕ) : Type 0 where
  pub in_range : (s : ℕ) → s < limit → InRange (gmtime s)
  pub inj : (s t : ℕ) → s < limit → t < limit → gmtime s ≡ gmtime t → s ≡ t

text_lem :
    (gmtime : ℕ → Tm) (limit us : ℕ)
    → IsCalendar gmtime limit
    → us / k_micro_seconds_per_second < limit
    → (to_formatted_string gmtime us false
        ≡ date_and_time (gmtime (us / k_micro_seconds_per_second)))
      × (to_formatted_string gmtime us true
          ≡ date_and_time (gmtime (us / k_micro_seconds_per_second))
            ++ (b'.' ∷ padded b'0' 6 (us % k_micro_seconds_per_second)))
      × (length (to_formatted_string gmtime us true) ≡ 24)
unfolding to_formatted_string
text_lem gmtime limit us c h =
    let tm = gmtime (us / k_micro_seconds_per_second) in
    let short = length-date_and_time tm (c.in_range _ h) in
    let micro = length-padded b'0' 5 (us % k_micro_seconds_per_second) (omega arith) in
    let long : length (date_and_time tm ++ (b'.' ∷ padded b'0' 6 (us % k_micro_seconds_per_second)))
        ≡ 24 =
      length-append (date_and_time tm) _ ∙ omega arith in
    let whole = take_all 63 _ (subst (λ n. n ≤ 63) (sym long) (omega arith)) in
    (
      take_all 63 (date_and_time tm) (subst (λ n. n ≤ 63) (sym short) (omega arith)),
      whole,
      ap length whole ∙ long,
    )

-- The text of a time, with microseconds, always has 24 bytes; and two times below the limit have the
-- same text exactly when they are the same microsecond, where microseconds are shown, and exactly
-- when they are in the same second, where they are not.
pub to_formatted_string_iff :
    (gmtime : ℕ → Tm) (limit a b : ℕ)
    → IsCalendar gmtime limit
    → a / k_micro_seconds_per_second < limit
    → b / k_micro_seconds_per_second < limit
    → (length (to_formatted_string gmtime a true) ≡ 24)
      × ((to_formatted_string gmtime a true ≡ to_formatted_string gmtime b true) ↔ (a ≡ b))
      × ((to_formatted_string gmtime a false ≡ to_formatted_string gmtime b false)
          ↔ (a / k_micro_seconds_per_second ≡ b / k_micro_seconds_per_second))
unfolding to_formatted_string
to_formatted_string_iff gmtime limit a b c h k =
    let (short_a, long_a, len_a) = text_lem gmtime limit a c h in
    let (short_b, long_b, len_b) = text_lem gmtime limit b c k in
    let seconds =
      λ (e : date_and_time (gmtime (a / k_micro_seconds_per_second))
          ≡ date_and_time (gmtime (b / k_micro_seconds_per_second))).
        c.inj (a / k_micro_seconds_per_second) (b / k_micro_seconds_per_second) h k (
          date_and_time_inj (gmtime (a / k_micro_seconds_per_second))
            (gmtime (b / k_micro_seconds_per_second)) (c.in_range _ h) (c.in_range _ k) e) in
    (
      len_a,
      (
        λ e.
            let (dates, micros) =
              parts_inj (date_and_time (gmtime (a / k_micro_seconds_per_second)))
                (date_and_time (gmtime (b / k_micro_seconds_per_second))) _ _
                (length-date_and_time _ (c.in_range _ h)
                  ∙ sym (length-date_and_time _ (c.in_range _ k)))
                (sym long_a ∙ e ∙ long_b) in
            let s = seconds dates in
            let m =
              padded_inj b'0' 6 (a % k_micro_seconds_per_second) (b % k_micro_seconds_per_second)
                (omega arith) (ap (drop 1) micros) in
            omega arith,
        λ e. ap (λ t. to_formatted_string gmtime t true) e,
      ),
      (
        λ e. seconds (sym short_a ∙ e ∙ short_b),
        λ e. short_a ∙ ap (λ t. date_and_time (gmtime t)) e ∙ sym short_b,
      ),
    )
