-- ===== src/Net/TimerQueue/Wait.antt =====
-- The time that the timer descriptor is set to.
use carf_lib.Shared.{
  ℕ, ◌+◌, ◌-◌, ◌*◌, ◌≤◌, ◌<◌, ◌≡◌, ap, ◌∙◌, true, false, none, some, arith, ltb, leb, if◌then◌else◌,
}
use carf_lib.Shared.StdMap.{nat_key}
use carf_lib.Net.TcpConnection.{long_max}
use carf_lib.Net.TimerQueue.{next_check, int_max, how_much_time_from_now}

-- The wait is the distance to the expiry, and 100 microseconds where that is less, split into whole
-- seconds and nanoseconds below one second.
pub how_much_time_from_now_lem :
    (t now : ℕ)
    → let (s, ns) = how_much_time_from_now t now in
      (ns < 1000000000)
      × (s * 1000000000 + ns ≡ 1000 * (if ltb (t - now) 100 then 100 else t - now))
unfolding how_much_time_from_now
how_much_time_from_now_lem t now = ground arith

-- After a run of the timers that began at `now` and ends at `later`, and in the constructor: the timer
-- descriptor is set to the rest of the check period from `now`, and to 100 microseconds where less is
-- left, as whole seconds and nanoseconds below one second, so it is never disarmed; a period of 2148
-- seconds or more overflows an `int`.
pub next_check_lem :
    (check now later : ℕ)
    → now + check * 1000000 ≤ long_max
    → (check < 2148
        → (s : ℕ) × (ns : ℕ) × (next_check check now later ≡ some (s, ns))
          × (ns < 1000000000)
          × (0 < s * 1000000000 + ns)
          × (s * 1000000000 + ns
              ≡ 1000
                * (if ltb (now + check * 1000000 - later) 100
                    then 100
                    else now + check * 1000000 - later)))
      × (2147 < check → next_check check now later ≡ none)
unfolding next_check
next_check_lem check now later h =
    let (below, whole) = how_much_time_from_now_lem (now + check * 1000 * 1000) later in
    let same : now + check * 1000 * 1000 ≡ now + check * 1000000 = omega arith in
    (
      λ k.
          let fits : leb (check * 1000 * 1000) int_max ≡ true = ground arith in
          let in_time : leb (now + check * 1000 * 1000) long_max ≡ true = ground arith in
          let (s, ns) = how_much_time_from_now (now + check * 1000 * 1000) later in
          let exact =
            whole ∙ ap (λ t. 1000 * (if ltb (t - later) 100 then 100 else t - later)) same in
          (s, ns, rw (fits, in_time), below, rw exact (ground arith), exact),
      λ k. let over : leb (check * 1000 * 1000) int_max ≡ false = ground arith in rw over,
    )
