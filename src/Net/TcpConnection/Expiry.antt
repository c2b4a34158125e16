-- ===== src/Net/TcpConnection/Expiry.antt =====
-- `handleTimer`: who is shut down, and who is given more time.
use carf_lib.Shared.{
  ℕ, ◌+◌, ◌≤◌, ◌<◌, ◌≡◌, ◌⊎◌, Bool, true, false, ◌||◌, none, some, arith, ltb, leb,
}
use carf_lib.Net.Buffer.{readable_bytes}
use carf_lib.Net.TcpConnection.{TcpConnection, Timer, shut_down, long_max, connection, handle_timer}

-- A connection whose last visit is `interval` or more ago and that has nothing kept to send is shut
-- down and its timer not added again; one visited more recently, or with bytes still to send, has its
-- timer added again, to expire `interval` after the last visit. Nothing else changes.
pub handle_timer_lem :
    (c : TcpConnection) (timer : Timer) (now : ℕ)
    → c.timer ≡ some timer
    → c.visited + timer.interval ≤ long_max
    → (c.visited + timer.interval ≤ now
        → readable_bytes c.write_buffer ≡ 0
        → handle_timer c now ≡ some (record c { state = shut_down }, false))
      × ((now < c.visited + timer.interval) ⊎ (0 < readable_bytes c.write_buffer)
          → handle_timer c now
            ≡ some (
              record c {
                timer =
                    some
                      (record { interval = timer.interval; expired = c.visited + timer.interval });
              },
              true,
            ))
unfolding handle_timer
handle_timer_lem c timer now e h = (
  λ due idle.
      let over : ltb now (c.visited + timer.interval) ≡ false = ground arith in
      let nothing : ltb 0 (readable_bytes c.write_buffer) ≡ false = ground arith in
      rw (e, over, nothing),
  λ more.
      let kept : (ltb now (c.visited + timer.interval) || ltb 0 (readable_bytes c.write_buffer))
          ≡ true =
        ground arith in
      let fits : leb (c.visited + timer.interval) long_max ≡ true = ground arith in
      rw (e, kept, fits),
)

-- A connection that nothing was ever read from has the largest `long` as its last visit: whenever its
-- timer runs, with an interval above 0, the new expiry overflows.
pub handle_timer-never_read :
    (et : Bool) (timer : Timer) (now : ℕ)
    → 0 < timer.interval
    → now ≤ long_max
    → handle_timer (connection et (some timer)) now ≡ none
unfolding handle_timer
handle_timer-never_read et timer now h k =
    let soon : ltb now (long_max + timer.interval) ≡ true = ground arith in
    let over : leb (long_max + timer.interval) long_max ≡ false = ground arith in rw (soon, over)
