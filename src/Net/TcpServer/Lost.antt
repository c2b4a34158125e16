-- ===== src/Net/TcpServer/Lost.antt =====
-- Two timers that expire in the same microsecond.
use carf_lib.Shared.{ℕ, ◌<◌, ◌≡◌, ap, true, none, some, List, arith, ltb, get_elem?}
use carf_lib.Shared.StdMap.{nat_key, lookup, erase, lookup-erase}
use carf_lib.Net.TcpConnection.{TcpConnection, Timer}
use carf_lib.Net.TimerQueue.{add_timer_in_loop, delete_timer}
use carf_lib.Net.TcpServer.{
  add_timer, remove_connection_in_loop, TcpServer, cancel, remove_in_loop, removed, perform,
  set_conn_hold_seconds,
}
use carf_lib.Shared.StdMap.{lookup-insert}
use carf_lib.Shared.StdMap.Sorted.{IsSorted, insert-IsSorted, insert_old}

-- Of two timers with the same expiry the queue takes the first that is added and drops the second; and
-- when the connection of the second is removed, the entry of the first is erased.
pub same_expiry_lost :
    {L : Type 0} (s : TcpServer L) (i j h : ℕ) (a b : Timer) (d : TcpConnection)
    → IsSorted s.timers
    → lookup a.expired s.timers ≡ none
    → b.expired ≡ a.expired
    → d.timer ≡ some b
    → get_elem? s.objects j ≡ some d
    → s.hold ≡ some h
    → 0 < h
    → let s1 : TcpServer L = record s { timers = add_timer_in_loop i a s.timers } in
      (lookup a.expired s1.timers ≡ some i)
      × (perform s1 (add_timer j b) ≡ some s1)
      × ((left : List (ℕ × ℕ)) × (perform s1 (remove_connection_in_loop j)
            ≡ some (removed s1 j d left))
          × (lookup a.expired left ≡ none))
unfolding remove_in_loop cancel delete_timer
same_expiry_lost s i j h a b d sorted absent same timed found held late =
    let m : List (ℕ × ℕ) = add_timer_in_loop i a s.timers in
    let there : lookup a.expired m ≡ some i =
      ground (arith, lookup-insert a.expired a.expired i s.timers absent) in
    let gone : lookup a.expired (erase a.expired m) ≡ none =
      ground (arith, lookup-erase a.expired a.expired m) in
    let on : ltb 0 h ≡ true = ground arith in
    let cancelled : cancel s.hold d.timer m ≡ some (erase a.expired m) =
      rw (held, on, timed, same, there, delete_timer) (ap (λ t. some (erase t m)) same) in
    (
      there,
      ap (λ ts. some (record s { timers = ts }))
          (insert_old b.expired j i m (insert-IsSorted a.expired i s.timers sorted)
            (rw same there)),
      (erase a.expired m, rw (found, cancelled), gone),
    )

-- A connection that was accepted without a timer, as with a negative hold time, has a null pointer
-- followed when it is removed after a positive hold time was set.
pub hold_set_late :
    {L : Type 0} (s : TcpServer L) (i seconds : ℕ) (c : TcpConnection)
    → get_elem? s.objects i ≡ some c
    → c.timer ≡ none
    → 0 < seconds
    → remove_in_loop (set_conn_hold_seconds s seconds) i ≡ none
unfolding remove_in_loop cancel set_conn_hold_seconds
hold_set_late s i seconds c found untimed late =
    let on : ltb 0 seconds ≡ true = ground arith in rw (found, on, untimed)
