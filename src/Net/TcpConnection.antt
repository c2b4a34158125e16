-- ===== src/Net/TcpConnection.antt =====
-- net/TcpConnection.h and .cc: a connection's buffers, flags and timer, over the results of its
-- system calls, which are arguments. The kernel is given bytes, and gives bytes.
pub mod Sending
pub mod Receiving
pub mod Expiry
pub mod Events
pub mod Watching
use carf_lib.Shared.{
  ℕ, zero, suc, ◌+◌, ◌-◌, ◌*◌, ◌/◌, ◌%◌, ◌^◌, ◌≤◌, ◌<◌, min, ◌≡◌, refl, sym, ap, ap₂, ◌∙◌, subst,
  ◌≢◌, ◌↔◌, ◌⊎◌, inl, inr, Bool, true, false, not, ◌&&◌, ◌||◌, Option, none, some, List, [], ◌∷◌,
  ◌++◌, map, append-nil, append_assoc, arith, ltb, leb, ◌==◌, if◌then◌else◌, ==_iff, Bool-cases,
  Option-cases, ◌>>=◌, >>=-eq-some, some_eq, Bytes, codes, bytes_eq, bytes_eq_iff, find_byte,
  is_space, length, get_elem?, take, drop, replicate, length-append, take-append-drop, length-take,
  length-drop, length-replicate, take-append, drop-append, take-append_le, drop-append_le, take_all,
  drop_all, drop-drop, take-drop, take-take, take-append_split, drop-append_split, take-replicate,
  drop-replicate,
}
use carf_lib.Net.Buffer.{
  Buffer, make, contents, copy_to, readable_bytes, writable_bytes, resize, append, add_write_index,
  add_read_index,
}

pub data State : Type 0 where
  disconnected connected shut_down : State

-- `Timer`: the microseconds a connection may be idle, and the time it expires.
pub record Timer : Type 0 where
  pub interval : ℕ
  pub expired : ℕ

-- `et` is mode 2, edge triggered. `writing` is the bit EPOLLOUT of the channel's events, `disabled`
-- is set by `disableAll`. A time is in microseconds since the epoch.
pub record TcpConnection : Type 0 where
  pub et : Bool
  pub write_buffer : Buffer
  pub read_buffer : Buffer
  pub visited : ℕ
  pub state : State
  pub timer : Option Timer
  pub writing : Bool
  pub disabled : Bool

-- `numeric_limits<long>::max()`.
abbrev pub long_max : ℕ
long_max = 2 ^ 63 - 1

abbrev pub init_buf_size : ℕ
init_buf_size = 1024

abbrev pub connection : Bool → Option Timer → TcpConnection
connection et timer = record {
  et = et;
  write_buffer = make init_buf_size;
  read_buffer = make init_buf_size;
  visited = long_max;
  state = connected;
  timer = timer;
  writing = false;
  disabled = false;
}

-- What `write` returns: a count, or -1 with `errno` EAGAIN or another.
pub data Written : Type 0 where
  wrote : ℕ → Written
  again failed : Written

-- The bytes taken from what `send` was given.
abbrev pub count_of : Written → ℕ
count_of (wrote n) = n
count_of again = 0
count_of failed = 0

-- `if(nwrote<len)`: what was not written is kept, and the channel watched.
unfoldable pub keep_rest : TcpConnection → Bytes → ℕ → Option (TcpConnection × Bytes)
keep_rest c s n =
    if ltb n (length s)
    then (do
      b ← append c.write_buffer (drop n s)
      some (record c { write_buffer = b; writing = true }, take n s))
    else some (c, take n s)

-- `send(s,len)`: the connection, and the bytes that the kernel took. `write` is called only where
-- nothing is kept.
unfoldable pub send : TcpConnection → Bytes → Written → Option (TcpConnection × Bytes)
send c s r = keep_rest c s (if readable_bytes c.write_buffer == 0 then count_of r else 0)

-- `handleWrite()` in mode 1.
unfoldable pub write_once : TcpConnection → Written → TcpConnection × Bytes
write_once c (wrote n) =
    if ltb 0 n
    then (
      record c {
        write_buffer = add_read_index c.write_buffer n;
        writing = if n == readable_bytes c.write_buffer then false else c.writing;
      },
      take n (contents c.write_buffer),
    )
    else (c, [])
write_once c again = (c, [])
write_once c failed = (c, [])

-- The loop of `handleWrite()` in mode 2, on what each call of `write` returns: `none` where the loop
-- has not ended with the last of them, or the read index would get negative. An error other than
-- EAGAIN is handled as the count -1.
unfoldable pub write_loop : TcpConnection → ℕ → List Written → Option (TcpConnection × Bytes)
write_loop c to_send [] = none
write_loop c to_send (wrote n ∷ rest) =
    let c' : TcpConnection = record c { write_buffer = add_read_index c.write_buffer n } in
    let others = write_loop c' (to_send - n) rest in
    if to_send == n
    then some (c', take n (contents c.write_buffer))
    else others >>= λ (d, out). some (d, take n (contents c.write_buffer) ++ out)
write_loop c to_send (again ∷ rest) = some (record c { writing = true }, [])
write_loop c to_send (failed ∷ rest) =
    let back : Buffer = record c.write_buffer { read_index = c.write_buffer.read_index - 1 } in
    let others = write_loop (record c { write_buffer = back }) (suc to_send) rest in
    if c.write_buffer.read_index == 0 then none else others

unfoldable pub handle_write_et : TcpConnection → List Written → Option (TcpConnection × Bytes)
handle_write_et c rs = write_loop c (readable_bytes c.write_buffer) rs

-- What `read` returns: bytes, none at the end of the stream, or -1 with `errno` EAGAIN or another.
pub data Received : Type 0 where
  received : Bytes → Received
  drained broken : Received

-- Whether the close callback or the message callback runs.
pub data Outcome : Type 0 where
  closed message : TcpConnection → Outcome

abbrev pub handle_close : TcpConnection → TcpConnection
handle_close c = record c { disabled = true; state = disconnected }

-- `read` puts the bytes behind the content; a vector filled to its end is resized, and only then is
-- the write index moved.
unfoldable pub store : Buffer → Bytes → Option Buffer
store b bs =
    let b' : Buffer = record b { bytes = copy_to b.bytes b.write_index bs } in
    (if length bs == writable_bytes b then resize b' else some b') >>= λ b''.
    some (add_write_index b'' (length bs))

abbrev pub read_into : TcpConnection → Buffer → TcpConnection
read_into c b = record c { read_buffer = b }

-- `handleRead()` in mode 1, behind `visited=Timestamp::now()`.
unfoldable pub read_once : TcpConnection → Received → Option Outcome
read_once c (received []) = some (closed (handle_close c))
read_once c (received (x ∷ bs)) =
    store c.read_buffer (x ∷ bs) >>= λ b. some (message (read_into c b))
read_once c drained = some (message c)
read_once c broken = some (message c)

-- In mode 2; `none` also where the loop has not ended with the last result. An error other than EAGAIN
-- is handled as the count -1.
unfoldable pub read_loop : TcpConnection → List Received → Option Outcome
read_loop c [] = none
read_loop c (received [] ∷ rest) = some (closed (handle_close c))
read_loop c (received (x ∷ bs) ∷ rest) =
    store c.read_buffer (x ∷ bs) >>= λ b. read_loop (read_into c b) rest
read_loop c (drained ∷ rest) = some (message c)
read_loop c (broken ∷ rest) =
    let back : Buffer = record c.read_buffer { write_index = c.read_buffer.write_index - 1 } in
    let others = read_loop (read_into c back) rest in
    if c.read_buffer.write_index == 0 then none else others

unfoldable pub handle_read : TcpConnection → ℕ → List Received → Option Outcome
handle_read c now [] = none
handle_read c now (r ∷ rest) =
    let seen : TcpConnection = record c { visited = now } in
    if c.et then read_loop seen (r ∷ rest) else read_once seen r

-- `shutdownWrite()`: the condition is an assignment, `state_=kconnected`, and so always true.
abbrev pub shutdown_write : TcpConnection → TcpConnection
shutdown_write c = record c { state = shut_down }

-- `addTime`: signed overflow is undefined.
abbrev pub add_time : ℕ → ℕ → Option ℕ
add_time t d = if leb (t + d) long_max then some (t + d) else none

-- `handleTimer`: the connection, and whether its timer is added to the queue again.
unfoldable pub handle_timer : TcpConnection → ℕ → Option (TcpConnection × Bool)
handle_timer c now = elim c.timer [
  | none ↦ some (c, false)
  | some timer ↦
      if ltb now (c.visited + timer.interval) || ltb 0 (readable_bytes c.write_buffer)
      then (do
        t ← add_time c.visited timer.interval
        some (record c { timer = some (record timer { expired = t }) }, true))
      else some (shutdown_write c, false)
]

abbrev pub stop_timer : TcpConnection → TcpConnection
stop_timer c = record c { timer = none }
