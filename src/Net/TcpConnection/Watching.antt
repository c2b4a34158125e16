-- ===== src/Net/TcpConnection/Watching.antt =====
-- A connection with its channel and the epoll of its loop: `connectEstablished`, and the handlers of
-- net/TcpConnection.cc with the calls that they make of net/Channel.h. The kernel reports an event of
-- a descriptor only while it watches it for that event.
pub mod Live
pub mod Steps
pub mod Handlers
pub mod Reading
pub mod Runs
pub mod Established
use carf_lib.Shared.{
  ℕ, suc, ◌-◌, Bool, true, false, ◌&&◌, Option, none, some, List, [], ◌∷◌, ◌++◌, ltb, ◌==◌,
  if◌then◌else◌, ◌>>=◌, Bytes, length,
}
use carf_lib.Shared.StdMap.{nat_key, lookup}
use carf_lib.Net.Buffer.{readable_bytes}
use carf_lib.Net.Epoll.{
  Channel, Events, Change, enable_reading, enable_writing, enable_et, disable_writing, disable_all,
  changed,
}
use carf_lib.Net.Epoll.Interest.{epoll_ctls}
use carf_lib.Net.TcpConnection.{
  TcpConnection, Written, wrote, again, failed, count_of, send, write_once, handle_write_et,
  Received, Outcome, closed, message, handle_read,
}

-- A connection, its channel, the channels of the loop's epoll by their descriptors, and what the kernel
-- watches each descriptor for.
pub record Wired : Type 0 where
  pub conn : TcpConnection
  pub channel : Channel
  pub channels : List (ℕ × ℕ)
  pub kernel : List (ℕ × Events)

-- One operation of the channel: `none` where a call of `epoll_ctl` fails.
unfoldable pub operate : Wired → Change → Option Wired
operate w x =
    let u = changed w.channels w.channel x in
    epoll_ctls w.kernel u.calls >>= λ k.
    some (record w { channel = u.channel; channels = u.channels; kernel = k })

unfoldable pub operate_all : Wired → List Change → Option Wired
operate_all w [] = some w
operate_all w (x ∷ rest) = operate w x >>= λ w'. operate_all w' rest

abbrev pub established_changes : Bool → List Change
established_changes true = enable_et ∷ enable_reading ∷ []
established_changes false = enable_reading ∷ []

-- `connectEstablished()`.
unfoldable pub connect_established : Wired → Option Wired
connect_established w = operate_all w (established_changes w.conn.et)

-- The channel's operations in `send`.
abbrev pub send_changes : TcpConnection → Bytes → Written → List Change
send_changes c s r =
    if ltb (if readable_bytes c.write_buffer == 0 then count_of r else 0) (length s)
    then enable_writing ∷ []
    else []

-- In `handleWrite()`, mode 1.
abbrev pub write_once_changes : TcpConnection → Written → List Change
write_once_changes c (wrote n) =
    if ltb 0 n && (n == readable_bytes c.write_buffer) then disable_writing ∷ [] else []
write_once_changes c again = []
write_once_changes c failed = []

-- In the loop of `handleWrite()`, mode 2.
unfoldable pub write_loop_changes : ℕ → List Written → List Change
write_loop_changes to_send [] = []
write_loop_changes to_send (wrote n ∷ rest) =
    let others = write_loop_changes (to_send - n) rest in if to_send == n then [] else others
write_loop_changes to_send (again ∷ rest) = enable_writing ∷ []
write_loop_changes to_send (failed ∷ rest) = write_loop_changes (suc to_send) rest

-- `send`, with the channel.
unfoldable pub send_wired : Wired → Bytes → Written → Option (Wired × Bytes)
send_wired w s r = send w.conn s r >>= λ (c, out).
    operate_all (record w { conn = c }) (send_changes w.conn s r) >>= λ w'. some (w', out)

-- The calls of `send` that the message callback makes, each with what `write` returns.
unfoldable pub answer : Wired → List (Bytes × Written) → Option (Wired × Bytes)
answer w [] = some (w, [])
answer w ((s, r) ∷ rest) =
    send_wired w s r >>= λ (w', out). answer w' rest >>= λ (w'', more). some (w'', out ++ more)

-- `handleWrite()` in mode 1 and in mode 2.
unfoldable pub write_level : Wired → List Written → Option (Wired × Bytes)
write_level w [] = none
write_level w (r ∷ rest) =
    let (c, out) = write_once w.conn r in
    operate_all (record w { conn = c }) (write_once_changes w.conn r) >>= λ w'. some (w', out)

unfoldable pub write_edge : Wired → List Written → Option (Wired × Bytes)
write_edge w ws = handle_write_et w.conn ws >>= λ (c, out).
    operate_all (record w { conn = c }) (write_loop_changes (readable_bytes w.conn.write_buffer) ws)
    >>= λ w'. some (w', out)

abbrev pub write_wired : Wired → List Written → Option (Wired × Bytes)
write_wired w ws = if w.conn.et then write_edge w ws else write_level w ws

-- Behind the loop of `handleRead()`: `handleClose()`, or the message callback.
unfoldable pub after_read : Wired → Outcome → List (Bytes × Written) → Option (Wired × Bytes)
after_read w (closed c) answers =
    operate (record w { conn = c }) disable_all >>= λ w'. some (w', [])
after_read w (message c) answers = answer (record w { conn = c }) answers

unfoldable pub read_wired :
    Wired → ℕ → List Received → List (Bytes × Written) → Option (Wired × Bytes)
read_wired w now rs answers = handle_read w.conn now rs >>= λ o. after_read w o answers

-- What happens at the descriptor: input or the end of the stream, or room for output. `read` and `write`
-- return what is given.
pub data Happening : Type 0 where
  arrives : ℕ → List Received → List (Bytes × Written) → Happening
  has_room : List Written → Happening

unfoldable pub report : Wired → Events → Happening → Option (Wired × Bytes)
report w e (arrives now rs answers) =
    if e.read_event then read_wired w now rs answers else some (w, [])
report w e (has_room ws) = if e.write_event then write_wired w ws else some (w, [])

-- The kernel reports it where it watches the descriptor for it.
unfoldable pub happen : Wired → Happening → Option (Wired × Bytes)
happen w x = elim (lookup w.channel.sockfd w.kernel) [ none ↦ some (w, []) | some e ↦ report w e x ]

unfoldable pub happen_all : Wired → List Happening → Option (Wired × Bytes)
happen_all w [] = some (w, [])
happen_all w (x ∷ rest) =
    happen w x >>= λ (w', out). happen_all w' rest >>= λ (w'', more). some (w'', out ++ more)
