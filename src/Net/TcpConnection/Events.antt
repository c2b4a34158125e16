-- ===== src/Net/TcpConnection/Events.antt =====
-- A connection in mode 2 with the events of its channel: `handleEvent` of net/Channel.cc over the two
-- handlers of net/TcpConnection.cc.
use carf_lib.Shared.{
  ℕ, ◌<◌, ◌≡◌, ap, ◌∙◌, true, false, Option, some, List, [], ◌∷◌, arith, ◌==◌, ◌>>=◌, Bytes, length,
  take_all, drop_all,
}
use carf_lib.Net.Buffer.{IsValid, contents, readable_bytes, writable_bytes, add_read_index}
use carf_lib.Net.Buffer.View.{length-contents, contents-add_read_index}
use carf_lib.Net.Epoll.Wait.{Revents, handle_event}
use carf_lib.Net.TcpConnection.{
  TcpConnection, Written, wrote, Received, Outcome, message, handle_read, handle_write_et,
  write_loop,
}
use carf_lib.Net.TcpConnection.Sending.{pending, IsSending}
use carf_lib.Net.TcpConnection.Receiving.{joined, reads, handle_read_et}

-- What an event makes of the connection, and the bytes that the kernel took.
pub data Event : Type 0 where
  was_read : Outcome → Event
  was_written : TcpConnection → Bytes → Event
  was_idle : Event

unfoldable pub handle : TcpConnection → Revents → ℕ → List Received → List Written → Option Event
handle c r now rs ws =
    handle_event r (some (handle_read c now rs >>= λ o. some (was_read o)))
      (some (handle_write_et c ws >>= λ (d, out). some (was_written d out))) (some was_idle)

-- A connection in mode 2 that keeps bytes to be written, when the channel is ready: if it is ready for
-- writing only, and the kernel takes all that is kept, they are all written; but if there is input too,
-- only the read handler runs: whatever the kernel would have taken, the bytes are still kept, though the
-- edge that told of the room is over.
pub write_edge_lost :
    (c : TcpConnection) (now : ℕ) (chunks : List (ℕ × Bytes)) (ws : List Written)
    → c.et ≡ true
    → IsValid c.read_buffer
    → IsSending c
    → length (joined chunks) < writable_bytes c.read_buffer
    → ((d : TcpConnection) × (handle c
            (record { read_ready = false; write_ready = true })
            now
            []
            (wrote (readable_bytes c.write_buffer) ∷ [])
          ≡ some (was_written d (pending c)))
        × (pending d ≡ []))
      × ((d : TcpConnection) × (handle c
              (record { read_ready = true; write_ready = true })
              now
              (reads chunks)
              ws
            ≡ some (was_read (message d)))
          × (pending d ≡ pending c))
unfolding handle handle_event handle_write_et write_loop
write_edge_lost c now chunks ws et valid sending room =
    let n = readable_bytes c.write_buffer in
    let all : (n == n) ≡ true = ground arith in
    let long = length-contents c.write_buffer sending.valid in
    let whole = take_all n (pending c) (omega arith) in
    let (d, done, r) = handle_read_et c now chunks et valid room in
    (
      (
        record c { write_buffer = add_read_index c.write_buffer n },
        rw (all, whole),
        contents-add_read_index c.write_buffer n sending.valid (omega arith)
            ∙ drop_all n (pending c) (omega arith),
      ),
      (d, rw done, ap contents r.same_write),
    )
