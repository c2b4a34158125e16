-- ===== src/Http/Serving.antt =====
-- A connection of net/TcpConnection.cc with the message callback of http/HttpServer.cc: what one event
-- of the socket makes the server write.
pub mod Answers
pub mod Pieces
use carf_lib.Shared.{
  ℕ, zero, suc, ◌+◌, ◌-◌, ◌*◌, ◌/◌, ◌%◌, ◌^◌, ◌≤◌, ◌<◌, min, ◌≡◌, refl, sym, ap, ap₂, ◌∙◌, subst,
  ◌≢◌, ◌↔◌, ◌⊎◌, inl, inr, Bool, true, false, not, ◌&&◌, ◌||◌, Option, none, some, List, [], ◌∷◌,
  ◌++◌, map, append-nil, append_assoc, arith, ltb, leb, ◌==◌, if◌then◌else◌, ==_iff, Bool-cases,
  Option-cases, ◌>>=◌, >>=-eq-some, some_eq, one_of, one_of_lem, Bytes, codes, bytes_eq,
  bytes_eq_iff, find_byte, is_space, length, get_elem?, take, drop, replicate, length-append,
  take-append-drop, length-take, length-drop, length-replicate, take-append, drop-append,
  take-append_le, drop-append_le, take_all, drop_all, drop-drop, take-drop, take-take,
  take-append_split, drop-append_split, take-replicate, drop-replicate, set, length-set,
  get_elem?-set_self, get_elem?-set_ne, get_elem?-replicate, length-Permᴰ,
}
use carf_lib.Shared.StdMap.{bytes_key}
use carf_lib.Net.Buffer.{Buffer, IsValid, contents, writable_bytes, readable_bytes}
use carf_lib.Net.TcpConnection.{
  TcpConnection, Written, Received, State, closed, message, handle_read, read_into, send,
  shutdown_write,
}
use carf_lib.Net.TcpConnection
use carf_lib.Http.HttpContext.{HttpContext, initial}
use carf_lib.Http.HttpServer.{
  Host, Users, Event, sends, shuts_write, Handled, on_message, default_http_callback, closes,
}

-- What the callback does to its connection, in order; each call of `send` finds the next result of
-- `write`. The bytes that the kernel took come too.
unfoldable pub perform : TcpConnection → List Event → List Written → Option (TcpConnection × Bytes)
perform c [] ws = some (c, [])
perform c (shuts_write ∷ es) ws = perform (shutdown_write c) es ws
perform c (sends s ∷ es) [] = none
perform c (sends s ∷ es) (w ∷ ws) = do
  (c', out) ← send c s w
  (d, more) ← perform c' es ws
  some (d, out ++ more)

-- A connection with its context, and the users.
pub record Session : Type 0 where
  pub connection : TcpConnection
  pub context : HttpContext
  pub users : Users

abbrev pub after_message :
    Session → TcpConnection → List Written → Handled → Option (Session × Bytes)
after_message s c ws h = perform (read_into c h.input) h.events ws >>= λ (d, out).
    some (record { connection = d; context = h.context; users = h.users }, out)

-- `readCallback_` is `onMessage`, on the connection's read buffer; it runs unless the peer has closed.
unfoldable pub call_back :
    Host → Session → List Written → TcpConnection.Outcome → Option (Session × Bytes)
call_back host s ws (closed c) = some (record s { connection = c }, [])
call_back host s ws (message c) =
    on_message host s.users s.context c.read_buffer >>= after_message s c ws

-- `handleRead()` with its callback.
unfoldable pub serve : Host → Session → ℕ → List Received → List Written → Option (Session × Bytes)
serve host s now rs ws = handle_read s.connection now rs >>= call_back host s ws

-- The events of a connection's socket in order, each with its time, what `read` returns and what `write`
-- returns; what the kernel took is put together.
unfoldable pub serve_all :
    Host → Session → List (ℕ × List Received × List Written) → Option (Session × Bytes)
serve_all host s [] = some (s, [])
serve_all host s ((now, rs, ws) ∷ es) = do
  (s', out) ← serve host s now rs ws
  (s'', more) ← serve_all host s' es
  some (s'', out ++ more)
