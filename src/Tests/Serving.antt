-- ===== src/Tests/Serving.antt =====
-- A request in two pieces on a connection, and the events of channels.
use carf_lib.Shared.{
  ℕ, ◌*◌, ◌≤◌, ◌<◌, ◌≡◌, refl, sym, ap, ◌∙◌, subst, ◌⊎◌, inr, true, false, none, some, List, [],
  ◌∷◌, ◌++◌, arith, some_eq, Bytes, bytes_eq, length, take, drop, replicate, length-replicate,
}
use carf_lib.Shared.StdMap.{bytes_key}
use carf_lib.Net.Buffer.{IsValid, contents, make, readable_bytes}
use carf_lib.Net.TcpConnection.{TcpConnection, wrote, message, connection}
use carf_lib.Net.TcpConnection.Sending.{IsSending, pending}
use carf_lib.Net.TcpConnection.Receiving.{reads}
use carf_lib.Net.TcpConnection.Events.{write_edge_lost, was_written, was_read}
use carf_lib.Net.TcpConnection.Events
use carf_lib.Net.Epoll.Wait.{Revents, epoll_wait, size_after, first_size, epoll_wait-gives_all}
use carf_lib.Http.HttpRequest.{method_of}
use carf_lib.Http.HttpResponse.Text.{response_text}
use carf_lib.Http.HttpContext.{initial}
use carf_lib.Http.HttpContext.RoundTrip.{render}
use carf_lib.Http.Serving.{Session, serve}
use carf_lib.Http.Serving.Answers.{Replies}
use carf_lib.Http.Serving.Pieces.{AllFit, arrivals, serve_all-render}
use carf_lib.Net.Buffer.Grow.{length-copy_to}
use carf_lib.Net.Buffer.{copy_to, writable_bytes}
use carf_lib.Net.TcpConnection.Receiving.{joined}
use carf_lib.Http.Serving.{serve_all}
use carf_lib.Tests.Samples.{get_head, get_head-IsPrintable, host, answer, answered}
use carf_lib.Net.TcpConnection.{handle_read, read_loop, store}
use carf_lib.Http.Serving.{call_back, perform}
use carf_lib.Http.HttpServer.{on_message, after_parse}
use carf_lib.Http.HttpContext.{parse_request, parse_loop, pass, is_got_all}
use carf_lib.Net.Buffer.{find_crlf}

abbrev fresh : TcpConnection
fresh = connection true none

fresh-IsValid : IsValid (make 1024)
unfolding make
fresh-IsValid = omega (arith, length-replicate {A = ℕ} 1024 0)

fresh-IsSending : IsSending fresh
unfolding make
fresh-IsSending = record { valid = fresh-IsValid; watched = λ e. refl }

abbrev session : Session
session = record { connection = fresh; context = initial; users = [] }

-- The head, cut behind its first byte.
abbrev head_rest : List (ℕ × Bytes)
head_rest = (b'E', drop 2 (render get_head [])) ∷ []

abbrev waiting : Session
waiting = record session {
  connection = record fresh {
    visited = 7;
    read_buffer = record {
      bytes = copy_to (replicate 1024 0) 0 (b'G' ∷ []);
      read_index = 0;
      write_index = 1;
    };
  };
}

first_served : serve host session 7 (reads ((b'G', []) ∷ [])) [] ≡ some (waiting, [])
unfolding serve handle_read read_loop store make call_back on_message after_parse parse_request
    parse_loop pass find_crlf copy_to is_got_all perform
first_served = refl

fits_first : AllFit host session ((7, (b'G', []) ∷ []) ∷ []) head_rest
unfolding AllFit make
fits_first = (
  omega (arith, length-replicate {A = ℕ} 1024 0),
  λ s' e.
      let same = ap (λ x. x.0) (some_eq (sym first_served ∙ e)) in
      subst (λ s. length (joined head_rest) < writable_bytes s.connection.read_buffer) same
        (omega (
          arith,
          length-copy_to (replicate 1024 0) 0 (b'G' ∷ []),
          length-replicate {A = ℕ} 1024 0,
        )),
)

serve_all-render_example :
    (s' : Session) × (out : Bytes) × (serve_all host session
        (arrivals ((7, (b'G', []) ∷ []) ∷ []) (8, head_rest, wrote 3))
      ≡ some (s', out))
    × Replies s' [] (pending fresh ++ response_text answer) [] out
unfolding make method_of bytes_eq contents
serve_all-render_example =
    serve_all-render host session [] ((7, (b'G', []) ∷ []) ∷ []) 8 head_rest (wrote 3) get_head []
      answer refl fresh-IsValid refl refl fresh-IsSending fits_first refl (omega arith)
      get_head-IsPrintable (λ e. cc) answered (omega arith) (omega arith)
      (inr (refl, omega (arith, length-replicate {A = ℕ} 1024 0)))

abbrev kept : TcpConnection
kept = record fresh {
  write_buffer = record { bytes = 5 ∷ 6 ∷ []; read_index = 0; write_index = 2 };
  writing = true;
}

kept-IsSending : IsSending kept
kept-IsSending = record { valid = omega arith; watched = λ e. cc }

write_edge_lost_example :
    ((d : TcpConnection) × (Events.handle kept
          (record { read_ready = false; write_ready = true })
          7
          []
          (wrote (readable_bytes kept.write_buffer) ∷ [])
        ≡ some (was_written d (pending kept)))
      × (pending d ≡ []))
    × ((d : TcpConnection) × (Events.handle kept
            (record { read_ready = true; write_ready = true })
            7
            (reads ((1, []) ∷ []))
            (wrote 2 ∷ [])
          ≡ some (was_read (message d)))
        × (pending d ≡ pending kept))
unfolding make
write_edge_lost_example =
    write_edge_lost kept 7 ((1, []) ∷ []) (wrote 2 ∷ []) refl fresh-IsValid kept-IsSending
      (omega (arith, length-replicate {A = ℕ} 1024 0))

-- Twenty channels, numbered alike, with input.
abbrev ready : List (ℕ × Revents)
ready = replicate 20 (3, record { read_ready = true; write_ready = false })

epoll_wait-gives_all_example :
    ((epoll_wait
        (size_after 1 first_size ready)
        (some (take (size_after 1 first_size ready) ready))).0
      ≡ ready)
    × (length ready < size_after 1 first_size ready)
    × ((size_after 1 first_size ready ≡ first_size)
        ⊎ (size_after 1 first_size ready ≤ 2 * length ready))
epoll_wait-gives_all_example = epoll_wait-gives_all 1 first_size ready (omega arith) (omega arith)
