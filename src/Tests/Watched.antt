-- ===== src/Tests/Watched.antt =====
-- A connection and the epoll of its loop on a short history.
use carf_lib.Shared.{
  ◌≡◌, refl, sym, ◌∙◌, subst, ◌⊎◌, Bool, true, false, none, some, List, [], ◌∷◌, some_eq, Bytes,
  replicate,
}
use carf_lib.Shared.StdMap.{nat_key, lookup, assign}
use carf_lib.Net.Buffer.{Buffer, make, copy_to, append, grow, readable_bytes}
use carf_lib.Net.Epoll.{k_added, Events, change, update_channel, update_known}
use carf_lib.Net.Epoll.Interest.{Agrees, epoll_ctls, epoll_ctl}
use carf_lib.Net.TcpConnection.{
  TcpConnection, wrote, connection, send, keep_rest, handle_read, read_once, store, write_once,
  received,
}
use carf_lib.Net.TcpConnection.Watching.{
  Wired, operate, operate_all, connect_established, send_wired, answer, write_level, after_read,
  read_wired, Happening, arrives, has_room, report, happen, happen_all,
}
use carf_lib.Net.TcpConnection.Watching.Live.{IsLive, IsShut, IsAlone}
use carf_lib.Net.TcpConnection.Watching.Handlers.{Answers}
use carf_lib.Net.TcpConnection.Watching.Runs.{Allowed}
use carf_lib.Net.TcpConnection.Watching.Established.{fresh, established-Ends}

abbrev reading : Bool → Events
reading writes = record { read_event = true; write_event = writes; et = false }

abbrev wired : TcpConnection → Bool → Wired
wired c writes = record {
  conn = c;
  channel = record { address = 1; sockfd = 4; events = reading writes; index = k_added };
  channels = (4, 1) ∷ [];
  kernel = (4, reading writes) ∷ [];
}

abbrev has_read : TcpConnection
has_read = record (connection false none) {
  visited = 7;
  read_buffer = record {
    bytes = copy_to (replicate 1024 0) 0 (5 ∷ 6 ∷ []);
    read_index = 0;
    write_index = 2;
  };
  write_buffer = record {
    bytes = copy_to (replicate 1024 0) 0 (2 ∷ 3 ∷ []);
    read_index = 0;
    write_index = 2;
  };
  writing = true;
}

abbrev history : List Happening
history =
    arrives 7 (received (5 ∷ 6 ∷ []) ∷ []) ((1 ∷ 2 ∷ 3 ∷ [], wrote 1) ∷ [])
    ∷ has_room (wrote 1 ∷ [])
    ∷ arrives 9 (received [] ∷ []) []
    ∷ []

begins :
    connect_established (fresh false none 1 4 [] []) ≡ some (wired (connection false none) false)
unfolding connect_established operate_all operate change update_channel lookup epoll_ctls epoll_ctl
    assign
begins = refl

answers_it :
    happen
      (wired (connection false none) false)
      (arrives 7 (received (5 ∷ 6 ∷ []) ∷ []) ((1 ∷ 2 ∷ 3 ∷ [], wrote 1) ∷ []))
    ≡ some (wired has_read true, 1 ∷ [])
unfolding happen lookup report read_wired handle_read read_once store make after_read answer
    send_wired send keep_rest append operate_all operate epoll_ctls copy_to grow epoll_ctl change
    update_channel update_known assign
answers_it = refl

abbrev has_written : TcpConnection
has_written = record has_read { write_buffer = record has_read.write_buffer { read_index = 1 } }

writes_more :
    happen (wired has_read true) (has_room (wrote 1 ∷ [])) ≡ some (wired has_written true, 2 ∷ [])
unfolding happen lookup report write_level write_once operate_all copy_to
    carf_lib.Net.Buffer.contents
writes_more = refl

allowed : Allowed (wired (connection false none) false) history
unfolding Allowed Answers handle_read read_once store make send keep_rest append grow copy_to
allowed = (
  λ on. (record has_read { visited = 7 }, 1 ∷ [], refl, tt),
  λ w out e.
      subst (λ p. Allowed p.0 (has_room (wrote 1 ∷ []) ∷ arrives 9 (received [] ∷ []) [] ∷ []))
        (some_eq (sym answers_it ∙ e))
        (
          (λ on waits edge. absurd cc),
          λ w' out' e'.
              subst (λ p. Allowed p.0 (arrives 9 (received [] ∷ []) [] ∷ []))
                (some_eq (sym writes_more ∙ e')) ((λ on. tt), λ _ _ _. tt),
        ),
)

nothing_Agrees : Agrees [] []
nothing_Agrees fd = (λ p. unfold lookup in refl, λ p. unfold lookup in refl)

established-Ends_example :
    (w w' : Wired) × (out : Bytes) × (connect_established (fresh false none 1 4 [] []) ≡ some w)
    × (happen_all w history ≡ some (w', out))
    × (IsLive w' ⊎ IsShut w')
    × IsAlone (fresh false none 1 4 [] []) w'
established-Ends_example =
    established-Ends false none 1 4 [] [] history nothing_Agrees (unfold lookup in refl)
      (λ w e. subst (λ v. Allowed v history) (some_eq (sym begins ∙ e)) allowed)
