-- ===== src/Net/TcpConnection/Watching/Steps.antt =====
-- What the operations of the channel leave of a connection that is open.
use carf_lib.Shared.{◌≡◌, refl, sym, ap, ◌∙◌, true, false, some, [], ◌∷◌}
use carf_lib.Shared.StdMap.{nat_key, lookup}
use carf_lib.Net.Buffer.{readable_bytes}
use carf_lib.Net.Epoll.{Change, enable_writing, disable_writing, disable_all, change}
use carf_lib.Net.Epoll.Interest.{watched}
use carf_lib.Net.TcpConnection.{TcpConnection}
use carf_lib.Net.TcpConnection.Watching.{Wired, operate, operate_all}
use carf_lib.Net.TcpConnection.Watching.Live.{asked, IsLive, IsShut, IsAlone, operate-Operates}

-- The connection changed, its channel not.
pub stay-IsLive :
    (w : Wired) (c : TcpConnection)
    → IsLive w
    → asked c ≡ asked w.conn
    → c.disabled ≡ false
    → (c.writing ≡ false → readable_bytes c.write_buffer ≡ 0)
    → IsLive (record w { conn = c })
stay-IsLive w c v same on kept = record {
  agrees = v.agrees;
  added = v.added;
  told = v.told;
  in_step = v.in_step ∙ sym same;
  enabled = on;
  kept = kept;
}

-- An operation that puts the channel in step with the connection.
tune-IsLive :
    (w : Wired) (c : TcpConnection) (x : Change)
    → IsLive w
    → (change w.channel x).sockfd ≡ w.channel.sockfd
    → (change w.channel x).index ≡ w.channel.index
    → (change w.channel x).events ≡ asked c
    → c.disabled ≡ false
    → (c.writing ≡ false → readable_bytes c.write_buffer ≡ 0)
    → (w' : Wired) × (operate (record w { conn = c }) x ≡ some w')
      × (w'.conn ≡ c)
      × IsLive w'
      × IsAlone w w'
tune-IsLive w c x v fd index events on kept =
    let (w', o) = operate-Operates (record w { conn = c }) x w.channel.events v.agrees v.told fd in
    let same_fd : w'.channel.sockfd ≡ w.channel.sockfd = ap (λ k. k.sockfd) o.channel ∙ fd in
    (
      w',
      o.done,
      o.same_conn,
      record {
        agrees = o.agrees;
        added = ap (λ k. k.index) o.channel ∙ index ∙ v.added;
        told =
            ap (λ f. lookup f w'.kernel) same_fd
            ∙ o.here
            ∙ ap (λ i. watched (some 0) i (change w.channel x).events (some w.channel.events))
                (index ∙ v.added)
            ∙ ap (λ k. some k.events) (sym o.channel);
        in_step = ap (λ k. k.events) o.channel ∙ events ∙ ap asked (sym o.same_conn);
        enabled = ap (λ d. d.disabled) o.same_conn ∙ on;
        kept = λ e.
            ap (λ d. readable_bytes d.write_buffer) o.same_conn
            ∙ kept (ap (λ d. d.writing) (sym o.same_conn) ∙ e);
      },
      record { same_fd = same_fd; others = o.others },
    )

-- `enableWriting` where the connection then says so.
pub enable_writing-IsLive :
    (w : Wired) (c : TcpConnection)
    → IsLive w
    → c.writing ≡ true
    → c.et ≡ w.conn.et
    → c.disabled ≡ false
    → (w' : Wired) × (operate_all (record w { conn = c }) (enable_writing ∷ []) ≡ some w')
      × (w'.conn ≡ c)
      × IsLive w'
      × IsAlone w w'
unfolding change operate_all
enable_writing-IsLive w c v on et enabled =
    let (w', done, same, u, alone) =
      tune-IsLive w c enable_writing v refl refl (rw (v.in_step) (rw (on, et))) enabled
        (λ e. absurd cc) in
    (w', rw done, same, u, alone)

pub disable_writing-IsLive :
    (w : Wired) (c : TcpConnection)
    → IsLive w
    → c.writing ≡ false
    → c.et ≡ w.conn.et
    → c.disabled ≡ false
    → readable_bytes c.write_buffer ≡ 0
    → (w' : Wired) × (operate_all (record w { conn = c }) (disable_writing ∷ []) ≡ some w')
      × (w'.conn ≡ c)
      × IsLive w'
      × IsAlone w w'
unfolding change operate_all
disable_writing-IsLive w c v off et enabled empty =
    let (w', done, same, u, alone) =
      tune-IsLive w c disable_writing v refl refl (rw (v.in_step) (rw (off, et))) enabled
        (λ e. empty) in
    (w', rw done, same, u, alone)

pub disable_all-IsShut :
    (w : Wired) (c : TcpConnection)
    → IsLive w
    → c.disabled ≡ true
    → (w' : Wired) × (operate (record w { conn = c }) disable_all ≡ some w')
      × IsShut w'
      × IsAlone w w'
unfolding change
disable_all-IsShut w c v off =
    let (w', o) =
      operate-Operates (record w { conn = c }) disable_all w.channel.events v.agrees v.told refl in
    let same_fd : w'.channel.sockfd ≡ w.channel.sockfd = ap (λ k. k.sockfd) o.channel in
    (
      w',
      o.done,
      record {
        agrees = o.agrees;
        off = ap (λ d. d.disabled) o.same_conn ∙ off;
        gone = ap (λ f. lookup f w'.kernel) same_fd ∙ o.here;
      },
      record { same_fd = same_fd; others = o.others },
    )
