-- ===== src/Net/TcpConnection/Watching/Established.antt =====
-- A connection from `connectEstablished` to its close.
use carf_lib.Shared.{
  ℕ, ◌≡◌, refl, sym, ap, ◌∙◌, ◌⊎◌, inl, Bool, true, false, Option, none, some, List, Bytes,
}
use carf_lib.Shared.StdMap.{nat_key, lookup}
use carf_lib.Net.Buffer.{Buffer, append, contents, readable_bytes, add_read_index}
use carf_lib.Net.Epoll.{k_added, Events, Change, enable_reading, enable_et, change, update_channel}
use carf_lib.Net.Epoll.Interest.{watched}
use carf_lib.Net.TcpConnection.Watching.{Wired, operate, operate_all, Happening, happen_all}
use carf_lib.Net.TcpConnection.Watching.Live.{
  asked, IsLive, IsShut, IsAlone, IsAlone-trans, operate-Operates, channel_absent, self,
}
use carf_lib.Net.TcpConnection.Watching.{connect_established}
use carf_lib.Net.TcpConnection.{Timer, connection}
use carf_lib.Net.Epoll.{make}
use carf_lib.Net.Epoll.Interest.{Agrees, update_channel-Informs}
use carf_lib.Net.TcpConnection.Watching.Runs.{Allowed, happen_all-Ends}

-- A new connection and its channel, which the epoll of its loop does not have.
abbrev pub fresh : Bool → Option Timer → ℕ → ℕ → List (ℕ × ℕ) → List (ℕ × Events) → Wired
fresh et timer address fd channels kernel = record {
  conn = connection et timer;
  channel = make address fd;
  channels = channels;
  kernel = kernel;
}

-- The first operation of a channel that the map does not have adds its descriptor.
operate-absent :
    (w : Wired) (x : Change)
    → Agrees w.channels w.kernel
    → lookup w.channel.sockfd w.channels ≡ none
    → (change w.channel x).sockfd ≡ w.channel.sockfd
    → (w' : Wired) × (operate w x ≡ some w')
      × Agrees w'.channels w'.kernel
      × (w'.conn ≡ w.conn)
      × (w'.channel ≡ record (change w.channel x) { index = k_added })
      × (lookup w.channel.sockfd w'.kernel ≡ some (change w.channel x).events)
      × IsAlone w w'
unfolding operate update_channel
operate-absent w x h absent same =
    let c = change w.channel x in
    let missing : lookup c.sockfd w.channels ≡ none = ap (λ f. lookup f w.channels) same ∙ absent in
    let (k, ok, agree, watch) = update_channel-Informs w.channels w.kernel c h in
    let as_added = channel_absent w.channels c missing in
    (
      record w {
        channel = (update_channel w.channels c).channel;
        channels = (update_channel w.channels c).channels;
        kernel = k;
      },
      rw ok,
      agree,
      refl,
      as_added,
      watch w.channel.sockfd ∙ rw (same, self w.channel.sockfd, absent),
      record {
        same_fd = ap (λ d. d.sockfd) as_added ∙ same;
        others = λ j n. watch j ∙ rw (same, n);
      },
    )

-- `connectEstablished()` of a new connection.
connect_established-IsLive :
    (et : Bool) (timer : Option Timer) (address fd : ℕ) (m : List (ℕ × ℕ)) (k : List (ℕ × Events))
    → Agrees m k
    → lookup fd m ≡ none
    → (w : Wired) × (connect_established (fresh et timer address fd m k) ≡ some w)
      × IsLive w
      × IsAlone (fresh et timer address fd m k) w
unfolding connect_established operate_all change carf_lib.Net.Buffer.make
connect_established-IsLive false timer address fd m k h absent =
    let start = fresh false timer address fd m k in
    let (w, done, agrees, conn, channel, here, alone) =
      operate-absent start enable_reading h absent refl in
    (
      w,
      rw done,
      record {
        agrees = agrees;
        added = ap (λ c. c.index) channel;
        told =
            ap (λ f. lookup f w.kernel) alone.same_fd
            ∙ here
            ∙ ap (λ c. some c.events) (sym channel);
        in_step = ap (λ c. c.events) channel ∙ ap asked (sym conn);
        enabled = ap (λ d. d.disabled) conn;
        kept = λ e. ap (λ d. readable_bytes d.write_buffer) conn;
      },
      alone,
    )
connect_established-IsLive true timer address fd m k h absent =
    let start = fresh true timer address fd m k in
    let (u, first, agrees, conn, channel, here, alone) =
      operate-absent start enable_et h absent refl in
    let at_k = ap (λ f. lookup f u.kernel) alone.same_fd ∙ here in
    let (w, o) =
      operate-Operates u enable_reading (change start.channel enable_et).events agrees at_k refl in
    let same_fd : w.channel.sockfd ≡ u.channel.sockfd = ap (λ c. c.sockfd) o.channel in
    let index : w.channel.index ≡ k_added =
      ap (λ c. c.index) o.channel ∙ ap (λ c. c.index) channel in
    let events : w.channel.events ≡ asked start.conn =
      ap (λ c. c.events) o.channel ∙ ap (λ c. record c.events { read_event = true }) channel in
    (
      w,
      rw first (rw (o.done)),
      record {
        agrees = o.agrees;
        added = index;
        told =
            ap (λ f. lookup f w.kernel) same_fd
            ∙ o.here
            ∙ ap
                (λ i.
                  watched (some 0) i (change u.channel enable_reading).events
                    (some (change start.channel enable_et).events))
                (ap (λ c. c.index) channel)
            ∙ ap (λ c. some c.events) (sym o.channel);
        in_step = events ∙ ap asked (sym conn ∙ sym o.same_conn);
        enabled = ap (λ d. d.disabled) (o.same_conn ∙ conn);
        kept = λ e. ap (λ d. readable_bytes d.write_buffer) (o.same_conn ∙ conn);
      },
      IsAlone-trans alone (record { same_fd = same_fd; others = o.others }),
    )

-- A connection is established whose descriptor the epoll of its loop does not have, where that epoll's map
-- has just the descriptors that the kernel watches; then anything happens at the descriptor, each
-- event reaching the connection only where the kernel watches for it, and every handler that runs
-- returns. No call of `epoll_ctl` fails, all other descriptors are watched as before, and at the end
-- either the connection is open and the kernel watches its descriptor for input, for room exactly while
-- the connection says so, by edges exactly in mode 2, and for room whenever anything is kept to be
-- sent; or it is closed and the kernel no longer watches the descriptor.
pub established-Ends :
    (et : Bool) (timer : Option Timer) (address fd : ℕ) (m : List (ℕ × ℕ)) (k : List (ℕ × Events))
    (xs : List Happening)
    → Agrees m k
    → lookup fd m ≡ none
    → ((w : Wired) → connect_established (fresh et timer address fd m k) ≡ some w → Allowed w xs)
    → (w w' : Wired) × (out : Bytes) × (connect_established (fresh et timer address fd m k)
        ≡ some w)
      × (happen_all w xs ≡ some (w', out))
      × (IsLive w' ⊎ IsShut w')
      × IsAlone (fresh et timer address fd m k) w'
established-Ends et timer address fd m k xs h absent ok =
    let (w, done, live, alone) = connect_established-IsLive et timer address fd m k h absent in
    let (w', out, rest, last, apart) = happen_all-Ends w xs (inl live) (ok w done) in
    (w, w', out, done, rest, last, IsAlone-trans alone apart)
