-- ===== src/Net/TcpConnection/Watching/Live.antt =====
-- A connection that the kernel watches as its flags say.
use carf_lib.Shared.{ℕ, ◌≡◌, refl, ap, ◌∙◌, true, false, Option, none, some, List, arith, ◌==◌}
use carf_lib.Shared.StdMap.{nat_key, lookup}
use carf_lib.Net.Buffer.{readable_bytes}
use carf_lib.Net.Epoll.{
  Index, k_new, k_added, k_deleted, Channel, Events, Change, change, update_channel, update_known,
}
use carf_lib.Net.Epoll.Interest.{Agrees, update_channel-Informs, watched, is_some}
use carf_lib.Net.TcpConnection.{TcpConnection}
use carf_lib.Net.TcpConnection.Watching.{Wired, operate}

-- What a connection wants to be told: of input always, of room for output while `writing`, by edges in
-- mode 2.
abbrev pub asked : TcpConnection → Events
asked c = record { read_event = true; write_event = c.writing; et = c.et }

-- Open: the kernel watches the descriptor for just that, and while it is not watched for room nothing
-- is kept to be sent.
pub record IsLive (w : Wired) : Type 0 where
  pub agrees : Agrees w.channels w.kernel
  pub added : w.channel.index ≡ k_added
  pub told : lookup w.channel.sockfd w.kernel ≡ some w.channel.events
  pub in_step : w.channel.events ≡ asked w.conn
  pub enabled : w.conn.disabled ≡ false
  pub kept : w.conn.writing ≡ false → readable_bytes w.conn.write_buffer ≡ 0

-- Closed: the descriptor is not watched.
pub record IsShut (w : Wired) : Type 0 where
  pub agrees : Agrees w.channels w.kernel
  pub off : w.conn.disabled ≡ true
  pub gone : lookup w.channel.sockfd w.kernel ≡ none

-- The same descriptor, and every other one is watched as before.
pub record IsAlone (w w' : Wired) : Type 0 where
  pub same_fd : w'.channel.sockfd ≡ w.channel.sockfd
  pub others : (j : ℕ) → (w.channel.sockfd == j) ≡ false → lookup j w'.kernel ≡ lookup j w.kernel

pub IsAlone-refl : (w : Wired) (c : TcpConnection) → IsAlone w (record w { conn = c })
IsAlone-refl w c = record { same_fd = refl; others = λ j n. refl }

pub IsAlone-trans : {u v w : Wired} → IsAlone u v → IsAlone v w → IsAlone u w
IsAlone-trans {u} {v} {w} a b = record {
  same_fd = b.same_fd ∙ a.same_fd;
  others = λ j n. b.others j (ap (λ f. f == j) a.same_fd ∙ n) ∙ a.others j n;
}

-- The channel that an update leaves where the map has its descriptor.
update_known-channel :
    (m : List (ℕ × ℕ)) (c : Channel) (i : Index) → (update_known m c i).channel ≡ c
unfolding update_known
update_known-channel m c k_new = refl
update_known-channel m c k_added = refl
update_known-channel m c k_deleted = refl

update_channel-present :
    (m : List (ℕ × ℕ)) (c : Channel) (a : ℕ)
    → lookup c.sockfd m ≡ some a
    → (update_channel m c).channel ≡ c
unfolding update_channel
update_channel-present m c a e = rw (e, update_channel) (update_known-channel m c c.index)

pub self : (fd : ℕ) → (fd == fd) ≡ true
self fd = ground arith

watched-known :
    (a : ℕ) (i : Index) (e : Events) (old : Option Events)
    → watched (some a) i e old ≡ watched (some 0) i e old
watched-known a k_new e old = refl
watched-known a k_added e old = refl
watched-known a k_deleted e old = refl

-- An operation of the channel of a watched descriptor: it succeeds, the channel has it done, the map
-- and the kernel agree, and the kernel watches the descriptor as the channel's index then says.
pub record Operates (w : Wired) (x : Change) (now : Option Events) (w' : Wired) : Type 0 where
  pub done : operate w x ≡ some w'
  pub agrees : Agrees w'.channels w'.kernel
  pub same_conn : w'.conn ≡ w.conn
  pub channel : w'.channel ≡ change w.channel x
  pub here : lookup w.channel.sockfd w'.kernel ≡ now
  pub others : (j : ℕ) → (w.channel.sockfd == j) ≡ false → lookup j w'.kernel ≡ lookup j w.kernel

pub operate-Operates :
    (w : Wired) (x : Change) (e : Events)
    → Agrees w.channels w.kernel
    → lookup w.channel.sockfd w.kernel ≡ some e
    → (change w.channel x).sockfd ≡ w.channel.sockfd
    → (w' : Wired) × Operates w x
        (watched (some 0) (change w.channel x).index (change w.channel x).events (some e))
        w'
unfolding operate
operate-Operates w x e h at_k same =
    let c = change w.channel x in
    let fd = w.channel.sockfd in
    let (a, present) = is_some (lookup fd w.channels) (λ gone. let p = (h fd).0 gone in cc) in
    let at_c : lookup c.sockfd w.channels ≡ some a = ap (λ f. lookup f w.channels) same ∙ present in
    let (k, ok, agree, watch) = update_channel-Informs w.channels w.kernel c h in
    (
      record w {
        channel = (update_channel w.channels c).channel;
        channels = (update_channel w.channels c).channels;
        kernel = k;
      },
      record {
        done = rw ok;
        agrees = agree;
        same_conn = refl;
        channel = update_channel-present w.channels c a at_c;
        here =
            watch fd
            ∙ rw (same, self fd, present, at_k) (watched-known a c.index c.events (some e));
        others = λ j n. watch j ∙ rw (same, n);
      },
    )

pub channel_absent :
    (m : List (ℕ × ℕ)) (c : Channel)
    → lookup c.sockfd m ≡ none
    → (update_channel m c).channel ≡ record c { index = k_added }
unfolding update_channel
channel_absent m c e = rw (e, update_channel)
