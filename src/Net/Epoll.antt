-- ===== src/Net/Epoll.antt =====
-- net/Channel.h, net/Channel.cc, net/Epoll.h and net/Epoll.cc: what a channel is watched for, and the
-- calls of `epoll_ctl` that keep the kernel informed.
pub mod Interest
pub mod Wait
use carf_lib.Shared.{
  ℕ, zero, suc, ◌+◌, ◌-◌, ◌*◌, ◌/◌, ◌%◌, ◌^◌, ◌≤◌, ◌<◌, min, ◌≡◌, refl, sym, ap, ap₂, ◌∙◌, subst,
  ◌≢◌, ◌↔◌, ◌⊎◌, inl, inr, Bool, true, false, not, ◌&&◌, ◌||◌, Option, none, some, List, [], ◌∷◌,
  ◌++◌, map, append-nil, append_assoc, arith, ltb, leb, ◌==◌, if◌then◌else◌, ==_iff, Bool-cases,
  Option-cases, ◌>>=◌, >>=-eq-some, some_eq, Bytes, codes, bytes_eq, bytes_eq_iff, find_byte,
  is_space, length, get_elem?, take, drop, replicate, length-append, take-append-drop, length-take,
  length-drop, length-replicate, take-append, drop-append, take-append_le, drop-append_le, take_all,
  drop_all, drop-drop, take-drop, take-take, take-append_split, drop-append_split, take-replicate,
  drop-replicate,
}
use carf_lib.Shared.StdMap.{nat_key, lookup, assign, erase}

-- `kNew`, `kAdded` and `kDeleted`.
pub data Index : Type 0 where
  k_new k_added k_deleted : Index

-- The bits of `events`: `readEvent`, `writeEvent` and `ET`.
pub record Events : Type 0 where
  pub read_event : Bool
  pub write_event : Bool
  pub et : Bool

-- `address` tells channels apart.
pub record Channel : Type 0 where
  pub address : ℕ
  pub sockfd : ℕ
  pub events : Events
  pub index : Index

abbrev pub make : ℕ → ℕ → Channel
make address fd = record {
  address = address;
  sockfd = fd;
  events = record { read_event = false; write_event = false; et = false };
  index = k_new;
}

-- The calls of `epoll_ctl`, with the descriptor and the events.
pub data Ctl : Type 0 where
  ctl_add ctl_mod : ℕ → Events → Ctl
  ctl_del : ℕ → Ctl

-- The map `channels`, the channel that was updated, and the calls made.
pub record Updated : Type 0 where
  pub channels : List (ℕ × ℕ)
  pub channel : Channel
  pub calls : List Ctl

unfoldable pub update_known : List (ℕ × ℕ) → Channel → Index → Updated
update_known m c k_new = record { channels = assign c.sockfd c.address m; channel = c; calls = [] }
update_known m c k_added = record {
  channels = assign c.sockfd c.address m;
  channel = c;
  calls = ctl_mod c.sockfd c.events ∷ [];
}
update_known m c k_deleted = record {
  channels = erase c.sockfd (assign c.sockfd c.address m);
  channel = c;
  calls = ctl_del c.sockfd ∷ [];
}

-- `Epoll::updateChannel`.
unfoldable pub update_channel : List (ℕ × ℕ) → Channel → Updated
update_channel m c = elim (lookup c.sockfd m) [
  | some _ ↦ update_known m c c.index
  | none ↦ record {
    channels = assign c.sockfd c.address m;
    channel = record c { index = k_added };
    calls = ctl_add c.sockfd c.events ∷ [];
  }
]

-- The operations of a channel that end in `update()`.
pub data Change : Type 0 where
  enable_reading enable_writing enable_et disable_writing disable_reading disable_et disable_all :
      Change

unfoldable pub change : Channel → Change → Channel
change c enable_reading = record c { events = record c.events { read_event = true } }
change c enable_writing = record c { events = record c.events { write_event = true } }
change c enable_et = record c { events = record c.events { et = true } }
change c disable_writing = record c { events = record c.events { write_event = false } }
change c disable_reading = record c { events = record c.events { read_event = false } }
change c disable_et = record c { events = record c.events { et = false } }
change c disable_all = record c { index = k_deleted }

-- A change of a channel, with the update that it calls.
abbrev pub changed : List (ℕ × ℕ) → Channel → Change → Updated
changed m c x = update_channel m (change c x)
