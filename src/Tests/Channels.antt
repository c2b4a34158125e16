-- ===== src/Tests/Channels.antt =====
-- Channels and the kernel's interest list on short histories.
use carf_lib.Shared.{refl, inl, inr, true, false, List, [], ◌∷◌, ◌==◌, Bool-cases}
use carf_lib.Shared.StdMap.{nat_key, lookup}
use carf_lib.Net.Epoll.{Channel, Change, make, enable_reading, enable_writing, disable_all, k_added}
use carf_lib.Net.Epoll.Interest.{Agrees}

abbrev channel : Channel
channel = record (make 1 4) {
  events = record { read_event = true; write_event = false; et = false };
  index = k_added;
}

four-Agrees : Agrees ((4, 1) ∷ []) ((4, channel.events) ∷ [])
unfolding lookup
four-Agrees fd = elim (Bool-cases (4 == fd)) [
  | inl same ↦ rw same (λ p. cc, λ p. cc)
  | inr other ↦ rw other (λ p. refl, λ p. refl)
]

abbrev history : List (Channel × Change)
history =
    (make 1 4, enable_reading)
    ∷ (channel, enable_writing)
    ∷ (make 2 5, enable_reading)
    ∷ (channel, disable_all)
    ∷ []
