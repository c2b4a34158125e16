-- ===== src/Net/Epoll/Interest.antt =====
-- The map of channels and the kernel's interest list.
use carf_lib.Shared.{
  ℕ, ◌≡◌, refl, ◌∙◌, subst, ◌≢◌, ◌↔◌, inl, inr, true, Option, none, some, List, [], ◌∷◌, ◌++◌,
  arith, ◌==◌, if◌then◌else◌, Bool-cases, Option-cases, ◌>>=◌, >>=-eq-some, some_eq,
}
use carf_lib.Shared.StdMap.{nat_key, lookup, assign, erase, lookup-assign, lookup-erase}
use carf_lib.Net.Epoll.{
  Index, k_new, k_added, k_deleted, Events, Channel, Ctl, ctl_add, ctl_mod, ctl_del, Updated,
  update_known, update_channel, Change, change, changed, disable_all,
}

-- What `epoll_ctl` does to the descriptors watched: adding one that is there fails, and so does
-- changing or deleting one that is not.
unfoldable pub epoll_ctl : List (ℕ × Events) → Ctl → Option (List (ℕ × Events))
epoll_ctl k (ctl_add fd e) = elim (lookup fd k) [ none ↦ some (assign fd e k) | some _ ↦ none ]
epoll_ctl k (ctl_mod fd e) = elim (lookup fd k) [ none ↦ none | some _ ↦ some (assign fd e k) ]
epoll_ctl k (ctl_del fd) = elim (lookup fd k) [ none ↦ none | some _ ↦ some (erase fd k) ]

unfoldable pub epoll_ctls : List (ℕ × Events) → List Ctl → Option (List (ℕ × Events))
epoll_ctls k [] = some k
epoll_ctls k (c ∷ rest) = epoll_ctl k c >>= λ k'. epoll_ctls k' rest

-- The map has the descriptors that the kernel watches.
abbrev pub Agrees : List (ℕ × ℕ) → List (ℕ × Events) → Type 0
Agrees m k = (fd : ℕ) → (lookup fd m ≡ none) ↔ (lookup fd k ≡ none)

-- What the kernel is to watch a descriptor for after an update of its channel: `old` is what it
-- watched it for, `known` what the map had.
abbrev pub watched : Option ℕ → Index → Events → Option Events → Option Events
watched none i e old = some e
watched (some _) k_new e old = old
watched (some _) k_added e old = some e
watched (some _) k_deleted e old = none

-- After an update of a channel for `fd`: the calls succeed, map and kernel agree, the kernel watches
-- `fd` for `now`, and every other descriptor as before.
abbrev pub Informs : List (ℕ × Events) → ℕ → Option Events → Updated → Type 0
Informs k fd now u =
    (k' : List (ℕ × Events)) × (epoll_ctls k u.calls ≡ some k')
    × Agrees u.channels k'
    × ((j : ℕ) → lookup j k' ≡ (if fd == j then now else lookup j k))

Agrees-assign :
    (m : List (ℕ × ℕ)) (k : List (ℕ × Events)) (fd a : ℕ) (e : Events)
    → Agrees m k
    → Agrees (assign fd a m) (assign fd e k)
Agrees-assign m k fd a e h j =
    rw (lookup-assign fd j a m, lookup-assign fd j e k)
      (elim (Bool-cases (fd == j)) [
        | inl same ↦ rw same (λ p. cc, λ p. cc)
        | inr other ↦ rw other (h j)
      ])

Agrees-erase :
    (m : List (ℕ × ℕ)) (k : List (ℕ × Events)) (fd : ℕ)
    → Agrees m k
    → Agrees (erase fd m) (erase fd k)
Agrees-erase m k fd h j =
    rw (lookup-erase fd j m, lookup-erase fd j k)
      (elim (Bool-cases (fd == j)) [
        | inl same ↦ rw same (λ p. refl, λ p. refl)
        | inr other ↦ rw other (h j)
      ])

pub is_some : {A : Type 0} (o : Option A) → o ≢ none → (a : A) × (o ≡ some a)
is_some none h = absurd (h refl)
is_some (some a) h = (a, refl)

-- A descriptor that is in both may be entered in the map again.
Agrees-again :
    (m : List (ℕ × ℕ)) (k : List (ℕ × Events)) (fd a : ℕ) (e : Events)
    → Agrees m k
    → lookup fd k ≡ some e
    → Agrees (assign fd a m) k
Agrees-again m k fd a e h at_k j = rw (lookup-assign fd j a m) (elim (Bool-cases (fd == j)) [
  | inl same ↦
      let here : lookup j k ≡ some e = subst (λ i. lookup i k ≡ some e) (ground arith) at_k in
      rw same (λ p. cc, λ p. cc)
  | inr other ↦ rw other (h j)
])

same_lookup :
    (k : List (ℕ × Events)) (fd : ℕ) (e : Events)
    → lookup fd k ≡ some e
    → (j : ℕ) → lookup j k ≡ (if fd == j then some e else lookup j k)
same_lookup k fd e at_k j = elim (Bool-cases (fd == j)) [
  | inl same ↦ rw same (subst (λ i. lookup i k ≡ some e) (ground arith) at_k)
  | inr other ↦ rw other
]

-- A descriptor that both have: any update of its channel.
update_known-Informs :
    (m : List (ℕ × ℕ)) (k : List (ℕ × Events)) (c : Channel) (i : Index) (a : ℕ) (e : Events)
    → Agrees m k
    → lookup c.sockfd m ≡ some a
    → lookup c.sockfd k ≡ some e
    → Informs k c.sockfd (watched (some a) i c.events (some e)) (update_known m c i)
unfolding update_known epoll_ctls epoll_ctl
update_known-Informs m k c k_new a e h at_m at_k =
    (k, refl, Agrees-again m k c.sockfd c.address e h at_k, same_lookup k c.sockfd e at_k)
update_known-Informs m k c k_added a e h at_m at_k = (
  assign c.sockfd c.events k,
  rw (at_k, epoll_ctls, epoll_ctl, update_known),
  Agrees-assign m k c.sockfd c.address c.events h,
  λ j. lookup-assign c.sockfd j c.events k,
)
update_known-Informs m k c k_deleted a e h at_m at_k = (
  erase c.sockfd k,
  rw (at_k, epoll_ctls, epoll_ctl, update_known),
  Agrees-erase (assign c.sockfd c.address m) k c.sockfd
      (Agrees-again m k c.sockfd c.address e h at_k),
  λ j. lookup-erase c.sockfd j k,
)

-- An update of a channel, in whatever state it is, where the map has the descriptors that the kernel
-- watches: every call of `epoll_ctl` that it makes succeeds and they agree afterwards. A descriptor
-- that was not watched is watched for the channel's events, whatever its index; one that was is
-- watched for them where the index is `kAdded`, no longer where it is `kDeleted`, and as before where
-- it is `kNew`; all others are watched as before.
pub update_channel-Informs :
    (m : List (ℕ × ℕ)) (k : List (ℕ × Events)) (c : Channel)
    → Agrees m k
    → Informs k c.sockfd
        (watched (lookup c.sockfd m) c.index c.events (lookup c.sockfd k))
        (update_channel m c)
unfolding update_channel epoll_ctls epoll_ctl
update_channel-Informs m k c h = elim (Option-cases (lookup c.sockfd m)) [
  | inl absent ↦
      let at_k = (h c.sockfd).0 absent in
      rw (absent, update_channel)
        (
          assign c.sockfd c.events k,
          rw (at_k, epoll_ctls, epoll_ctl),
          Agrees-assign m k c.sockfd c.address c.events h,
          λ j. lookup-assign c.sockfd j c.events k,
        )
  | inr (a, present) ↦
      let (e, at_k) = is_some (lookup c.sockfd k) (λ gone. let p = (h c.sockfd).1 gone in cc) in
      rw (present, at_k, update_channel) (update_known-Informs m k c c.index a e h present at_k)
]

-- Changes of channels, each with the update it calls, whatever state the channels are in: the map, and
-- all the calls.
unfoldable pub updates : List (ℕ × ℕ) → List (Channel × Change) → List (ℕ × ℕ) × List Ctl
updates m [] = (m, [])
updates m ((c, x) ∷ rest) =
    let u = changed m c x in let (m', calls) = updates u.channels rest in (m', u.calls ++ calls)

epoll_ctls-append :
    (k k' : List (ℕ × Events)) (xs ys : List Ctl)
    → epoll_ctls k xs ≡ some k'
    → epoll_ctls k (xs ++ ys) ≡ epoll_ctls k' ys
unfolding epoll_ctls
epoll_ctls-append k k' [] ys e = rw (some_eq e)
epoll_ctls-append k k' (x ∷ xs) ys e =
    let (j, first, later) = >>=-eq-some (epoll_ctl k x) _ e in
    rw first (epoll_ctls-append j k' xs ys later)

updates-from :
    (m : List (ℕ × ℕ)) (k : List (ℕ × Events)) (us : List (Channel × Change))
    → Agrees m k
    → (k' : List (ℕ × Events)) × (epoll_ctls k (updates m us).1 ≡ some k')
      × Agrees (updates m us).0 k'
unfolding updates
updates-from m k [] h = (k, (unfold epoll_ctls in refl), h)
updates-from m k ((c, x) ∷ rest) h =
    let (j, first, agree, _) = update_channel-Informs m k (change c x) h in
    let (k', later, done) = updates-from (changed m c x).channels j rest agree in
    (k', epoll_ctls-append k j (changed m c x).calls _ first ∙ later, done)

-- From a fresh epoll, after any changes of any channels: no call of `epoll_ctl` ever fails, and the map
-- has exactly the descriptors that the kernel watches.
pub updates-Agrees :
    (us : List (Channel × Change))
    → (k : List (ℕ × Events)) × (epoll_ctls [] (updates [] us).1 ≡ some k)
      × Agrees (updates [] us).0 k
updates-Agrees us = updates-from [] [] us (λ fd. unfold lookup in (λ p. refl, λ p. refl))

-- A channel that was deleted, and whose descriptor is not in the map, is watched again by a second
-- `disableAll`, for the events it had.
pub disable_all-again :
    (m : List (ℕ × ℕ)) (k : List (ℕ × Events)) (c : Channel)
    → Agrees m k
    → lookup c.sockfd m ≡ none
    → (k' : List (ℕ × Events)) × (epoll_ctls k (changed m c disable_all).calls ≡ some k')
      × (lookup c.sockfd k' ≡ some c.events)
unfolding change
disable_all-again m k c h absent =
    let (k', ok, _, watch) = update_channel-Informs m k (change c disable_all) h in
    let same : (c.sockfd == c.sockfd) ≡ true = ground arith in
    (k', ok, watch c.sockfd ∙ rw (same, absent))
