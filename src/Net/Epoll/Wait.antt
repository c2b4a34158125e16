-- ===== src/Net/Epoll/Wait.antt =====
-- `Epoll::epollWait` of net/Epoll.cc, whose vector of events grows, and `Channel::handleEvent` of
-- net/Channel.cc. What `epoll_wait` returns is an argument: `none` for -1, else the ready channels with
-- their events, no more than the vector has places.
use carf_lib.Shared.{
  ℕ, zero, suc, ◌*◌, ◌^◌, ◌≤◌, ◌<◌, ◌≡◌, refl, sym, ap, ◌∙◌, subst, ◌⊎◌, inl, inr, Bool, false,
  Option, none, some, List, [], ◌∷◌, arith, leb, ◌==◌, if◌then◌else◌, Bool-cases, length, take,
  length-take, take_all,
}
use native.Mathlib.Omega.{pow_step}

-- `revents`: whether a bit of `readEvent`, EPOLLIN or EPOLLPRI, and whether EPOLLOUT is set.
pub record Revents : Type 0 where
  pub read_ready : Bool
  pub write_ready : Bool

abbrev pub or_idle : {A : Type 0} → Option A → A → A
or_idle none idle = idle
or_idle (some a) idle = a

-- `handleEvent()`: what the handler that runs gives. A `std::function` that was not set is `none`.
unfoldable pub handle_event : {A : Type 0} → Revents → Option A → Option A → A → A
handle_event r handle_read handle_write idle =
    if r.read_ready
    then or_idle handle_read idle
    else if r.write_ready
    then or_idle handle_write idle
    else idle

-- The size of `revents` at first.
abbrev pub first_size : ℕ
first_size = 16

-- The active channels, and the size of `revents`.
unfoldable pub epoll_wait : {C : Type 0} → ℕ → Option (List (C × Revents)) → List (C × Revents) × ℕ
epoll_wait size none = ([], size)
epoll_wait size (some []) = ([], size)
epoll_wait size (some (e ∷ es)) = (e ∷ es, if length (e ∷ es) == size then 2 * size else size)

-- The size after `k` calls, while the same channels stay ready: the kernel fills what places there are.
unfoldable pub size_after : {C : Type 0} → ℕ → ℕ → List (C × Revents) → ℕ
size_after zero size ready = size
size_after (suc k) size ready = size_after k (epoll_wait size (some (take size ready))).1 ready

size_step :
    {C : Type 0} (size : ℕ) (ready : List (C × Revents))
    → 0 < size
    → (epoll_wait size (some (take size ready))).1
      ≡ (if leb size (length ready) then 2 * size else size)
unfolding epoll_wait
size_step zero ready h = absurd (omega arith)
size_step (suc n) [] h = let more : leb (suc n) 0 ≡ false = ground arith in rw more
size_step (suc n) (e ∷ es) h = let cut = length-take n es in ground arith

size_kept :
    {C : Type 0} (k size : ℕ) (ready : List (C × Revents))
    → 0 < size
    → length ready < size
    → size_after k size ready ≡ size
unfolding size_after
size_kept zero size ready h l = refl
size_kept (suc k) size ready h l =
    let room : leb size (length ready) ≡ false = ground arith in
    let same = size_step size ready h ∙ rw room in
    ap (λ n. size_after k n ready) same ∙ size_kept k size ready h l

double_factor : (s p : ℕ) → s * (2 * p) ≡ 2 * s * p
double_factor s p = grind arith

size_grows :
    {C : Type 0} (k size : ℕ) (ready : List (C × Revents))
    → 0 < size
    → length ready < size * 2 ^ k
    → (length ready < size_after k size ready)
      × ((size_after k size ready ≡ size) ⊎ (size_after k size ready ≤ 2 * length ready))
unfolding size_after
size_grows zero size ready h l = (omega arith, inl refl)
size_grows (suc k) size ready h l = elim (Bool-cases (leb size (length ready))) [
  | inr room ↦
      let kept = size_kept (suc k) size ready h (ground arith) in
      (subst (λ n. length ready < n) (sym kept) (ground arith), inl kept)
  | inl tight ↦
      let same = size_step size ready h ∙ rw tight in
      let fills : size ≤ length ready = ground arith in
      let (all, bound) = size_grows k (2 * size) ready (omega arith) (
        subst (λ n. length ready < n)
          (ap (λ p. size * p) (pow_step 2 k) ∙ double_factor size (2 ^ k)) l) in
      (
        subst (λ n. length ready < size_after k n ready) (sym same) all,
        subst (λ n. (size_after k n ready ≡ size) ⊎ (size_after k n ready ≤ 2 * length ready))
            (sym same) (inr (elim bound [ inl e ↦ omega (arith, fills) | inr b ↦ b ])),
      )
]

epoll_wait_all :
    {C : Type 0} (size : ℕ) (ready : List (C × Revents)) → (epoll_wait size (some ready)).0 ≡ ready
unfolding epoll_wait
epoll_wait_all size [] = refl
epoll_wait_all size (e ∷ es) = refl

-- While the same channels stay ready, their number being below the size of the vector times 2 ^ k: after
-- `k` calls the vector has a place for each of them and one more, so the next call gives them all; and
-- the vector has not grown, or has at most twice as many places as there are channels.
pub epoll_wait-gives_all :
    {C : Type 0} (k size : ℕ) (ready : List (C × Revents))
    → 0 < size
    → length ready < size * 2 ^ k
    → ((epoll_wait (size_after k size ready) (some (take (size_after k size ready) ready))).0
        ≡ ready)
      × (length ready < size_after k size ready)
      × ((size_after k size ready ≡ size) ⊎ (size_after k size ready ≤ 2 * length ready))
epoll_wait-gives_all k size ready h l =
    let (room, bound) = size_grows k size ready h l in
    let whole = take_all (size_after k size ready) ready (omega arith) in
    (
      ap (λ r. (epoll_wait (size_after k size ready) (some r)).0) whole
          ∙ epoll_wait_all (size_after k size ready) ready,
      room,
      bound,
    )
