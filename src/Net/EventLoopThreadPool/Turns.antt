-- ===== src/Net/EventLoopThreadPool/Turns.antt =====
-- `getNextLoop` takes the loops in turn.
use carf_lib.Shared.{
  ℕ, zero, suc, ◌%◌, ◌<◌, ◌≡◌, refl, sym, ap, ap₂, ◌∙◌, true, false, Option, none, some, List, [],
  ◌∷◌, map, arith, ◌==◌, ◌>>=◌, length, get_elem?, replicate,
}
use native.Mathlib.Nat.{suc-mod, mod-lt}
use carf_lib.Net.EventLoopThreadPool.{EventLoopThreadPool, get_next_loop, next_index}

-- The pointers that `n` calls return, in order, and the pool behind.
unfoldable pub next_loops :
    {L : Type 0} → EventLoopThreadPool L → ℕ → Option (List (Option L) × EventLoopThreadPool L)
next_loops p zero = some ([], p)
next_loops p (suc n) =
    get_next_loop p >>= λ (l, p'). next_loops p' n >>= λ (ls, q). some (l ∷ ls, q)

-- The loops in turn, `n` of them from the one with number `i % num` on.
abbrev pub turns : {L : Type 0} → List (Option L) → ℕ → ℕ → ℕ → List (Option (Option L))
turns loops num i zero = []
turns loops num i (suc n) = get_elem? loops (i % num) ∷ turns loops num (suc i) n

get_elem?_total :
    {A : Type 0} (xs : List A) (i : ℕ) → i < length xs → (a : A) × (get_elem? xs i ≡ some a)
get_elem?_total [] i h = absurd (omega arith)
get_elem?_total (x ∷ xs) zero h = (x, refl)
get_elem?_total (x ∷ xs) (suc i) h = get_elem?_total xs i (omega arith)

-- One call, where the next index is `i`.
get_next_loop_lem :
    {L : Type 0} (p : EventLoopThreadPool L) (i : ℕ) (l : Option L)
    → 0 < p.num
    → next_index p.current_loop p.num ≡ i
    → get_elem? p.loops i ≡ some l
    → get_next_loop p ≡ some (l, record p { current_loop = some i })
unfolding get_next_loop
get_next_loop_lem p i l h at found =
    let some_loops : (p.num == 0) ≡ false = ground arith in rw (some_loops, at, found)

next_loops-turns :
    {L : Type 0} (p : EventLoopThreadPool L) (i n : ℕ)
    → 0 < p.num
    → length p.loops ≡ p.num
    → next_index p.current_loop p.num ≡ i % p.num
    → (ls : List (Option L)) × (q : EventLoopThreadPool L) × (next_loops p n ≡ some (ls, q))
      × (map some ls ≡ turns p.loops p.num i n)
unfolding next_loops
next_loops-turns p i zero h full at = ([], p, refl, refl)
next_loops-turns p i (suc n) h full at =
    let (l, found) = get_elem?_total p.loops (i % p.num) (omega (arith, mod-lt i h)) in
    let called = get_next_loop_lem p (i % p.num) l h at found in
    let (ls, q, rest, same) =
      next_loops-turns (record p { current_loop = some (i % p.num) }) (suc i) n h full
        (unfold next_index in sym (suc-mod i p.num)) in
    (l ∷ ls, q, rw (called, rest), ap₂ ◌∷◌ (sym found) same)

next_loops-single :
    {L : Type 0} (p : EventLoopThreadPool L) (n : ℕ)
    → p.num ≡ 0
    → next_loops p n ≡ some (replicate n (some p.loop), p)
unfolding next_loops get_next_loop
next_loops-single p zero e = refl
next_loops-single p (suc n) e =
    let no_loops : (p.num == 0) ≡ true = ground arith in rw (no_loops, next_loops-single p n e)

-- `n` calls of `getNextLoop` on a pool that was never asked: with no threads they all return the loop of
-- the server, and with threads, whose slots are all there, they return the slots in turn, from the
-- first on and round again, so that each loop gets every `num`-th connection.
pub next_loops_lem :
    {L : Type 0} (p : EventLoopThreadPool L) (n : ℕ)
    → p.current_loop ≡ none
    → length p.loops ≡ p.num
    → (p.num ≡ 0 → next_loops p n ≡ some (replicate n (some p.loop), p))
      × (0 < p.num
          → (ls : List (Option L)) × (q : EventLoopThreadPool L) × (next_loops p n ≡ some (ls, q))
            × (map some ls ≡ turns p.loops p.num 0 n))
next_loops_lem p n e full = (
  next_loops-single p n,
  λ h. next_loops-turns p 0 n h full (ap (λ c. next_index c p.num) e ∙ (unfold next_index in refl)),
)
