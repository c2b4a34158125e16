-- ===== src/Net/TcpServer/Removal.antt =====
-- Connections that are removed: all of them, and one of them twice.
use carf_lib.Shared.{
  ℕ, zero, suc, ◌<◌, ◌≡◌, refl, sym, ap, ◌∙◌, subst, ◌≢◌, ◌⊎◌, inl, inr, true, none, some, List, [],
  ◌∷◌, arith, ltb, Option-cases, ◌>>=◌, >>=-eq-some, some_eq, length, get_elem?, replicate, set,
  get_elem?-set_self,
}
use carf_lib.Shared.StdMap.{nat_key, lookup, erase, lookup-erase}
use carf_lib.Net.TcpConnection.{TcpConnection, stop_timer}
use carf_lib.Net.TimerQueue.{add_timer_in_loop}
use carf_lib.Net.TcpServer.{
  Task, add_timer, remove_connection_in_loop, TcpServer, cancel, remove_in_loop, removed,
  perform_next, performs, step, run, destroy,
}
use carf_lib.Net.TcpServer.Numbers.{IsKept, Inv}
use carf_lib.Net.TcpServer.Steps.{remove-Inv, timer-Inv}

no_entries : (m : List (ℕ × ℕ)) → ((k : ℕ) → lookup k m ≡ none) → m ≡ []
unfolding lookup
no_entries [] h = refl
no_entries ((k, v) ∷ m) h = absurd (ground (arith, h k))

still_closed :
    (i : ℕ) (conns : List (ℕ × ℕ)) (rest : List Task)
    → ((k : ℕ) → lookup k conns ≢ none → ¬ (IsKept k (remove_connection_in_loop i ∷ rest)))
    → (k : ℕ) → lookup k (erase i conns) ≢ none
    → ¬ (IsKept k rest)
unfolding IsKept
still_closed i conns rest h k there kept =
    h k (λ e. there (ground (arith, lookup-erase i k conns)))
      ((λ same. there (ground (arith, lookup-erase i k conns))), kept)

perform_all :
    {L : Type 0} (s : TcpServer L) (tasks : List Task)
    → Inv s
    → s.tasks ≡ tasks
    → ((k : ℕ) → lookup k s.conns ≢ none → ¬ (IsKept k tasks))
    → (s' : TcpServer L) × (run s (replicate (length tasks) performs) ≡ some s') × (s'.conns ≡ [])
unfolding run step perform_next IsKept
perform_all s [] v e h = (
  s,
  refl,
  no_entries s.conns (λ k. elim (Option-cases (lookup k s.conns)) [
    | inl n ↦ n
    | inr (j, found) ↦ absurd (h k (λ n. let same = sym found ∙ n in absurd cc) tt)
  ]),
)
perform_all s (add_timer i t ∷ rest) v e h =
    let (s', done, empty) =
      perform_all (record s { tasks = rest; timers = add_timer_in_loop i t s.timers }) rest
        (timer-Inv s i t rest v e) refl h in
    (
      s',
      ap (λ ts. perform_next s ts >>= λ s1. run s1 (replicate (length rest) performs)) e ∙ done,
      empty,
    )
perform_all s (remove_connection_in_loop i ∷ rest) v e h =
    let (s1, first, w, left, behind) = remove-Inv s i rest v e in
    let (s', done, empty) = perform_all s1 rest w behind (
      subst (λ m. (k : ℕ) → lookup k m ≢ none → ¬ (IsKept k rest)) (sym left)
        (still_closed i s.conns rest h)) in
    (
      s',
      ap (λ ts. perform_next s ts >>= λ s2. run s2 (replicate (length rest) performs)) e
          ∙ (rw first done),
      empty,
    )

-- In a server whose invariant holds, once every connection in the map has been closed, so that its
-- removal is queued, the main loop's next round of tasks fails nowhere and leaves the map empty, so that
-- the destructor's assertion holds.
pub removes_all :
    {L : Type 0} (s : TcpServer L)
    → Inv s
    → ((k : ℕ) → lookup k s.conns ≢ none → ¬ (IsKept k s.tasks))
    → (s' : TcpServer L) × (run s (replicate (length s.tasks) performs) ≡ some s')
      × (s'.conns ≡ [])
      × (destroy s' ≡ some s'.pool)
unfolding destroy
removes_all s v h =
    let (s', done, empty) = perform_all s s.tasks v refl h in (s', done, empty, rw empty)

set-set : {A : Type 0} (xs : List A) (i : ℕ) (a b : A) → set (set xs i a) i b ≡ set xs i b
set-set [] i a b = refl
set-set (x ∷ xs) zero a b = refl
set-set (x ∷ xs) (suc i) a b = ap (λ l. x ∷ l) (set-set xs i a b)

erase-erase : (k : ℕ) (m : List (ℕ × ℕ)) → erase k (erase k m) ≡ erase k m
unfolding erase
erase-erase k [] = refl
erase-erase k ((j, w) ∷ m) = ground (arith, erase-erase k m)

get_elem?_below :
    {A : Type 0} (xs : List A) (i : ℕ) (a : A) → get_elem? xs i ≡ some a → i < length xs
get_elem?_below [] i a e = absurd cc
get_elem?_below (x ∷ xs) zero a e = omega arith
get_elem?_below (x ∷ xs) (suc i) a e = let h = get_elem?_below xs i a e in omega arith

stopped :
    {L : Type 0} (s : TcpServer L) (i : ℕ) (c : TcpConnection) (timers : List (ℕ × ℕ))
    → get_elem? s.objects i ≡ some c
    → remove_in_loop (removed s i c timers) i
      ≡ (cancel s.hold none timers >>= λ left. some (removed s i c left))
unfolding remove_in_loop
stopped s i c timers e =
    let there = get_elem?-set_self s.objects i (stop_timer c) (get_elem?_below s.objects i c e) in
    rw (there, set-set s.objects i (stop_timer c) (stop_timer c), erase-erase i s.conns)

-- A connection that is removed a second time: the timer is a null pointer by then, and is followed where
-- the hold time is positive; where it is not, the second removal changes nothing.
pub remove_twice :
    {L : Type 0} (s s' : TcpServer L) (i : ℕ)
    → remove_in_loop s i ≡ some s'
    → ((h : ℕ) → s.hold ≡ some h → 0 < h → remove_in_loop s' i ≡ none)
      × ((s.hold ≡ none) ⊎ (s.hold ≡ some 0) → remove_in_loop s' i ≡ some s')
unfolding remove_in_loop cancel
remove_twice s s' i e =
    let (c, found, e1) = >>=-eq-some (get_elem? s.objects i) _ e in
    let (timers, cancelled, e2) = >>=-eq-some (cancel s.hold c.timer s.timers) _ e1 in
    let again : remove_in_loop s' i
        ≡ (cancel s.hold none timers >>= λ left. some (removed s i c left)) =
      subst
        (λ t.
          remove_in_loop t i ≡ (cancel s.hold none timers >>= λ left. some (removed s i c left)))
        (some_eq e2) (stopped s i c timers found) in
    (
      λ h held late.
          let on : ltb 0 h ≡ true = ground arith in
          again ∙ ap (λ o. cancel o none timers >>= λ left. some (removed s i c left)) held ∙ rw on,
      λ off. elim off [
        | inl held ↦
            again ∙ ap (λ o. cancel o none timers >>= λ left. some (removed s i c left)) held ∙ e2
        | inr held ↦
            again ∙ ap (λ o. cancel o none timers >>= λ left. some (removed s i c left)) held ∙ e2
      ],
    )
