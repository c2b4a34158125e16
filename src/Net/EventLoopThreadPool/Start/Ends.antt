-- ===== src/Net/EventLoopThreadPool/Start/Ends.antt =====
-- Every order of the threads of `start()` ends: each step lowers a measure.
use carf_lib.Shared.{
  ℕ, zero, suc, ◌+◌, ◌-◌, ◌*◌, ◌≤◌, ◌<◌, ◌≡◌, refl, sym, ap, subst, inl, inr, Option, none, some,
  List, [], ◌∷◌, ◌++◌, arith, ltb, ◌==◌, Bool-cases, >>=-eq-some, some_eq, one_of, one_of_lem,
  length, length-append, get_elem?, take, drop, set,
}
use carf_lib.Base.Thread.{
  Starting, created, Parent, Child, testing, tested, asleep, returned, counting, signalling,
  running, parent_step, child_step, signalled,
}
use carf_lib.Net.EventLoopThreadPool.{make, store_loop}
use carf_lib.Net.EventLoopThreadPool.Start.{
  Main, starting, creating, checking, sleeping, finished, System, begin, Action, continues, wakes,
  runs, stores, runs_function, after_test, in_start, store, continue_main, woken, step, run, Stage,
  Inv,
}
use carf_lib.Net.EventLoopThreadPool.Start.Steps.{begin-Inv, step-Inv}

abbrev parent_left : Parent → ℕ
parent_left testing = 3
parent_left tested = 2
parent_left asleep = 1
parent_left returned = 0

abbrev child_left : Child → ℕ
child_left counting = 4
child_left signalling = 3
child_left running = 0

abbrev threads_left : List Starting → ℕ
threads_left [] = 0
threads_left (h ∷ hs) = parent_left h.parent + child_left h.child + threads_left hs

abbrev main_left : Main → ℕ
main_left (starting i) = 1
main_left (creating i) = 3
main_left (checking i) = 2
main_left (sleeping i) = 1
main_left finished = 0

abbrev pub measure : System → ℕ
measure s =
    13 * (s.pool.num - s.started)
    + main_left s.main
    + threads_left s.threads
    + 3 * length s.unstored
    + 2 * s.signals

threads_left-set :
    (hs : List Starting) (k : ℕ) (h h' : Starting)
    → get_elem? hs k ≡ some h
    → parent_left h'.parent + child_left h'.child < parent_left h.parent + child_left h.child
    → threads_left (set hs k h') < threads_left hs
threads_left-set [] k h h' e l = cc
threads_left-set (x ∷ hs) zero h h' e l =
    let same : x ≡ h = some_eq e in
    subst (λ x. threads_left (h' ∷ hs) < threads_left (x ∷ hs)) (sym same) (omega arith)
threads_left-set (x ∷ hs) (suc k) h h' e l = omega (arith, threads_left-set hs k h h' e l)

threads_left-append : (hs : List Starting) → threads_left (hs ++ created ∷ []) ≡ threads_left hs + 7
threads_left-append [] = refl
threads_left-append (x ∷ hs) = omega (arith, threads_left-append hs)

length-removed :
    (xs : List ℕ) (k x : ℕ)
    → get_elem? xs k ≡ some x
    → suc (length (take k xs ++ drop (suc k) xs)) ≡ length xs
length-removed [] k x e = cc
length-removed (y ∷ xs) zero x e = refl
length-removed (y ∷ xs) (suc k) x e = ap suc (length-removed xs k x e)

child-lowers :
    (h h' : Starting) (c : Child)
    → h.child ≡ c
    → child_step h c ≡ some h'
    → parent_left h'.parent + child_left h'.child < parent_left h.parent + child_left c
unfolding child_step
child-lowers h h' counting at e =
    subst (λ g. parent_left g.parent + child_left g.child < parent_left h.parent + 4) (some_eq e)
      (omega arith)
child-lowers h h' signalling at e =
    subst (λ g. parent_left g.parent + child_left g.child < parent_left h.parent + 3) (some_eq e)
      (wakes_up h.parent)
  where
    wakes_up : (p : Parent) → parent_left (signalled p) + 0 < parent_left p + 3
    wakes_up testing = omega arith
    wakes_up tested = omega arith
    wakes_up asleep = omega arith
    wakes_up returned = omega arith
child-lowers h h' running at e = cc

parent-lowers :
    (h h' : Starting) (p : Parent)
    → parent_step h p ≡ some h'
    → parent_left h'.parent + child_left h'.child < parent_left p + child_left h.child
unfolding parent_step
parent-lowers h h' testing e =
    subst (λ g. parent_left g.parent + child_left g.child < 3 + child_left h.child) (some_eq e)
      (elim (Bool-cases (h.cond_num == 0)) [
        | inl none_yet ↦ rw none_yet (omega arith)
        | inr counted ↦ rw counted (omega arith)
      ])
parent-lowers h h' tested e =
    subst (λ g. parent_left g.parent + child_left g.child < 2 + child_left h.child) (some_eq e)
      (omega arith)
parent-lowers h h' asleep e = cc
parent-lowers h h' returned e = cc

thread-lowers :
    (s : System) (k : ℕ) (h h' : Starting)
    → get_elem? s.threads k ≡ some h
    → parent_left h'.parent + child_left h'.child < parent_left h.parent + child_left h.child
    → measure (record s { threads = set s.threads k h' }) < measure s
thread-lowers s k h h' found less = omega (arith, threads_left-set s.threads k h h' found less)

in_start-lowers :
    (s s' : System) (i : ℕ) (h : Starting) (p : Parent)
    → s.main ≡ creating i
    → get_elem? s.threads i ≡ some h
    → h.parent ≡ p
    → in_start s i h p ≡ some s'
    → measure s' < measure s
unfolding in_start
in_start-lowers s s' i h returned m found at e =
    let rank : main_left s.main ≡ 3 = ap main_left m in
    subst (λ t. measure t < measure s) (some_eq e) (omega arith)
in_start-lowers s s' i h testing m found at e =
    let (h', took, done) = >>=-eq-some (parent_step h testing) _ e in
    let less = parent-lowers h h' testing took in
    let rank : parent_left h.parent ≡ 3 = ap parent_left at in
    subst (λ t. measure t < measure s) (some_eq done)
      (thread-lowers s i h h' found (omega (arith, less)))
in_start-lowers s s' i h tested m found at e =
    let (h', took, done) = >>=-eq-some (parent_step h tested) _ e in
    let less = parent-lowers h h' tested took in
    let rank : parent_left h.parent ≡ 2 = ap parent_left at in
    subst (λ t. measure t < measure s) (some_eq done)
      (thread-lowers s i h h' found (omega (arith, less)))
in_start-lowers s s' i h asleep m found at e = cc

after_test-lowers :
    (s s' : System) (i : ℕ) (r : Option (Option ℕ))
    → s.main ≡ checking i
    → after_test s i r ≡ some s'
    → measure s' < measure s
after_test-lowers s s' i none m e = cc
after_test-lowers s s' i (some none) m e =
    let rank : main_left s.main ≡ 2 = ap main_left m in
    subst (λ t. measure t < measure s) (some_eq e) (omega arith)
after_test-lowers s s' i (some (some l)) m e =
    let rank : main_left s.main ≡ 2 = ap main_left m in
    subst (λ t. measure t < measure s) (some_eq e) (omega arith)

continues-lowers :
    (num : ℕ) (s s' : System) (m : Main)
    → Inv num s
    → s.main ≡ m
    → continue_main s m ≡ some s'
    → measure s' < measure s
unfolding continue_main
continues-lowers num s s' (starting i) v at e =
    let st = subst (λ m. Stage m num s.started s.pool.index s.signals) at v.stage in
    let rank : main_left s.main ≡ 1 = ap main_left at in
    elim (Bool-cases (ltb i s.pool.num)) [
      | inl more ↦
          let room : s.started < s.pool.num = ground arith in
          let longer = length-append s.unstored (s.started ∷ []) in
          let heavier = threads_left-append s.threads in
          subst (λ t. measure t < measure s) (some_eq (rw more at e))
            (omega (arith, room, longer, heavier))
      | inr over ↦ subst (λ t. measure t < measure s) (some_eq (rw over at e)) (omega arith)
    ]
continues-lowers num s s' (creating i) v at e =
    let (h, found, e') = >>=-eq-some (get_elem? s.threads i) _ e in
    in_start-lowers s s' i h h.parent at found refl e'
continues-lowers num s s' (checking i) v at e =
    after_test-lowers s s' i (get_elem? s.pool.loops i) at e
continues-lowers num s s' (sleeping i) v at e = cc
continues-lowers num s s' finished v at e = cc

woken-left : (m : Main) → main_left (woken m) ≤ suc (main_left m)
woken-left (starting i) = omega arith
woken-left (creating i) = omega arith
woken-left (checking i) = omega arith
woken-left (sleeping i) = omega arith
woken-left finished = omega arith

step-lowers :
    (num : ℕ) (s s' : System) (a : Action) → Inv num s → step s a ≡ some s' → measure s' < measure s
unfolding step store store_loop
step-lowers num s s' continues v e = continues-lowers num s s' s.main v refl e
step-lowers num s s' (runs k) v e =
    let (h, found, e') = >>=-eq-some (get_elem? s.threads k) _ e in
    let (h', took, done) = >>=-eq-some (child_step h h.child) _ e' in
    subst (λ t. measure t < measure s) (some_eq done)
      (thread-lowers s k h h' found (child-lowers h h' h.child refl took))
step-lowers num s s' (stores k) v e =
    let (l, found, e') = >>=-eq-some (get_elem? s.unstored k) _ e in
    let (h, _, e'') = >>=-eq-some (get_elem? s.threads l) _ e' in
    let shorter = length-removed s.unstored k l found in
    elim (Bool-cases (runs_function h.child)) [
      | inl ready ↦ subst (λ t. measure t < measure s) (some_eq (rw ready at e'')) (omega arith)
      | inr early ↦ absurd (let no = rw early at e'' in cc)
    ]
step-lowers num s s' wakes v e =
    let (n, due, done) = >>=-eq-some (one_of s.signals) _ e in
    let fewer = one_of_lem s.signals n due in
    subst (λ t. measure t < measure s) (some_eq done) (omega (arith, woken-left s.main))

run-lowers :
    (num : ℕ) (s s' : System) (schedule : List Action)
    → Inv num s
    → run s schedule ≡ some s'
    → length schedule + measure s' ≤ measure s
unfolding run
run-lowers num s s' [] v e = subst (λ t. 0 + measure t ≤ measure s) (some_eq e) (omega arith)
run-lowers num s s' (a ∷ rest) v e =
    let (t, first, later) = >>=-eq-some (step s a) _ e in
    omega (
      arith,
      step-lowers num s t a v first,
      run-lowers num t s' rest (step-Inv num s t a v first) later,
    )

-- Thirteen steps for each thread, and one.
pub run-begin_bound :
    (num : ℕ) (s : System) (schedule : List Action)
    → run (begin num) schedule ≡ some s
    → length schedule ≤ 13 * num + 1
unfolding make
run-begin_bound num s schedule e =
    let bound = run-lowers num (begin num) s schedule (begin-Inv num) e in omega arith
