-- ===== src/Net/EventLoopThreadPool/Start/Steps.antt =====
-- Every step keeps the invariant of `start()`, and what follows when it returns or sleeps.
use carf_lib.Shared.{
  ℕ, zero, suc, ◌<◌, ◌≡◌, refl, sym, ap, ◌∙◌, subst, inl, inr, true, false, none, some, List, [],
  ◌∷◌, ◌++◌, arith, ltb, ◌==◌, if◌then◌else◌, Bool-cases, >>=-eq-some, some_eq, one_of, one_of_lem,
  length, length-append, get_elem?, replicate, length-replicate, set, length-set,
}
use carf_lib.Base.Thread.{
  Starting, created, Parent, testing, tested, asleep, returned, parent_step, child_step,
}
use carf_lib.Net.EventLoopThreadPool.{make}
use carf_lib.Net.EventLoopThreadPool.Start.Stores.{stores-Inv}
use carf_lib.Net.EventLoopThreadPool.Start.{
  Main, starting, creating, checking, sleeping, finished, System, begin, Action, continues, wakes,
  runs, stores, runs_function, in_start, store, continue_main, woken, step, run, place, Stage, Inv,
}

pub begin-Inv : (num : ℕ) → Inv num (begin num)
unfolding make
begin-Inv num = record {
  same_num = refl;
  sized = length-replicate num none;
  places = at_start num;
  behind = refl;
  counted = refl;
  stage = omega arith;
}
  where
    at_start : (num i : ℕ) → get_elem? (replicate num none) i ≡ place num 0 i
    at_start zero i = ground arith
    at_start (suc num) zero = ground arith
    at_start (suc num) (suc i) = at_start num i ∙ ground arith

wakes-Inv :
    (num : ℕ) (s : System) (n : ℕ)
    → Inv num s
    → s.signals ≡ suc n
    → Inv num (record s { main = woken s.main; signals = n })
wakes-Inv num s n v e = record {
  same_num = v.same_num;
  sized = v.sized;
  places = v.places;
  behind = v.behind;
  counted = v.counted;
  stage = still s.main v.stage;
}
  where
    still :
        (m : Main)
        → Stage m num s.started s.pool.index s.signals
        → Stage (woken m) num s.started s.pool.index n
    still (starting i) h = h
    still (creating i) h = h
    still (checking i) h = h
    still (sleeping i) h = (h.0, h.1, h.2, h.3)
    still finished h = h

threads-Inv :
    (num : ℕ) (s : System) (k : ℕ) (h : Starting)
    → Inv num s
    → Inv num (record s { threads = set s.threads k h })
threads-Inv num s k h v = record {
  same_num = v.same_num;
  sized = v.sized;
  places = v.places;
  behind = v.behind;
  counted = length-set s.threads k h ∙ v.counted;
  stage = v.stage;
}

in_start-Inv :
    (num : ℕ) (s s' : System) (i : ℕ) (h : Starting) (p : Parent)
    → Inv num s
    → s.main ≡ creating i
    → in_start s i h p ≡ some s'
    → Inv num s'
unfolding in_start
in_start-Inv num s s' i h returned v at e = subst (Inv num) (some_eq e) (record {
  same_num = v.same_num;
  sized = v.sized;
  places = v.places;
  behind = v.behind;
  counted = v.counted;
  stage = subst (λ m. Stage m num s.started s.pool.index s.signals) at v.stage;
})
in_start-Inv num s s' i h testing v at e =
    let (h', _, done) = >>=-eq-some (parent_step h testing) _ e in
    subst (Inv num) (some_eq done) (threads-Inv num s i h' v)
in_start-Inv num s s' i h tested v at e =
    let (h', _, done) = >>=-eq-some (parent_step h tested) _ e in
    subst (Inv num) (some_eq done) (threads-Inv num s i h' v)
in_start-Inv num s s' i h asleep v at e = cc

continues-Inv :
    (num : ℕ) (s s' : System) (m : Main)
    → Inv num s
    → s.main ≡ m
    → continue_main s m ≡ some s'
    → Inv num s'
unfolding continue_main
continues-Inv num s s' (starting i) v at e =
    let st = subst (λ m. Stage m num s.started s.pool.index s.signals) at v.stage in
    elim (Bool-cases (ltb i s.pool.num)) [
      | inl more ↦ subst (Inv num) (some_eq (rw more at e)) (record {
        same_num = v.same_num;
        sized = v.sized;
        places = v.places;
        behind = none_behind st.1 st.2;
        counted = length-append s.threads (created ∷ []) ∙ omega (arith, v.counted);
        stage = ground (arith, v.same_num);
      })
      | inr over ↦ subst (Inv num) (some_eq (rw over at e)) (record {
        same_num = v.same_num;
        sized = v.sized;
        places = v.places;
        behind = v.behind;
        counted = v.counted;
        stage = ground (arith, v.same_num);
      })
    ]
  where
    none_behind :
        s.started ≡ i
        → s.pool.index ≡ i
        → s.unstored ++ s.started ∷ []
          ≡ (if suc s.started == s.pool.index then [] else s.pool.index ∷ [])
    none_behind p q =
        let level : (s.started == s.pool.index) ≡ true = ground arith in
        let late : (suc s.started == s.pool.index) ≡ false = ground arith in
        rw (v.behind, level, late) (ap (λ n. n ∷ []) (p ∙ sym q))
continues-Inv num s s' (creating i) v at e =
    let st = subst (λ m. Stage m num s.started s.pool.index s.signals) at v.stage in
    let (h, found, e') = >>=-eq-some (get_elem? s.threads i) _ e in
    in_start-Inv num s s' i h h.parent v at e'
continues-Inv num s s' (checking i) v at e =
    let st = subst (λ m. Stage m num s.started s.pool.index s.signals) at v.stage in
    let here = v.places i in
    elim (Bool-cases (ltb i s.pool.index)) [
      | inl stored ↦
          let found : get_elem? s.pool.loops i ≡ some (some i) = here ∙ ground arith in
          subst (Inv num) (some_eq (rw found at e)) (record {
            same_num = v.same_num;
            sized = v.sized;
            places = v.places;
            behind = v.behind;
            counted = v.counted;
            stage = ground arith;
          })
      | inr empty ↦
          let found : get_elem? s.pool.loops i ≡ some none = here ∙ ground arith in
          subst (Inv num) (some_eq (rw found at e)) (record {
            same_num = v.same_num;
            sized = v.sized;
            places = v.places;
            behind = v.behind;
            counted = v.counted;
            stage = ground arith;
          })
    ]
continues-Inv num s s' (sleeping i) v at e = cc
continues-Inv num s s' finished v at e = cc

pub step-Inv : (num : ℕ) (s s' : System) (a : Action) → Inv num s → step s a ≡ some s' → Inv num s'
unfolding step store
step-Inv num s s' continues v e = continues-Inv num s s' s.main v refl e
step-Inv num s s' (runs k) v e =
    let (h, _, e') = >>=-eq-some (get_elem? s.threads k) _ e in
    let (h', _, done) = >>=-eq-some (child_step h h.child) _ e' in
    subst (Inv num) (some_eq done) (threads-Inv num s k h' v)
step-Inv num s s' (stores k) v e =
    let (l, found, e') = >>=-eq-some (get_elem? s.unstored k) _ e in
    let (h, _, e'') = >>=-eq-some (get_elem? s.threads l) _ e' in
    elim (Bool-cases (runs_function h.child)) [
      | inl ready ↦ subst (Inv num) (some_eq (rw ready at e'')) (stores-Inv num s k l v found)
      | inr early ↦ absurd (let no = rw early at e'' in cc)
    ]
step-Inv num s s' wakes v e =
    let (n, due, done) = >>=-eq-some (one_of s.signals) _ e in
    subst (Inv num) (some_eq done) (wakes-Inv num s n v (one_of_lem s.signals n due))

pub run-Inv :
    (num : ℕ) (s s' : System) (schedule : List Action)
    → Inv num s
    → run s schedule ≡ some s'
    → Inv num s'
unfolding run
run-Inv num s s' [] v e = subst (Inv num) (some_eq e) v
run-Inv num s s' (a ∷ rest) v e =
    let (t, first, later) = >>=-eq-some (step s a) _ e in
    run-Inv num t s' rest (step-Inv num s t a v first) later

-- The number of threads and the number of places stay.
pub run-begin_sizes :
    (num : ℕ) (s : System) (schedule : List Action)
    → run (begin num) schedule ≡ some s
    → (s.pool.num ≡ num) × (length s.pool.loops ≡ num)
run-begin_sizes num s schedule e =
    let v = run-Inv num (begin num) s schedule (begin-Inv num) e in (v.same_num, v.sized)

-- When `start()` returns, every loop is at its place.
pub finished-full :
    (num : ℕ) (s : System) (schedule : List Action)
    → run (begin num) schedule ≡ some s
    → s.main ≡ finished
    → (i : ℕ) → i < num
    → get_elem? s.pool.loops i ≡ some (some i)
finished-full num s schedule e over i h =
    let v = run-Inv num (begin num) s schedule (begin-Inv num) e in
    let st = subst (λ m. Stage m num s.started s.pool.index s.signals) over v.stage in
    v.places i ∙ ground arith
