-- ===== src/Net/EventLoopThreadPool/Start/Progress.antt =====
-- How far `start()` gets: it returns, or it sleeps for ever in the `start()` of one of its threads.
use carf_lib.Shared.{
  ℕ, ◌+◌, ◌*◌, ◌≤◌, zero, suc, ◌<◌, ◌≡◌, refl, ap, ◌∙◌, subst, ◌⊎◌, inl, inr, false, none, some,
  List, [], ◌∷◌, ◌++◌, arith, ltb, ◌==◌, if◌then◌else◌, Bool-cases, Option-cases, >>=-eq-some,
  some_eq, one_of, length, get_elem?, set, get_elem?-set_ne,
}
use carf_lib.Base.Thread.{
  Starting, Parent, Child, testing, tested, asleep, returned, counting, signalling, running,
  parent_step, signalled, child_step, created,
}
use carf_lib.Net.EventLoopThreadPool.{store_loop}
use carf_lib.Net.EventLoopThreadPool.Start.{
  Main, starting, creating, checking, sleeping, finished, System, begin, Action, continues, wakes,
  runs, stores, runs_function, in_start, store, continue_main, woken, step, run, Stage, Inv,
}
use carf_lib.Net.EventLoopThreadPool.Start.Ends.{run-begin_bound}
use carf_lib.Net.EventLoopThreadPool.Start.Steps.{begin-Inv, run-Inv, finished-full}

-- `start()` sleeps in the `start()` of thread `i`, whose signal is past.
abbrev pub IsLost : System → ℕ → Type 0
IsLost s i =
    (h : Starting) × (s.main ≡ creating i)
    × (get_elem? s.threads i ≡ some h)
    × (h.parent ≡ asleep)
    × (h.child ≡ running)

-- Some thread has a step left.
abbrev pub CanStep : System → Type 0
CanStep s = (a : Action) × (s' : System) × (step s a ≡ some s')

in_range : {A : Type 0} (xs : List A) (i : ℕ) → i < length xs → (x : A) × (get_elem? xs i ≡ some x)
in_range [] i h = absurd (omega arith)
in_range (x ∷ xs) zero h = (x, refl)
in_range (x ∷ xs) (suc i) h = in_range xs i (omega arith)

child-CanStep :
    (s : System) (i : ℕ) (h : Starting) (c : Child)
    → get_elem? s.threads i ≡ some h
    → h.child ≡ c
    → runs_function c ≡ false
    → CanStep s
unfolding step child_step
child-CanStep s i h counting found at early =
    let h' : Starting = record h { cond_num = suc h.cond_num; child = signalling } in
    (runs i, record s { threads = set s.threads i h' }, rw found (rw at refl))
child-CanStep s i h signalling found at early =
    let h' : Starting = record h { parent = signalled h.parent; child = running } in
    (runs i, record s { threads = set s.threads i h' }, rw found (rw at refl))
child-CanStep s i h running found at early = cc

start-CanStep :
    (s : System) (i : ℕ) (h : Starting) (p : Parent) (c : Child)
    → s.main ≡ creating i
    → get_elem? s.threads i ≡ some h
    → h.parent ≡ p
    → h.child ≡ c
    → IsLost s i ⊎ CanStep s
unfolding step continue_main in_start parent_step
start-CanStep s i h testing c m found at at' =
    let h' : Starting = record h { parent = if h.cond_num == 0 then tested else returned } in
    inr (continues, record s { threads = set s.threads i h' }, rw m (rw found (rw at refl)))
start-CanStep s i h tested c m found at at' =
    let h' : Starting = record h { parent = asleep } in
    inr (continues, record s { threads = set s.threads i h' }, rw m (rw found (rw at refl)))
start-CanStep s i h returned c m found at at' =
    inr (continues, record s { main = checking i }, rw m (rw found (rw at refl)))
start-CanStep s i h asleep running m found at at' = inl (h, m, found, at, at')
start-CanStep s i h asleep counting m found at at' =
    inr (child-CanStep s i h counting found at' refl)
start-CanStep s i h asleep signalling m found at at' =
    inr (child-CanStep s i h signalling found at' refl)

-- A thread that has not stored its loop has a step: in `ThreadData::run`, or the store.
unstored-CanStep :
    (s : System) (l : ℕ) (h : Starting) (c : Child)
    → s.unstored ≡ l ∷ []
    → get_elem? s.threads l ≡ some h
    → h.child ≡ c
    → CanStep s
unfolding step store
unstored-CanStep s l h running only found at = (
  stores 0,
  record s { pool = store_loop s.pool l; unstored = []; signals = suc s.signals },
  rw only (rw found (rw at refl)),
)
unstored-CanStep s l h counting only found at = child-CanStep s l h counting found at refl
unstored-CanStep s l h signalling only found at = child-CanStep s l h signalling found at refl

signals-CanStep : (s : System) → 0 < s.signals → CanStep s
unfolding step
signals-CanStep s h = elim (Option-cases (one_of s.signals)) [
  | inl nothing ↦ absurd (ground arith)
  | inr (n, e) ↦ (wakes, record s { main = woken s.main; signals = n }, rw e refl)
]

sleeping-CanStep : (num : ℕ) (s : System) (i : ℕ) → Inv num s → s.main ≡ sleeping i → CanStep s
sleeping-CanStep num s i v at =
    let st = subst (λ m. Stage m num s.started s.pool.index s.signals) at v.stage in
    elim (Bool-cases (s.started == s.pool.index)) [
      | inl level ↦ signals-CanStep s (ground arith)
      | inr late ↦
          let (h, found) = in_range s.threads s.pool.index (ground (arith, v.counted)) in
          unstored-CanStep s s.pool.index h h.child (v.behind ∙ rw late refl) found refl
    ]

checking-CanStep : (num : ℕ) (s : System) (i : ℕ) → Inv num s → s.main ≡ checking i → CanStep s
unfolding step continue_main
checking-CanStep num s i v at =
    let st = subst (λ m. Stage m num s.started s.pool.index s.signals) at v.stage in
    elim (Bool-cases (ltb i s.pool.index)) [
      | inl stored ↦
          let found : get_elem? s.pool.loops i ≡ some (some i) = v.places i ∙ ground arith in
          (continues, record s { main = starting (suc i) }, rw at (rw found refl))
      | inr empty ↦
          let found : get_elem? s.pool.loops i ≡ some none = v.places i ∙ ground arith in
          (continues, record s { main = sleeping i }, rw at (rw found refl))
    ]

starting-CanStep : (s : System) (i : ℕ) → s.main ≡ starting i → CanStep s
unfolding step continue_main
starting-CanStep s i at = elim (Bool-cases (ltb i s.pool.num)) [
  | inl more ↦ (
    continues,
    record s {
      main = creating i;
      started = suc s.started;
      threads = s.threads ++ created ∷ [];
      unstored = s.unstored ++ s.started ∷ [];
    },
    rw at (rw more refl),
  )
  | inr over ↦ (continues, record s { main = finished }, rw at (rw over refl))
]

progress :
    (num : ℕ) (s : System) (m : Main)
    → Inv num s
    → s.main ≡ m
    → (s.main ≡ finished) ⊎ (((i : ℕ) × IsLost s i) ⊎ CanStep s)
progress num s (starting i) v at = inr (inr (starting-CanStep s i at))
progress num s (creating i) v at =
    let st = subst (λ m. Stage m num s.started s.pool.index s.signals) at v.stage in
    let (h, found) = in_range s.threads i (omega (arith, v.counted, st.1)) in
    elim (start-CanStep s i h h.parent h.child at found refl refl) [
      | inl lost ↦ inr (inl (i, lost))
      | inr can ↦ inr (inr can)
    ]
progress num s (checking i) v at = inr (inr (checking-CanStep num s i v at))
progress num s (sleeping i) v at = inr (inr (sleeping-CanStep num s i v at))
progress num s finished v at = inl at

-- No step of any thread ends the sleep behind a lost signal.
step-IsLost : (s s' : System) (i : ℕ) (a : Action) → IsLost s i → step s a ≡ some s' → IsLost s' i
unfolding step continue_main in_start store child_step
step-IsLost s s' i continues (h, m, found, p, c) e =
    absurd (let e1 = rw m at e in let e2 = rw found at e1 in let e3 = rw p at e2 in cc)
step-IsLost s s' i wakes (h, m, found, p, c) e =
    let (n, _, done) = >>=-eq-some (one_of s.signals) _ e in
    subst (λ s. IsLost s i) (some_eq done) (h, ap woken m, found, p, c)
step-IsLost s s' i (stores k) (h, m, found, p, c) e =
    let (l, _, e') = >>=-eq-some (get_elem? s.unstored k) _ e in
    let (g, _, e'') = >>=-eq-some (get_elem? s.threads l) _ e' in
    elim (Bool-cases (runs_function g.child)) [
      | inl ready ↦ subst (λ s. IsLost s i) (some_eq (rw ready at e'')) (h, m, found, p, c)
      | inr early ↦ absurd (let no = rw early at e'' in cc)
    ]
step-IsLost s s' i (runs k) (h, m, found, p, c) e = elim (Bool-cases (k == i)) [
  | inl same ↦
      let there : k ≡ i = ground arith in
      let e' = subst (λ k. step s (runs k) ≡ some s') there e in
      absurd (let e1 = rw found at e' in let e2 = rw c at e1 in cc)
  | inr other ↦
      let (g, _, e') = >>=-eq-some (get_elem? s.threads k) _ e in
      let (g', _, done) = >>=-eq-some (child_step g g.child) _ e' in
      subst (λ s. IsLost s i) (some_eq done)
        (h, m, get_elem?-set_ne s.threads k i g' (λ q. ground arith) ∙ found, p, c)
]

run-IsLost :
    (s s' : System) (i : ℕ) (rest : List Action) → IsLost s i → run s rest ≡ some s' → IsLost s' i
unfolding run
run-IsLost s s' i [] lost e = subst (λ s. IsLost s i) (some_eq e) lost
run-IsLost s s' i (a ∷ rest) lost e =
    let (t, first, later) = >>=-eq-some (step s a) _ e in
    run-IsLost t s' i rest (step-IsLost s t i a lost first) later

-- `start()` on a pool of `num` threads. Every order of its steps and of the steps of the threads, each of
-- them up to the signal behind its store, has at most 13 * num + 1 steps. When `start()` has returned,
-- place `i` of `loops_` holds the loop of thread `i` for every `i` below `num`, so none is a null
-- pointer. While it has not, some thread has a step left, unless `start()` sleeps in the `start()` of
-- one of the threads and that thread's signal is past; and from there it never returns, whatever runs.
-- So the wait for `loops_[i]` itself misses no signal.
pub start_lem :
    (num : ℕ) (s : System) (schedule : List Action)
    → run (begin num) schedule ≡ some s
    → (length schedule ≤ 13 * num + 1)
      × (s.main ≡ finished → (i : ℕ) → i < num → get_elem? s.pool.loops i ≡ some (some i))
      × ((s.main ≡ finished) ⊎ (((i : ℕ) × IsLost s i) ⊎ CanStep s))
      × ((i : ℕ) (rest : List Action) (s' : System)
          → IsLost s i
          → run s rest ≡ some s'
          → IsLost s' i)
start_lem num s schedule e = (
  run-begin_bound num s schedule e,
  finished-full num s schedule e,
  progress num s s.main (run-Inv num (begin num) s schedule (begin-Inv num) e) refl,
  λ i rest s' lost ran. run-IsLost s s' i rest lost ran,
)
