-- ===== src/Net/EventLoopThreadPool/Start/Stores.antt =====
-- A store by a thread of the pool: whose it is, and where its loop goes.
use carf_lib.Shared.{
  ℕ, zero, suc, ◌<◌, ◌≡◌, refl, sym, ◌∙◌, subst, inl, inr, true, false, Option, some, List, [], ◌∷◌,
  ◌++◌, arith, ◌==◌, if◌then◌else◌, Bool-cases, length, get_elem?, take, drop, set, length-set,
  get_elem?-set_self, get_elem?-set_ne,
}
use carf_lib.Net.EventLoopThreadPool.{store_loop}
use carf_lib.Net.EventLoopThreadPool.Start.{
  Main, starting, creating, checking, sleeping, finished, System, place, Stage, Inv,
}

-- The place where the next loop goes.
store_place :
    (num n i : ℕ) (loops : List (Option ℕ))
    → length loops ≡ num
    → n < num
    → get_elem? loops i ≡ place num n i
    → get_elem? (set loops n (some n)) i ≡ place num (suc n) i
store_place num n i loops size h at = elim (Bool-cases (n == i)) [
  | inl same ↦
      let p : n ≡ i = ground arith in
      subst (λ i. get_elem? (set loops n (some n)) i ≡ place num (suc n) i) p
        (get_elem?-set_self loops n (some n) (omega arith) ∙ ground arith)
  | inr other ↦ get_elem?-set_ne loops n i (some n) (λ p. ground arith) ∙ at ∙ ground arith
]

one_behind :
    (running : List ℕ) (started n k l : ℕ)
    → running ≡ (if started == n then [] else n ∷ [])
    → get_elem? running k ≡ some l
    → (k ≡ 0) × (l ≡ n) × ((started == n) ≡ false) × (running ≡ n ∷ [])
one_behind [] started n k l h e = cc
one_behind (x ∷ xs) started n k l h e = elim (Bool-cases (started == n)) [
  | inl level ↦ let h' = rw level at h in absurd (ground arith)
  | inr late ↦ only k (rw late at h) e late
]
  where
    only :
        (k : ℕ)
        → x ∷ xs ≡ n ∷ []
        → get_elem? (x ∷ xs) k ≡ some l
        → (started == n) ≡ false
        → (k ≡ 0) × (l ≡ n) × ((started == n) ≡ false) × (x ∷ xs ≡ n ∷ [])
    only zero h e late = (refl, ground arith, late, h)
    only (suc k) h e late = let h' : xs ≡ [] = cc in let e' = rw h' at e in cc

-- A store by the thread that is behind.
Stage-stored :
    (m : Main) (num started n signals : ℕ)
    → Stage m num started n signals
    → (started == n) ≡ false
    → (started ≡ suc n) × (n < num) × Stage m num started (suc n) (suc signals)
Stage-stored (starting i) num started n signals h late = absurd (ground arith)
Stage-stored (creating i) num started n signals h late = ground arith
Stage-stored (checking i) num started n signals h late = ground arith
Stage-stored (sleeping i) num started n signals h late = ground arith
Stage-stored finished num started n signals h late = absurd (ground arith)

-- A thread that has not stored its loop is the one started last, and its loop goes to its own place.
pub stores-Inv :
    (num : ℕ) (s : System) (k l : ℕ)
    → Inv num s
    → get_elem? s.unstored k ≡ some l
    → Inv num (record s {
      pool = store_loop s.pool l;
      unstored = take k s.unstored ++ drop (suc k) s.unstored;
      signals = suc s.signals;
    })
unfolding store_loop
stores-Inv num s k l v e =
    let (first, own, late, only) = one_behind s.unstored s.started s.pool.index k l v.behind e in
    let (ahead, room, stage) =
      Stage-stored s.main num s.started s.pool.index s.signals v.stage late in
    record {
      same_num = v.same_num;
      sized = length-set s.pool.loops s.pool.index (some l) ∙ v.sized;
      places = λ i.
          subst
            (λ l.
              get_elem? (set s.pool.loops s.pool.index (some l)) i ≡ place num (suc s.pool.index) i)
            (sym own) (store_place num s.pool.index i s.pool.loops v.sized room (v.places i));
      behind = left first only ahead;
      counted = v.counted;
      stage = stage;
    }
  where
    left :
        k ≡ 0
        → s.unstored ≡ s.pool.index ∷ []
        → s.started ≡ suc s.pool.index
        → take k s.unstored ++ drop (suc k) s.unstored
          ≡ (if s.started == suc s.pool.index then [] else suc s.pool.index ∷ [])
    left first only ahead =
        let level : (s.started == suc s.pool.index) ≡ true = ground arith in rw (first, only, level)
