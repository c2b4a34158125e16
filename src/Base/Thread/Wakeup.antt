-- ===== src/Base/Thread/Wakeup.antt =====
-- When `start()` returns, and when it never does.
use carf_lib.Shared.{
  ℕ, suc, ◌<◌, ◌≡◌, refl, sym, ap, ◌∙◌, subst, ◌≢◌, ◌↔◌, ◌⊎◌, inl, inr, false, none, some, List, [],
  ◌∷◌, arith, ◌==◌, >>=-eq-some, some_eq,
}
use carf_lib.Base.Thread.{
  Parent, testing, tested, asleep, returned, Child, counting, signalling, running, Starting,
  created, step, Who, the_parent, the_child, run,
}

-- Neither thread has a step left.
abbrev pub IsOver : Starting → Type 0
IsOver s = (w : Who) → step s w ≡ none

-- The order of steps that loses the signal: the thread counts and signals between the test and the
-- wait.
abbrev pub lost : List Who
lost = the_parent ∷ the_child ∷ the_child ∷ the_parent ∷ []

abbrev state : Parent → Child → ℕ → Starting
state p c n = record { parent = p; child = c; cond_num = n }

-- The states from which `start()` cannot miss its signal any more.
abbrev IsSafe : Parent → Child → ℕ → Type 0
IsSafe testing counting n = ⊥
IsSafe testing signalling n = 0 < n
IsSafe testing running n = 0 < n
IsSafe tested c n = ⊥
IsSafe asleep counting n = Unit {0}
IsSafe asleep signalling n = 0 < n
IsSafe asleep running n = ⊥
IsSafe returned c n = Unit {0}

IsSafe-at :
    (p : Parent) (c : Child) (n : ℕ) {s : Starting}
    → some (state p c n) ≡ some s
    → IsSafe p c n
    → IsSafe s.parent s.child s.cond_num
IsSafe-at p c n e h = subst (λ s. IsSafe s.parent s.child s.cond_num) (some_eq e) h

step-IsSafe :
    (p : Parent) (c : Child) (n : ℕ) (w : Who) (s : Starting)
    → IsSafe p c n
    → step (state p c n) w ≡ some s
    → IsSafe s.parent s.child s.cond_num
unfolding step
step-IsSafe testing counting n w s h e = absurd h
step-IsSafe testing signalling n the_parent s h e =
    let counted : (n == 0) ≡ false = ground arith in
    IsSafe-at returned signalling n (rw counted at e) tt
step-IsSafe testing signalling n the_child s h e = IsSafe-at testing running n e h
step-IsSafe testing running n the_parent s h e =
    let counted : (n == 0) ≡ false = ground arith in
    IsSafe-at returned running n (rw counted at e) tt
step-IsSafe testing running n the_child s h e = cc
step-IsSafe tested c n w s h e = absurd h
step-IsSafe asleep counting n the_parent s h e = cc
step-IsSafe asleep counting n the_child s h e = IsSafe-at asleep signalling (suc n) e (omega arith)
step-IsSafe asleep signalling n the_parent s h e = cc
step-IsSafe asleep signalling n the_child s h e = IsSafe-at testing running n e h
step-IsSafe asleep running n w s h e = absurd h
step-IsSafe returned c n the_parent s h e = cc
step-IsSafe returned counting n the_child s h e = IsSafe-at returned signalling (suc n) e tt
step-IsSafe returned signalling n the_child s h e = IsSafe-at returned running n e tt
step-IsSafe returned running n the_child s h e = cc

over_returned :
    (p : Parent) (c : Child) (n : ℕ) → IsSafe p c n → IsOver (state p c n) → p ≡ returned
unfolding step
over_returned testing c n h over = let e = over the_parent in cc
over_returned tested c n h over = absurd h
over_returned asleep counting n h over = let e = over the_child in cc
over_returned asleep signalling n h over = let e = over the_child in cc
over_returned asleep running n h over = absurd h
over_returned returned c n h over = refl

safe_returns :
    (s t : Starting) (rest : List Who)
    → IsSafe s.parent s.child s.cond_num
    → run s rest ≡ some t
    → IsOver t
    → t.parent ≡ returned
unfolding run
safe_returns s t [] h e over =
    let q = some_eq e in
    ap (λ s. s.parent) (sym q)
    ∙ over_returned s.parent s.child s.cond_num h (subst IsOver (sym q) over)
safe_returns s t (w ∷ rest) h e over =
    let (s', first, later) = >>=-eq-some (step s w) _ e in
    safe_returns s' t rest (step-IsSafe s.parent s.child s.cond_num w s' h first) later over

-- What a run from `created` comes to.
abbrev Ends : Starting → List Who → List Who → Type 0
Ends t rest bad = (t.parent ≡ returned) ⊎ ((t.parent ≡ asleep) × (rest ≡ bad))

not_over :
    (s t : Starting) (w : Who) {u : Starting} → some s ≡ some t → step s w ≡ some u → IsOver t → ⊥
not_over s t w e can over = let none_left = subst IsOver (sym (some_eq e)) over w in cc

-- The test found zero, and both steps of the thread are past.
too_late :
    (t : Starting) (rest : List Who)
    → run (state tested running 1) rest ≡ some t
    → IsOver t
    → Ends t rest (the_parent ∷ [])
unfolding run step
too_late t [] e over = absurd (not_over (state tested running 1) t the_parent e refl over)
too_late t (the_parent ∷ []) e over = inr (ap (λ s. s.parent) (sym (some_eq e)), refl)
too_late t (the_parent ∷ the_parent ∷ rest) e over = cc
too_late t (the_parent ∷ the_child ∷ rest) e over = cc
too_late t (the_child ∷ rest) e over = cc

-- The test found zero, and the thread has counted.
counted_late :
    (t : Starting) (rest : List Who)
    → run (state tested signalling 1) rest ≡ some t
    → IsOver t
    → Ends t rest (the_child ∷ the_parent ∷ [])
unfolding run step
counted_late t [] e over = absurd (not_over (state tested signalling 1) t the_parent e refl over)
counted_late t (the_parent ∷ rest) e over =
    inl (safe_returns (state asleep signalling 1) t rest (omega arith) e over)
counted_late t (the_child ∷ rest) e over = elim (too_late t rest e over) [
  | inl back ↦ inl back
  | inr (sleeps, only) ↦ inr (sleeps, ap (λ ws. the_child ∷ ws) only)
]

tested_early :
    (t : Starting) (rest : List Who)
    → run (state tested counting 0) rest ≡ some t
    → IsOver t
    → Ends t rest (the_child ∷ the_child ∷ the_parent ∷ [])
unfolding run step
tested_early t [] e over = absurd (not_over (state tested counting 0) t the_parent e refl over)
tested_early t (the_parent ∷ rest) e over =
    inl (safe_returns (state asleep counting 0) t rest tt e over)
tested_early t (the_child ∷ rest) e over = elim (counted_late t rest e over) [
  | inl back ↦ inl back
  | inr (sleeps, only) ↦ inr (sleeps, ap (λ ws. the_child ∷ ws) only)
]

start-Ends :
    (t : Starting) (schedule : List Who)
    → run created schedule ≡ some t
    → IsOver t
    → Ends t schedule lost
unfolding run step
start-Ends t [] e over = absurd (not_over created t the_parent e refl over)
start-Ends t (the_child ∷ rest) e over =
    inl (safe_returns (state testing signalling 1) t rest (omega arith) e over)
start-Ends t (the_parent ∷ rest) e over = elim (tested_early t rest e over) [
  | inl back ↦ inl back
  | inr (sleeps, only) ↦ inr (sleeps, ap (λ ws. the_parent ∷ ws) only)
]

asleep-IsOver : IsOver (state asleep running 1)
unfolding step
asleep-IsOver the_parent = refl
asleep-IsOver the_child = refl

lost_sleeps : (t : Starting) → run created lost ≡ some t → (t.parent ≡ asleep) × IsOver t
unfolding run step
lost_sleeps t e = let p = some_eq e in (ap (λ s. s.parent) (sym p), subst IsOver p asleep-IsOver)

-- In whatever order the two threads take their steps, once neither has one left `start()` has returned
-- after every order but one: where the thread counts and signals between the test of `cond_num` and
-- the wait, `start()` sleeps and nobody is left to wake it.
pub start_returns_iff :
    (t : Starting) (schedule : List Who)
    → run created schedule ≡ some t
    → IsOver t
    → (t.parent ≡ returned) ↔ (schedule ≢ lost)
start_returns_iff t schedule e over = (
  λ back same. let sleeps = (lost_sleeps t (subst (λ ws. run created ws ≡ some t) same e)).0 in cc,
  λ other. elim (start-Ends t schedule e over) [
    | inl back ↦ back
    | inr (_, same) ↦ absurd (other same)
  ],
)
