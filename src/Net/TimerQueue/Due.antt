-- ===== src/Net/TimerQueue/Due.antt =====
-- The timers that are due run, the others stay, and idle connections are shut down.
use carf_lib.Shared.{
  ℕ, ◌+◌, ◌≤◌, ◌≡◌, refl, sym, ap, ◌∙◌, subst, ◌≢◌, ◌⊎◌, inl, inr, Bool, true, false, ◌||◌, none,
  some, List, [], ◌∷◌, ◌++◌, arith, ltb, leb, ◌==◌, if◌then◌else◌, Bool-cases, Option-cases,
  >>=-eq-some, some_eq,
}
use carf_lib.Shared.StdMap.{nat_key, lookup, assign, lookup-assign}
use carf_lib.Shared.StdMap.Sorted.{IsSorted, Above-trans, lookup-Above}
use carf_lib.Net.Buffer.{readable_bytes}
use carf_lib.Net.TcpConnection.{TcpConnection, Timer, long_max, handle_timer, shutdown_write}
use carf_lib.Net.TcpConnection.Expiry.{handle_timer_lem}
use carf_lib.Net.TimerQueue.{Fired, run_due, run_timer, re_added}

-- Some entry for `i` is due.
abbrev pub IsDue : ℕ → ℕ → List (ℕ × ℕ) → Type 0
IsDue now i [] = ⊥
IsDue now i ((t, j) ∷ rest) = (leb t now ≡ true) × ((j ≡ i) ⊎ IsDue now i rest)

-- No visit for the interval, and nothing left to send.
pub record IsIdle (now : ℕ) (c : TcpConnection) : Type 0 where
  pub timer : Timer
  pub timed : c.timer ≡ some timer
  pub long_ago : c.visited + timer.interval ≤ now
  pub sent : readable_bytes c.write_buffer ≡ 0

-- No expiry overflows.
abbrev pub InRange : TcpConnection → Type 0
InRange c = (timer : Timer) → c.timer ≡ some timer → c.visited + timer.interval ≤ long_max

abbrev pub AllInRange : List (ℕ × TcpConnection) → Type 0
AllInRange conns = (i : ℕ) (c : TcpConnection) → lookup i conns ≡ some c → InRange c

handle_timer-InRange :
    (c : TcpConnection) (now : ℕ)
    → InRange c
    → (d : TcpConnection) × (more : Bool) × (handle_timer c now ≡ some (d, more)) × InRange d
unfolding handle_timer
handle_timer-InRange c now h = elim (Option-cases c.timer) [
  | inl no_timer ↦ (c, false, rw no_timer, h)
  | inr (timer, e) ↦
      elim (Bool-cases
        (ltb now (c.visited + timer.interval) || ltb 0 (readable_bytes c.write_buffer))) [
          | inl kept ↦
              let again : Timer = record timer { expired = c.visited + timer.interval } in
              (
                record c { timer = some again },
                true,
                (handle_timer_lem c timer now e (h timer e)).1 (ground arith),
                λ t same. subst (λ t. c.visited + t.interval ≤ long_max) (some_eq same) (h timer e),
              )
          | inr idle ↦ (
            shutdown_write c,
            false,
            (handle_timer_lem c timer now e (h timer e)).0 (ground arith) (ground arith),
            h,
          )
        ]
]

-- The timer of an idle connection shuts it down, if it was not shut down before.
pub run_timer-IsIdle :
    (clock : ℕ → ℕ) (i : ℕ) (c : TcpConnection) (conns conns' : List (ℕ × TcpConnection))
    (more : List (ℕ × Timer))
    → lookup i conns ≡ some c
    → IsIdle (clock i) c
    → InRange c
    → run_timer clock i conns ≡ some (conns', more)
    → lookup i conns' ≡ some (shutdown_write c)
unfolding run_timer
run_timer-IsIdle clock i c conns conns' more found idle safe e =
    let shut =
      (handle_timer_lem c idle.timer (clock i) idle.timed (safe idle.timer idle.timed)).0
        idle.long_ago idle.sent in
    let e' = some_eq (rw (found, run_timer, shut) at e) in
    subst (λ m. lookup i m ≡ some (shutdown_write c)) (ap (λ p. p.0) e')
      (ground (arith, lookup-assign i i (shutdown_write c) conns))

-- It leaves all others alone.
pub run_timer-other :
    (clock : ℕ → ℕ) (i j : ℕ) (conns conns' : List (ℕ × TcpConnection)) (more : List (ℕ × Timer))
    → i ≢ j
    → run_timer clock i conns ≡ some (conns', more)
    → lookup j conns' ≡ lookup j conns
unfolding run_timer
run_timer-other clock i j conns conns' more h e = elim (Option-cases (lookup i conns)) [
  | inl gone ↦ let e' = some_eq (rw (gone, run_timer) at e) in ap (λ p. lookup j p.0) (sym e')
  | inr (c, found) ↦
      let ((d, again), _, e') =
        >>=-eq-some (handle_timer c (clock i)) _ (rw (found, run_timer) at e) in
      ap (λ p. lookup j p.0) (sym (some_eq e')) ∙ ground (arith, lookup-assign i j d conns)
]

pub run_timer-InRange :
    (clock : ℕ → ℕ) (i : ℕ) (conns : List (ℕ × TcpConnection))
    → AllInRange conns
    → (conns' : List (ℕ × TcpConnection)) × (more : List (ℕ × Timer)) × (run_timer clock i conns
        ≡ some (conns', more))
      × AllInRange conns'
unfolding run_timer
run_timer-InRange clock i conns h = elim (Option-cases (lookup i conns)) [
  | inl gone ↦ (conns, [], rw (gone, run_timer), h)
  | inr (c, found) ↦
      let (d, again, ran, safe) = handle_timer-InRange c (clock i) (h i c found) in
      (
        assign i d conns,
        re_added i d again,
        rw (found, run_timer, ran),
        λ j c' at_j. elim (Bool-cases (i == j)) [
          | inl same ↦
              subst InRange (some_eq (sym (rw same at (lookup-assign i j d conns)) ∙ at_j)) safe
          | inr other ↦ h j c' (sym (rw other at (lookup-assign i j d conns)) ∙ at_j)
        ],
      )
]

-- The entries from the first that is not due on.
abbrev pub not_due : ℕ → List (ℕ × ℕ) → List (ℕ × ℕ)
not_due now [] = []
not_due now ((t, i) ∷ rest) = if leb t now then not_due now rest else (t, i) ∷ rest

pub lookup-not_due :
    (now k : ℕ) (timers : List (ℕ × ℕ))
    → IsSorted timers
    → lookup k (not_due now timers) ≡ (if leb k now then none else lookup k timers)
unfolding lookup
lookup-not_due now k [] s = ground arith
lookup-not_due now k ((t, i) ∷ rest) s =
    ground (arith, lookup-not_due now k rest s.1, lookup-Above k rest, Above-trans k t rest)

pub run_due-Runs :
    (now : ℕ) (clock : ℕ → ℕ) (timers : List (ℕ × ℕ)) (conns : List (ℕ × TcpConnection))
    → AllInRange conns
    → (f : Fired) × (run_due now clock timers conns ≡ some f) × (f.timers ≡ not_due now timers)
unfolding run_due
run_due-Runs now clock [] conns h = (_, refl, refl)
run_due-Runs now clock ((t, i) ∷ rest) conns h = elim (Bool-cases (leb t now)) [
  | inr later ↦ (record { timers = (t, i) ∷ rest; conns = conns; added = [] }, rw later, rw later)
  | inl due ↦
      let (conns', more, ran, safe) = run_timer-InRange clock i conns h in
      let (f, done, left) = run_due-Runs now clock rest conns' safe in
      (record f { added = more ++ f.added }, rw (due, ran, done), rw due left)
]

-- One turn of the loop.
pub run_due_step :
    (now : ℕ) (clock : ℕ → ℕ) (t i : ℕ) (rest : List (ℕ × ℕ)) (conns : List (ℕ × TcpConnection))
    (f : Fired)
    → leb t now ≡ true
    → run_due now clock ((t, i) ∷ rest) conns ≡ some f
    → (conns' : List (ℕ × TcpConnection)) × (more : List (ℕ × Timer)) × (g : Fired) × (run_timer
          clock i conns
        ≡ some (conns', more))
      × (run_due now clock rest conns' ≡ some g)
      × (g.conns ≡ f.conns)
unfolding run_due
run_due_step now clock t i rest conns f due e =
    let ((conns', more), ran, e') = >>=-eq-some (run_timer clock i conns) _ (rw due at e) in
    let (g, done, last) = >>=-eq-some (run_due now clock rest conns') _ e' in
    (conns', more, g, ran, done, ap (λ f. f.conns) (some_eq last))

pub run_due_nil :
    (now : ℕ) (clock : ℕ → ℕ) (conns : List (ℕ × TcpConnection)) (f : Fired)
    → run_due now clock [] conns ≡ some f
    → conns ≡ f.conns
unfolding run_due
run_due_nil now clock conns f e = ap (λ f. f.conns) (some_eq e)

pub run_due_stop :
    (now : ℕ) (clock : ℕ → ℕ) (t i : ℕ) (rest : List (ℕ × ℕ)) (conns : List (ℕ × TcpConnection))
    (f : Fired)
    → leb t now ≡ false
    → run_due now clock ((t, i) ∷ rest) conns ≡ some f
    → conns ≡ f.conns
unfolding run_due
run_due_stop now clock t i rest conns f later e = ap (λ f. f.conns) (some_eq (rw later at e))
