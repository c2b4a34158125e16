-- ===== src/Net/TcpServer/Timed/Turn.antt =====
-- One turn of the loop of `TimerQueue::handleRead`, seen from one connection.
use carf_lib.Shared.{
  ℕ, ◌+◌, ◌≡◌, sym, ap, ◌∙◌, ◌⊎◌, inl, inr, Bool, true, false, ◌||◌, some, List, [], ◌∷◌, ◌++◌,
  arith, ltb, leb, ◌==◌, Bool-cases, Option-cases, >>=-eq-some, some_eq,
}
use carf_lib.Shared.StdMap.{nat_key, lookup, lookup-assign}
use carf_lib.Net.Buffer.{readable_bytes}
use carf_lib.Net.TcpConnection.{TcpConnection, shut_down, Timer, handle_timer, add_time}
use carf_lib.Net.TimerQueue.{run_due, run_timer, re_added, Fired}
use carf_lib.Net.TimerQueue.Due.{run_timer-other}
use carf_lib.Net.TcpServer.Timed.{entries, tasks}
use carf_lib.Net.TcpServer.Timed.Held.{tasks-append}

-- `handleTimer` puts the timer off and asks for it to be added again, or shuts the connection down.
handle_timer-cases :
    (c d : TcpConnection) (now : ℕ) (more : Bool) (timer : Timer)
    → c.timer ≡ some timer
    → handle_timer c now ≡ some (d, more)
    → ((more ≡ true) × (t : Timer) × (d.timer ≡ some t) × (d.state ≡ c.state))
      ⊎ ((more ≡ false) × (d.timer ≡ some timer) × (d.state ≡ shut_down))
unfolding handle_timer
handle_timer-cases c d now more timer timed e =
    elim (Bool-cases
      (ltb now (c.visited + timer.interval) || ltb 0 (readable_bytes c.write_buffer))) [
        | inl kept ↦
            let (t, added, last) =
              >>=-eq-some (add_time c.visited timer.interval) _ (rw (timed, kept) at e) in
            let same = some_eq last in
            let again : Timer = record timer { expired = t } in
            inl (
              sym (ap (λ p. p.1) same),
              again,
              sym (ap (λ p. p.0.timer) same),
              sym (ap (λ p. p.0.state) same),
            )
        | inr idle ↦
            let same = some_eq (rw (timed, idle) at e) in
            inr (
              sym (ap (λ p. p.1) same),
              sym (ap (λ p. p.0.timer) same),
              sym (ap (λ p. p.0.state) same),
            )
      ]

re_added_other :
    (i j : ℕ) (d : TcpConnection) (more : Bool) → (j == i) ≡ false → tasks i (re_added j d more) ≡ 0
re_added_other i j d true n = elim (Option-cases d.timer) [
  | inl e ↦ rw e
  | inr (t, e) ↦ rw e (rw n)
]
re_added_other i j d false n = elim (Option-cases d.timer) [ inl e ↦ rw e | inr (t, e) ↦ rw e ]

pub run_timer-tasks_other :
    (clock : ℕ → ℕ) (i j : ℕ) (conns conns' : List (ℕ × TcpConnection)) (more : List (ℕ × Timer))
    → (j == i) ≡ false
    → run_timer clock j conns ≡ some (conns', more)
    → tasks i more ≡ 0
unfolding run_timer
run_timer-tasks_other clock i j conns conns' more n e = elim (Option-cases (lookup j conns)) [
  | inl gone ↦ ap (λ p. tasks i p.1) (sym (some_eq (rw (gone, run_timer) at e)))
  | inr (c, found) ↦
      let ((d, again), _, last) =
        >>=-eq-some (handle_timer c (clock j)) _ (rw (found, run_timer) at e) in
      ap (λ p. tasks i p.1) (sym (some_eq last)) ∙ re_added_other i j d again n
]

-- One turn of the loop, with what is to be added.
pub run_due-turn :
    (now : ℕ) (clock : ℕ → ℕ) (t j : ℕ) (rest : List (ℕ × ℕ)) (conns : List (ℕ × TcpConnection))
    (f : Fired)
    → leb t now ≡ true
    → run_due now clock ((t, j) ∷ rest) conns ≡ some f
    → (conns' : List (ℕ × TcpConnection)) × (more : List (ℕ × Timer)) × (g : Fired) × (run_timer
          clock j conns
        ≡ some (conns', more))
      × (run_due now clock rest conns' ≡ some g)
      × (f ≡ record g { added = more ++ g.added })
unfolding run_due
run_due-turn now clock t j rest conns f due e =
    let ((conns', more), ran, e') = >>=-eq-some (run_timer clock j conns) _ (rw due at e) in
    let (g, done, last) = >>=-eq-some (run_due now clock rest conns') _ e' in
    (conns', more, g, ran, done, sym (some_eq last))

-- A connection without an entry is left alone.
pub run_due-untouched :
    (i now : ℕ) (clock : ℕ → ℕ) (timers : List (ℕ × ℕ)) (conns : List (ℕ × TcpConnection))
    (f : Fired)
    → entries i timers ≡ 0
    → run_due now clock timers conns ≡ some f
    → (lookup i f.conns ≡ lookup i conns) × (entries i f.timers ≡ 0) × (tasks i f.added ≡ 0)
unfolding run_due
run_due-untouched i now clock [] conns f none_here e =
    let same = some_eq e in
    (
      ap (λ g. lookup i g.conns) (sym same),
      ap (λ g. entries i g.timers) (sym same),
      ap (λ g. tasks i g.added) (sym same),
    )
run_due-untouched i now clock ((t, j) ∷ rest) conns f none_here e =
    let other : (j == i) ≡ false = ground arith in
    elim (Bool-cases (leb t now)) [
      | inr later ↦
          let same = some_eq (rw later at e) in
          (
            ap (λ g. lookup i g.conns) (sym same),
            ap (λ g. entries i g.timers) (sym same) ∙ none_here,
            ap (λ g. tasks i g.added) (sym same),
          )
      | inl due ↦
          let (conns', more, g, ran, done, same) = run_due-turn now clock t j rest conns f due e in
          let (a, b, d) = run_due-untouched i now clock rest conns' g (omega arith) done in
          (
            ap (λ h. lookup i h.conns) same
                ∙ a
                ∙ run_timer-other clock j i conns conns' more (λ p. ground arith) ran,
            ap (λ h. entries i h.timers) same ∙ b,
            ap (λ h. tasks i h.added) same
                ∙ tasks-append i more g.added
                ∙ omega (arith, d, run_timer-tasks_other clock i j conns conns' more other ran),
          )
    ]

re_added-again :
    (i : ℕ) (d : TcpConnection) (t : Timer) (more : Bool)
    → d.timer ≡ some t
    → more ≡ true
    → re_added i d more ≡ (i, t) ∷ []
re_added-again i d t more e again = rw (e, again)

re_added-over :
    (i : ℕ) (d : TcpConnection) (t : Timer) (more : Bool)
    → d.timer ≡ some t
    → more ≡ false
    → re_added i d more ≡ []
re_added-over i d t more e over = rw (e, over)

-- The timer of the connection itself runs.
pub run_timer_self :
    (clock : ℕ → ℕ) (i : ℕ) (c : TcpConnection) (timer : Timer)
    (conns conns' : List (ℕ × TcpConnection)) (more : List (ℕ × Timer))
    → lookup i conns ≡ some c
    → c.timer ≡ some timer
    → run_timer clock i conns ≡ some (conns', more)
    → ((d : TcpConnection) × (t : Timer) × (lookup i conns' ≡ some d)
        × (d.timer ≡ some t)
        × (more ≡ (i, t) ∷ []))
      ⊎ ((d : TcpConnection) × (lookup i conns' ≡ some d)
          × (d.timer ≡ some timer)
          × (d.state ≡ shut_down)
          × (more ≡ []))
unfolding run_timer
run_timer_self clock i c timer conns conns' more found timed e =
    let ((d, again), handled, last) =
      >>=-eq-some (handle_timer c (clock i)) _ (rw (found, run_timer) at e) in
    let same = some_eq last in
    let self : (i == i) ≡ true = ground arith in
    let at_i : lookup i conns' ≡ some d =
      ap (λ p. lookup i p.0) (sym same) ∙ lookup-assign i i d conns ∙ rw self in
    let added : more ≡ re_added i d again = ap (λ p. p.1) (sym same) in
    elim (handle_timer-cases c d (clock i) again timer timed handled) [
      | inl (again_due, t, its, _) ↦
          inl (d, t, at_i, its, added ∙ re_added-again i d t again its again_due)
      | inr (over, its, is_shut) ↦
          inr (d, at_i, its, is_shut, added ∙ re_added-over i d timer again its over)
    ]
