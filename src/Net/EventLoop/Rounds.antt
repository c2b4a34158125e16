-- ===== src/Net/EventLoop/Rounds.antt =====
-- Tasks are performed in the order they were queued, each once, and no wakeup is lost.
use carf_lib.Shared.{
  one_of, ℕ, ◌+◌, ◌<◌, ◌≡◌, refl, sym, ap, ◌∙◌, subst, inl, inr, true, Option, none, some, List, [],
  ◌∷◌, ◌++◌, append-nil, append_assoc, arith, if◌then◌else◌, Bool-cases, >>=-eq-some, some_eq,
  length, replicate,
}
use carf_lib.Net.EventLoop.{
  Active, wakeup_channel, channel, Phase, waiting, stopped, handling, running, EventLoop, start,
  has_wakeup, may_give, grown, queue_in_loop, wakeup, proceed, poll, Action, queues, wakes,
  proceeds, polls, one_of, step, run, left_of, Awake, Inv,
}

start-Inv : {T : Type 0} → Inv (start {T = T})
start-Inv = record { in_order = refl; awake = λ h. absurd (omega arith) }

Awake-more : {T : Type 0} (p : Phase T) (n m : ℕ) → 0 < m → Awake p n m
Awake-more waiting n m h = λ _. h
Awake-more stopped n m h = tt
Awake-more (handling rest) n m h = tt
Awake-more (running rest) n m h = λ _. h

queue_in_loop-Inv : {T : Type 0} (l : EventLoop T) (t : T) → Inv l → Inv (queue_in_loop l t)
unfolding queue_in_loop
queue_in_loop-Inv l t v = record {
  in_order =
      ap (λ xs. l.performed ++ xs) (sym (append_assoc (left_of l.phase) l.tasks (t ∷ [])))
      ∙ sym (append_assoc l.performed (left_of l.phase ++ l.tasks) (t ∷ []))
      ∙ ap (λ xs. xs ++ t ∷ []) v.in_order;
  awake = Awake-more l.phase _ _ (omega arith);
}

wakeup-Inv : {T : Type 0} (l : EventLoop T) (n : ℕ) → Inv l → Inv (wakeup l n)
unfolding wakeup
wakeup-Inv l n v = record { in_order = v.in_order; awake = Awake-more l.phase _ _ (omega arith) }

-- `p` is the phase of `l`.
proceed-Inv :
    {T : Type 0} (l l' : EventLoop T) (p : Phase T)
    → l.performed ++ (left_of p ++ l.tasks) ≡ l.queued
    → Awake p (length l.tasks) (l.wakeup_count + l.unwritten)
    → proceed l p ≡ some l'
    → Inv l'
unfolding proceed
proceed-Inv l l' waiting o a e = cc
proceed-Inv l l' stopped o a e = cc
proceed-Inv l l' (handling []) o a e =
    subst Inv (some_eq e)
      (record { in_order = rw (append-nil l.tasks) o; awake = λ h. absurd (omega arith) })
proceed-Inv l l' (handling (wakeup_channel ∷ rest)) o a e =
    subst Inv (some_eq e) (record { in_order = o; awake = tt })
proceed-Inv l l' (handling (channel i ∷ rest)) o a e =
    subst Inv (some_eq e) (record { in_order = o; awake = tt })
proceed-Inv l l' (running []) o a e = subst Inv (some_eq e) (elim (Bool-cases l.quit) [
  | inl over ↦ rw over (record { in_order = o; awake = tt })
  | inr on ↦ rw on (record { in_order = o; awake = a })
])
proceed-Inv l l' (running (t ∷ rest)) o a e =
    subst Inv (some_eq e)
      (record { in_order = append_assoc l.performed (t ∷ []) (rest ++ l.tasks) ∙ o; awake = a })

-- What `epollWait` found and leaves, when it returns active channels.
poll_lem :
    {T : Type 0} (l l' : EventLoop T) (active : List Active)
    → poll l waiting (some active) ≡ some l'
    → (may_give l.events_size l.wakeup_count active ≡ true)
      × (record l { phase = handling active; events_size = grown l.events_size active } ≡ l')
unfolding poll
poll_lem l l' active e = elim (Bool-cases (may_give l.events_size l.wakeup_count active)) [
  | inl can ↦ (can, some_eq (rw can at e))
  | inr cannot ↦ absurd (let no = rw cannot at e in cc)
]

poll-Inv :
    {T : Type 0} (l l' : EventLoop T) (p : Phase T) (r : Option (List Active))
    → l.performed ++ (left_of p ++ l.tasks) ≡ l.queued
    → poll l p r ≡ some l'
    → Inv l'
unfolding poll
poll-Inv l l' waiting none o e = subst Inv (some_eq e) (record { in_order = o; awake = tt })
poll-Inv l l' waiting (some active) o e =
    subst Inv (poll_lem l l' active e).1 (record { in_order = o; awake = tt })
poll-Inv l l' stopped r o e = cc
poll-Inv l l' (handling rest) r o e = cc
poll-Inv l l' (running rest) r o e = cc

step-Inv : {T : Type 0} (l l' : EventLoop T) (a : Action T) → Inv l → step l a ≡ some l' → Inv l'
unfolding step
step-Inv l l' (queues t) v e = subst Inv (some_eq e) (queue_in_loop-Inv l t v)
step-Inv l l' wakes v e =
    let (n, _, done) = >>=-eq-some (one_of l.unwritten) _ e in
    subst Inv (some_eq done) (wakeup-Inv l n v)
step-Inv l l' proceeds v e = proceed-Inv l l' l.phase v.in_order v.awake e
step-Inv l l' (polls r) v e = poll-Inv l l' l.phase r v.in_order e

run-Inv :
    {T : Type 0} (l l' : EventLoop T) (schedule : List (Action T))
    → Inv l
    → run l schedule ≡ some l'
    → Inv l'
unfolding run
run-Inv l l' [] v e = subst Inv (some_eq e) v
run-Inv l l' (a ∷ rest) v e =
    let (m, first, later) = >>=-eq-some (step l a) _ e in
    run-Inv m l' rest (step-Inv l m a v first) later

-- After any schedule of the loop and of threads that queue tasks and wake it: the tasks performed, then
-- those of the round that are left, then those in the queue are the tasks queued, in that order, so
-- each is performed once; and where the loop waits, or is past its handlers, a queue that is not empty
-- has a wakeup that is written or that its thread is about to write.
pub loop-start-Inv :
    {T : Type 0} (l : EventLoop T) (schedule : List (Action T))
    → run start schedule ≡ some l
    → Inv l
loop-start-Inv l schedule e = run-Inv start l schedule start-Inv e

-- What a round leaves of the counter, and the channels that it handles.
abbrev pub after_read : List Active → ℕ → ℕ
after_read active n = if has_wakeup active then 0 else n

abbrev pub channels_of : List Active → List ℕ
channels_of [] = []
channels_of (wakeup_channel ∷ rest) = channels_of rest
channels_of (channel i ∷ rest) = i ∷ channels_of rest

-- The steps of a round with these active channels and tasks, when no other thread comes in between.
abbrev pub round : {T : Type 0} → List Active → List T → List (Action T)
round active tasks =
    polls (some active)
    ∷ (replicate (length active) proceeds
        ++ (proceeds ∷ (replicate (length tasks) proceeds ++ (proceeds ∷ []))))
