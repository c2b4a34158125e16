-- ===== src/Net/TcpServer/Steps.antt =====
-- The handlers and tasks of the server, in any order.
use carf_lib.Shared.{
  ℕ, zero, suc, ◌<◌, ◌≡◌, refl, sym, ◌∙◌, subst, ◌≢◌, inl, inr, Bool, true, Option, none, some,
  List, [], ◌∷◌, ◌++◌, arith, ltb, ◌==◌, Bool-cases, some_eq, length, get_elem?, length-append, set,
  length-set, get_elem?-set_ne,
}
use carf_lib.Shared.StdMap.{nat_key, lookup, assign, erase, lookup-assign, lookup-erase}
use carf_lib.Net.TcpConnection.{TcpConnection, Timer, connection, stop_timer}
use carf_lib.Net.TimerQueue.{add_timer_in_loop, delete_timer, int_max}
use carf_lib.Net.EventLoopThreadPool.{EventLoopThreadPool}
use carf_lib.Net.TcpServer.{
  Task, add_timer, remove_connection_in_loop, TcpServer, server, register, new_connection,
  accept_failed, remove_connection, cancel, remove_in_loop, removed, perform_next, Action, accepts,
  fails, closes, performs, step, run,
}
use carf_lib.Net.TcpServer.Numbers.{
  IsReady, IsKept, ArePresent, HasTimer, IsEntry, Inv, Fits, Allowed, AllAllowed,
  get_next_loop-IsReady, new_timer-HasTimer, ArePresent-accept, ArePresent-close, ArePresent-erase,
}

get_elem?-append_old :
    {A : Type 0} (xs ys : List A) (i : ℕ) (a : A)
    → get_elem? xs i ≡ some a
    → get_elem? (xs ++ ys) i ≡ some a
get_elem?-append_old [] ys i a e = absurd cc
get_elem?-append_old (x ∷ xs) ys zero a e = e
get_elem?-append_old (x ∷ xs) ys (suc i) a e = get_elem?-append_old xs ys i a e

get_elem?-append_new :
    {A : Type 0} (xs : List A) (a : A) → get_elem? (xs ++ (a ∷ [])) (length xs) ≡ some a
get_elem?-append_new [] a = refl
get_elem?-append_new (x ∷ xs) a = get_elem?-append_new xs a

accept_entries :
    {L : Type 0} (s : TcpServer L) (c : TcpConnection) (i j : ℕ)
    → Inv s
    → HasTimer s.hold c.timer
    → lookup i (assign s.next_conn_id (length s.objects) s.conns) ≡ some j
    → IsEntry s.hold (s.objects ++ (c ∷ [])) i j
accept_entries s c i j v timed e =
    let found = sym (lookup-assign s.next_conn_id i (length s.objects) s.conns) ∙ e in
    elim (Bool-cases (s.next_conn_id == i)) [
      | inl same ↦
          let at : length s.objects ≡ i = ground (arith, v.numbered) in
          record {
            own = sym (some_eq (rw same at found)) ∙ at;
            object = c;
            stored =
                subst (λ k. get_elem? (s.objects ++ (c ∷ [])) k ≡ some c) at
                  (get_elem?-append_new s.objects c);
            timed = timed;
          }
      | inr other ↦
          let old = v.entries i j (rw other at found) in
          record {
            own = old.own;
            object = old.object;
            stored = get_elem?-append_old s.objects (c ∷ []) i old.object old.stored;
            timed = old.timed;
          }
    ]

accept-Inv :
    {L : Type 0} (s : TcpServer L) (now : ℕ)
    → Inv s
    → s.next_conn_id < int_max
    → Fits s.hold now
    → (s' : TcpServer L) × (new_connection s now ≡ some s') × Inv s'
unfolding new_connection
accept-Inv s now v h fits =
    let (l, q, got, is_ready) = get_next_loop-IsReady s.pool v.is_ready in
    let (timer, made, timed) = new_timer-HasTimer s.hold now fits in
    let below : ltb s.next_conn_id int_max ≡ true = ground arith in
    (
      register s q l timer,
      rw (got, made, below),
      record {
        numbered = length-append s.objects (connection s.et timer ∷ []) ∙ omega (arith, v.numbered);
        entries = λ i j e. accept_entries s (connection s.et timer) i j v timed e;
        present =
            ArePresent-accept s.next_conn_id (length s.objects) timer s.conns s.tasks v.present;
        is_ready = is_ready;
      },
    )

cancel_total :
    (hold : Option ℕ) (timer : Option Timer) (timers : List (ℕ × ℕ))
    → HasTimer hold timer
    → (left : List (ℕ × ℕ)) × (cancel hold timer timers ≡ some left)
unfolding cancel
cancel_total none timer timers h = (timers, refl)
cancel_total (some k) timer timers (t, e) = elim (Bool-cases (ltb 0 k)) [
  | inl late ↦ (delete_timer t.expired timers, rw (late, e))
  | inr never ↦ (timers, rw never)
]

removed_entries :
    {L : Type 0} (s : TcpServer L) (c : TcpConnection) (k i j : ℕ)
    → ((i j : ℕ) → lookup i s.conns ≡ some j → IsEntry s.hold s.objects i j)
    → lookup i (erase k s.conns) ≡ some j
    → IsEntry s.hold (set s.objects k c) i j
removed_entries s c k i j old e =
    let found = sym (lookup-erase k i s.conns) ∙ e in
    elim (Bool-cases (k == i)) [
      | inl same ↦ let gone = rw same at found in absurd cc
      | inr other ↦
          let entry = old i j (rw other at found) in
          record {
            own = entry.own;
            object = entry.object;
            stored = get_elem?-set_ne s.objects k i c (ground arith) ∙ entry.stored;
            timed = entry.timed;
          }
    ]

pub present_entry : {A : Type 0} (o : Option A) → o ≢ none → (a : A) × (o ≡ some a)
present_entry none n = absurd (n refl)
present_entry (some a) n = (a, refl)

pub remove-Inv :
    {L : Type 0} (s : TcpServer L) (i : ℕ) (rest : List Task)
    → Inv s
    → s.tasks ≡ remove_connection_in_loop i ∷ rest
    → (s' : TcpServer L) × (remove_in_loop (record s { tasks = rest }) i ≡ some s')
      × Inv s'
      × (s'.conns ≡ erase i s.conns)
      × (s'.tasks ≡ rest)
unfolding remove_in_loop ArePresent
remove-Inv s i rest v e =
    let present = subst (ArePresent s.conns) e v.present in
    let (j, found) = present_entry (lookup i s.conns) present.0 in
    let entry = v.entries i j found in
    let (left, cancelled) = cancel_total s.hold entry.object.timer s.timers entry.timed in
    (
      removed (record s { tasks = rest }) i entry.object left,
      rw (entry.stored, cancelled),
      record {
        numbered = length-set s.objects i (stop_timer entry.object) ∙ v.numbered;
        entries = λ k n f. removed_entries s (stop_timer entry.object) i k n v.entries f;
        present = ArePresent-erase i s.conns rest present.1 present.2;
        is_ready = v.is_ready;
      },
      refl,
      refl,
    )

pub timer-Inv :
    {L : Type 0} (s : TcpServer L) (i : ℕ) (t : Timer) (rest : List Task)
    → Inv s
    → s.tasks ≡ add_timer i t ∷ rest
    → Inv (record s { tasks = rest; timers = add_timer_in_loop i t s.timers })
unfolding ArePresent
timer-Inv s i t rest v e = record {
  numbered = v.numbered;
  entries = v.entries;
  present = subst (ArePresent s.conns) e v.present;
  is_ready = v.is_ready;
}

-- The next task is performed: the connection it removes, if it does, is the only one that goes.
pub perform-Inv :
    {L : Type 0} (s : TcpServer L) (tasks : List Task)
    → Inv s
    → s.tasks ≡ tasks
    → (s' : TcpServer L) × (perform_next s tasks ≡ some s') × Inv s'
unfolding perform_next
perform-Inv s [] v e = (s, refl, v)
perform-Inv s (add_timer i t ∷ rest) v e = (
  record s { tasks = rest; timers = add_timer_in_loop i t s.timers },
  refl,
  timer-Inv s i t rest v e,
)
perform-Inv s (remove_connection_in_loop i ∷ rest) v e =
    let (s', done, w, _, _) = remove-Inv s i rest v e in (s', done, w)

close-Inv :
    {L : Type 0} (s : TcpServer L) (i : ℕ)
    → Inv s
    → lookup i s.conns ≢ none
    → IsKept i s.tasks
    → Inv (remove_connection s i)
unfolding remove_connection
close-Inv s i v n k = record {
  numbered = v.numbered;
  entries = v.entries;
  present = ArePresent-close i s.conns s.tasks n k v.present;
  is_ready = v.is_ready;
}

fail-Inv : {L : Type 0} (s : TcpServer L) (a o : Option ℕ) → Inv s → Inv (accept_failed s a o).0
unfolding accept_failed
fail-Inv s a o v = record {
  numbered = v.numbered;
  entries = v.entries;
  present = v.present;
  is_ready = v.is_ready;
}

step-Inv :
    {L : Type 0} (s : TcpServer L) (a : Action)
    → Inv s
    → Allowed s a
    → (s' : TcpServer L) × (step s a ≡ some s') × Inv s'
unfolding step Allowed
step-Inv s (accepts now) v h = accept-Inv s now v h.0 h.1
step-Inv s (fails a o) v h = (_, refl, fail-Inv s a o v)
step-Inv s (closes i) v h = (_, refl, close-Inv s i v h.0 h.1)
step-Inv s performs v h = perform-Inv s s.tasks v refl

run-Inv :
    {L : Type 0} (s : TcpServer L) (acts : List Action)
    → Inv s
    → AllAllowed s acts
    → (s' : TcpServer L) × (run s acts ≡ some s') × Inv s'
unfolding run AllAllowed
run-Inv s [] v h = (s, refl, v)
run-Inv s (a ∷ rest) v h =
    let (t, first, w) = step-Inv s a v h.0 in
    let (u, later, x) = run-Inv t rest w (h.1 t first) in (u, rw first later, x)

server-Inv :
    {L : Type 0} (et : Bool) (hold : Option ℕ) (pool : EventLoopThreadPool L) (idlefd : Option ℕ)
    → IsReady pool
    → Inv (server et hold pool idlefd)
unfolding lookup ArePresent
server-Inv et hold pool idlefd r = record {
  numbered = refl;
  entries = λ i j e. absurd cc;
  present = tt;
  is_ready = r;
}

-- From the new server over a pool that has started, where every action is allowed.
pub run-server-Inv :
    {L : Type 0} (et : Bool) (hold : Option ℕ) (pool : EventLoopThreadPool L) (idlefd : Option ℕ)
    (acts : List Action)
    → IsReady pool
    → AllAllowed (server et hold pool idlefd) acts
    → (s : TcpServer L) × (run (server et hold pool idlefd) acts ≡ some s) × Inv s
run-server-Inv et hold pool idlefd acts r h =
    run-Inv (server et hold pool idlefd) acts (server-Inv et hold pool idlefd r) h
