-- ===== src/Net/TcpServer/Turns.antt =====
-- The loops that the connections of the server are given to.
use carf_lib.Shared.{
  ℕ, zero, suc, ◌<◌, ◌≡◌, refl, sym, ap, ◌∙◌, subst, Bool, true, false, Option, none, some, List,
  [], ◌∷◌, ◌++◌, map, ltb, if◌then◌else◌, >>=-eq-some, some_eq, length, get_elem?, replicate,
}
use carf_lib.Shared.StdMap.{nat_key}
use carf_lib.Net.TimerQueue.{int_max}
use carf_lib.Net.EventLoopThreadPool.{EventLoopThreadPool, get_next_loop}
use carf_lib.Net.TcpServer.{
  Task, add_timer, remove_connection_in_loop, TcpServer, server, new_timer, register,
  new_connection, accept_failed, remove_connection, cancel, remove_in_loop, perform_next, Action,
  accepts, fails, closes, performs, step, run,
}
use carf_lib.Net.EventLoopThreadPool.Turns.{next_loops, next_loops_lem, turns}

next_loops_snoc :
    {L : Type 0} (p q r : EventLoopThreadPool L) (n : ℕ) (l : Option L) (ls : List (Option L))
    → next_loops p n ≡ some (ls, q)
    → get_next_loop q ≡ some (l, r)
    → next_loops p (suc n) ≡ some (ls ++ (l ∷ []), r)
unfolding next_loops
next_loops_snoc p q r zero l ls e f =
    let same = some_eq e in
    let called = ap get_next_loop (ap (λ x. x.1) same) ∙ f in
    rw called (ap (λ xs. some (xs ++ (l ∷ []), r)) (ap (λ x. x.0) same))
next_loops_snoc p q r (suc n) l ls e f =
    let ((k, p'), first, e1) = >>=-eq-some (get_next_loop p) _ e in
    let ((ks, q'), others, e2) = >>=-eq-some (next_loops p' n) _ e1 in
    let same = some_eq e2 in
    let called = ap get_next_loop (ap (λ x. x.1) same) ∙ f in
    let behind = next_loops_snoc p' q' r n l ks others called in
    rw (first, behind) (ap (λ xs. some (xs ++ (l ∷ []), r)) (ap (λ x. x.0) same))

-- The loops of the connections are what the calls of `getNextLoop` returned.
abbrev Turned : {L : Type 0} → EventLoopThreadPool L → TcpServer L → Type 0
Turned p s = next_loops p s.next_conn_id ≡ some (map (λ e. some e.0) s.established, s.pool)

map-snoc :
    {A B : Type 0} (f : A → B) (xs : List A) (a : A)
    → map f (xs ++ (a ∷ [])) ≡ map f xs ++ (f a ∷ [])
map-snoc f [] a = refl
map-snoc f (x ∷ xs) a = ap (λ ys. f x ∷ ys) (map-snoc f xs a)

guarded : {A : Type 0} (b : Bool) (x y : A) → (if b then some x else none) ≡ some y → x ≡ y
guarded true x y e = some_eq e
guarded false x y e = absurd cc

accept-Turned :
    {L : Type 0} (p : EventLoopThreadPool L) (s s' : TcpServer L) (now : ℕ)
    → Turned p s
    → new_connection s now ≡ some s'
    → Turned p s'
unfolding new_connection
accept-Turned p s s' now v e =
    let ((next, q), called, e1) = >>=-eq-some (get_next_loop s.pool) _ e in
    let (l, found, e2) = >>=-eq-some next _ e1 in
    let (timer, made, e3) = >>=-eq-some (new_timer s.hold now) _ e2 in
    subst (Turned p) (guarded (ltb s.next_conn_id int_max) (register s q l timer) s' e3) (
      next_loops_snoc p s.pool q s.next_conn_id (some l) (map (λ x. some x.0) s.established) v
        (called ∙ ap (λ x. some (x, q)) found)
      ∙ ap (λ ls. some (ls, q))
          (sym (map-snoc (λ x. some x.0) s.established (l, length s.objects))))

remove-Turned :
    {L : Type 0} (p : EventLoopThreadPool L) (s s' : TcpServer L) (i : ℕ)
    → Turned p s
    → remove_in_loop s i ≡ some s'
    → Turned p s'
unfolding remove_in_loop
remove-Turned p s s' i v e =
    let (c, found, e1) = >>=-eq-some (get_elem? s.objects i) _ e in
    let (timers, cancelled, e2) = >>=-eq-some (cancel s.hold c.timer s.timers) _ e1 in
    subst (Turned p) (some_eq e2) v

perform-Turned :
    {L : Type 0} (p : EventLoopThreadPool L) (s s' : TcpServer L) (tasks : List Task)
    → Turned p s
    → perform_next s tasks ≡ some s'
    → Turned p s'
unfolding perform_next
perform-Turned p s s' [] v e = subst (Turned p) (some_eq e) v
perform-Turned p s s' (add_timer i t ∷ rest) v e = subst (Turned p) (some_eq e) v
perform-Turned p s s' (remove_connection_in_loop i ∷ rest) v e =
    remove-Turned p (record s { tasks = rest }) s' i v e

step-Turned :
    {L : Type 0} (p : EventLoopThreadPool L) (s s' : TcpServer L) (a : Action)
    → Turned p s
    → step s a ≡ some s'
    → Turned p s'
unfolding step accept_failed remove_connection
step-Turned p s s' (accepts now) v e = accept-Turned p s s' now v e
step-Turned p s s' (fails a o) v e = subst (Turned p) (some_eq e) v
step-Turned p s s' (closes i) v e = subst (Turned p) (some_eq e) v
step-Turned p s s' performs v e = perform-Turned p s s' s.tasks v e

run-Turned :
    {L : Type 0} (p : EventLoopThreadPool L) (s s' : TcpServer L) (acts : List Action)
    → Turned p s
    → run s acts ≡ some s'
    → Turned p s'
unfolding run
run-Turned p s s' [] v e = subst (Turned p) (some_eq e) v
run-Turned p s s' (a ∷ rest) v e =
    let (t, first, later) = >>=-eq-some (step s a) _ e in
    run-Turned p t s' rest (step-Turned p s t a v first) later

-- The connections that a server has made, in any order of its handlers and tasks, over a pool that was
-- never asked and whose slots are all there: without threads they all belong to the server's own
-- loop, and with threads to the slots in turn, from the first on and round again.
pub connections_in_turn :
    {L : Type 0} (et : Bool) (hold : Option ℕ) (pool : EventLoopThreadPool L) (idlefd : Option ℕ)
    (acts : List Action) (s : TcpServer L)
    → pool.current_loop ≡ none
    → length pool.loops ≡ pool.num
    → run (server et hold pool idlefd) acts ≡ some s
    → (pool.num ≡ 0 → map (λ e. some e.0) s.established ≡ replicate s.next_conn_id (some pool.loop))
      × (0 < pool.num
          → map some (map (λ e. some e.0) s.established)
            ≡ turns pool.loops pool.num 0 s.next_conn_id)
unfolding next_loops
connections_in_turn et hold pool idlefd acts s none_asked full e =
    let v = run-Turned pool (server et hold pool idlefd) s acts refl e in
    let (single, threads) = next_loops_lem pool s.next_conn_id none_asked full in
    (
      λ z. ap (λ x. x.0) (some_eq (sym v ∙ single z)),
      λ h.
          let (ls, q, called, same) = threads h in
          ap (λ x. map some x.0) (some_eq (sym v ∙ called)) ∙ same,
    )
