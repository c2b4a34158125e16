-- ===== src/Base/LogFile/Asynchronous.antt =====
-- The asynchronous log of base/LogFile.cc: the threads that append to the queue `g_bqueue`, the thread of
-- `asyWrite`, and `setOver`. A push or pop that would wait is not possible.
use carf_lib.Shared.{
  ℕ, suc, ◌≡◌, refl, sym, ap, ◌∙◌, subst, inl, inr, Bool, true, false, Option, none, some, List, [],
  ◌∷◌, ◌++◌, append-nil, append_assoc, arith, ◌==◌, if◌then◌else◌, Bool-cases, ◌>>=◌, >>=-eq-some,
  some_eq, Bytes, length, length-append,
}
use carf_lib.Base.BlockQueue.{BlockQueue, make, push_back, pop_front, take_front}
use carf_lib.Base.BlockQueue
use carf_lib.Base.LogFile.{LogFile, open_log, asy_write_one}
use carf_lib.Base.LogFile.Rolling.{Inv, everything, append_file-Inv}

-- `BLCOCK_QUEUE_SIZE`.
abbrev pub block_queue_size : ℕ
block_queue_size = 50000

-- Where `asyWrite` is: before `while(!over)`, before `pop_front`, or behind the loop.
pub data Writer : Type 0 where
  testing popping finished : Writer

-- `appended` is the history of the messages.
pub record System : Type 0 where
  pub log : LogFile
  pub queue : BlockQueue Bytes
  pub over : Bool
  pub writer : Writer
  pub appended : List Bytes

abbrev pub begin : ℕ → ℕ → ℕ → System
begin roll_size check_every_n now = record {
  log = open_log roll_size check_every_n now;
  queue = make block_queue_size;
  over = false;
  writer = testing;
  appended = [];
}

-- `setOver(true)` is `sets_over`, and then `appends []`.
pub data Action : Type 0 where
  appends : Bytes → Action
  sets_over tests : Action
  writes : ℕ → Action

unfoldable pub test : System → Writer → Option System
test s testing = some (record s { writer = if s.over then finished else popping })
test s popping = none
test s finished = none

unfoldable pub write : System → ℕ → Writer → Option System
write s now testing = none
write s now popping = pop_front s.queue >>= λ (message, queue).
    some (record s { log = asy_write_one s.log now message; queue = queue; writer = testing })
write s now finished = none

unfoldable pub step : System → Action → Option System
step s (appends message) = push_back s.queue message >>= λ queue.
    some (record s { queue = queue; appended = s.appended ++ (message ∷ []) })
step s sets_over = some (record s { over = true })
step s tests = test s s.writer
step s (writes now) = write s now s.writer

unfoldable pub run : System → List Action → Option System
run s [] = some s
run s (a ∷ rest) = step s a >>= λ s'. run s' rest

abbrev pub together : List Bytes → Bytes
together [] = []
together (m ∷ ms) = m ++ together ms

together-append : (ms : List Bytes) (m : Bytes) → together (ms ++ (m ∷ [])) ≡ together ms ++ m
together-append [] m = append-nil m
together-append (n ∷ ms) m =
    ap (λ t. n ++ t) (together-append ms m) ∙ sym (append_assoc n (together ms) m)

-- The files and then the queue hold what was appended, in order.
pub record InOrder (s : System) : Type 0 where
  pub complete : everything s.log.closed s.log.file ++ together s.queue.queue ≡ together s.appended
  pub rolled : Inv s.log
  pub queued : BlockQueue.IsValid s.queue

append-InOrder :
    (s s' : System) (message : Bytes)
    → InOrder s
    → (push_back s.queue message >>= λ queue.
        some (record s { queue = queue; appended = s.appended ++ (message ∷ []) }))
      ≡ some s'
    → InOrder s'
unfolding push_back
append-InOrder s s' message v e = elim (Bool-cases (s.queue.used == s.queue.capacity)) [
  | inl full ↦ let failed = rw full at e in absurd cc
  | inr room ↦ subst InOrder (some_eq (rw room at e)) (record {
    complete =
        ap (λ t. everything s.log.closed s.log.file ++ t) (together-append s.queue.queue message)
        ∙ sym (append_assoc (everything s.log.closed s.log.file) (together s.queue.queue) message)
        ∙ ap (λ t. t ++ message) v.complete
        ∙ sym (together-append s.appended message);
    rolled = v.rolled;
    queued = record {
      counted = omega (arith, length-append s.queue.queue (message ∷ []), v.queued.counted);
      bounded = (let b = v.queued.bounded in ground arith);
    };
  })
]

take-cases :
    (q q' : BlockQueue Bytes) (m : Bytes) (ms : List Bytes)
    → ms ≡ q.queue
    → BlockQueue.IsValid q
    → take_front q ms ≡ some (m, q')
    → (q.queue ≡ m ∷ q'.queue) × BlockQueue.IsValid q'
unfolding take_front
take-cases q q' m [] same v e = absurd cc
take-cases q q' m (n ∷ ms) same v e =
    let taken = some_eq e in
    let counts : q.used ≡ suc (length ms) = v.counted ∙ ap length (sym same) in
    (
      sym same ∙ ap (λ x. x.0 ∷ x.1.queue) taken,
      subst (λ x. BlockQueue.IsValid x.1) taken
          (record { counted = omega arith; bounded = (let b = v.bounded in omega arith) }),
    )

pop-cases :
    (q q' : BlockQueue Bytes) (m : Bytes)
    → BlockQueue.IsValid q
    → pop_front q ≡ some (m, q')
    → (q.queue ≡ m ∷ q'.queue) × BlockQueue.IsValid q'
unfolding pop_front
pop-cases q q' m v e = elim (Bool-cases (q.used == 0)) [
  | inl empty ↦ let failed = rw empty at e in absurd cc
  | inr some_left ↦ take-cases q q' m q.queue refl v (rw some_left at e)
]

write-InOrder :
    (s s' : System) (now : ℕ) (w : Writer) → InOrder s → write s now w ≡ some s' → InOrder s'
unfolding write
write-InOrder s s' now testing v e = absurd cc
write-InOrder s s' now finished v e = absurd cc
write-InOrder s s' now popping v e =
    let ((m, q), popped, done) = >>=-eq-some (pop_front s.queue) _ e in
    let (front, valid) = pop-cases s.queue q m v.queued popped in
    let (_, _, wrote, kept) = append_file-Inv s.log now m v.rolled in
    subst InOrder (some_eq done) (record {
      complete =
          ap (λ t. t ++ together q.queue) wrote
          ∙ append_assoc (everything s.log.closed s.log.file) m (together q.queue)
          ∙ ap (λ ms. everything s.log.closed s.log.file ++ together ms) (sym front)
          ∙ v.complete;
      rolled = kept;
      queued = valid;
    })

test-InOrder : (s s' : System) (w : Writer) → InOrder s → test s w ≡ some s' → InOrder s'
unfolding test
test-InOrder s s' testing v e =
    subst InOrder (some_eq e)
      (record { complete = v.complete; rolled = v.rolled; queued = v.queued })
test-InOrder s s' popping v e = absurd cc
test-InOrder s s' finished v e = absurd cc

step-InOrder : (s s' : System) (a : Action) → InOrder s → step s a ≡ some s' → InOrder s'
unfolding step
step-InOrder s s' (appends m) v e = append-InOrder s s' m v e
step-InOrder s s' sets_over v e =
    subst InOrder (some_eq e)
      (record { complete = v.complete; rolled = v.rolled; queued = v.queued })
step-InOrder s s' tests v e = test-InOrder s s' s.writer v e
step-InOrder s s' (writes now) v e = write-InOrder s s' now s.writer v e

run-InOrder : (s s' : System) (acts : List Action) → InOrder s → run s acts ≡ some s' → InOrder s'
unfolding run
run-InOrder s s' [] v e = subst InOrder (some_eq e) v
run-InOrder s s' (a ∷ rest) v e =
    let (t, first, later) = >>=-eq-some (step s a) _ e in
    run-InOrder t s' rest (step-InOrder s t a v first) later

-- Behind its loop the writer writes no more.
abbrev SameLog : LogFile → System → Type 0
SameLog l s = (s.writer ≡ finished) × (s.log ≡ l)

step-SameLog :
    (l : LogFile) (s s' : System) (a : Action) → SameLog l s → step s a ≡ some s' → SameLog l s'
unfolding step test write
step-SameLog l s s' (appends m) v e =
    let (q, pushed, done) = >>=-eq-some (push_back s.queue m) _ e in
    subst (SameLog l) (some_eq done) v
step-SameLog l s s' sets_over v e = subst (SameLog l) (some_eq e) v
step-SameLog l s s' tests v e =
    let failed : none ≡ some s' = ap (λ w. test s w) (sym v.0) ∙ e in absurd cc
step-SameLog l s s' (writes now) v e =
    let failed : none ≡ some s' = ap (λ w. write s now w) (sym v.0) ∙ e in absurd cc

run-SameLog :
    (l : LogFile) (s s' : System) (acts : List Action)
    → SameLog l s
    → run s acts ≡ some s'
    → SameLog l s'
unfolding run
run-SameLog l s s' [] v e = subst (SameLog l) (some_eq e) v
run-SameLog l s s' (a ∷ rest) v e =
    let (t, first, later) = >>=-eq-some (step s a) _ e in
    run-SameLog l t s' rest (step-SameLog l s t a v first) later

-- In the asynchronous mode, from a new log on and in any order of the steps of the threads that append,
-- of the writing thread and of `setOver`: the files together, followed by the messages in the queue,
-- hold all messages that were appended, in order and each once; the byte count of the open file is
-- right and below the size to roll at, and the queue within its capacity. Once the writing thread has
-- left its loop, nothing that is queued then or later is ever written.
pub logged-InOrder :
    (roll_size check now : ℕ) (acts : List Action) (s : System)
    → run (begin roll_size check now) acts ≡ some s
    → InOrder s
      × (s.writer ≡ finished
          → (rest : List Action) (s' : System) → run s rest ≡ some s'
          → s'.log ≡ s.log)
unfolding open_log
logged-InOrder roll_size check now acts s e = (
  run-InOrder (begin roll_size check now) s acts
      (record {
        complete = refl;
        rolled = record { counted = refl; below = λ h. h };
        queued = record { counted = refl; bounded = omega arith };
      })
      e,
  λ over rest s' later. (run-SameLog s.log s s' rest (over, refl) later).1,
)
