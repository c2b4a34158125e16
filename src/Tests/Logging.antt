-- ===== src/Tests/Logging.antt =====
-- The blocking queue and the log file on short histories.
use carf_lib.Shared.{ℕ, ◌<◌, ◌≡◌, refl, some, List, [], ◌∷◌, ◌++◌, arith, codes, length}
use carf_lib.Base.BlockQueue.{push_back, pop_front}
use carf_lib.Base.BlockQueue.Threads.{
  System, Inv, Action, pushes, pops, newcomer, woken, start, step, run, after_push, after_pop,
  run-start-Inv, asleep_only_blocked,
}
use carf_lib.Base.LogFile.{LogFile, open_log, append_file, asy_write_one}
use carf_lib.Base.LogFile.Rolling
use carf_lib.Base.LogFile.Rolling.{everything, append_file-Inv, asy_write-no_daily_roll}

-- A popper waits; one item comes and wakes it, a second fills the queue, and a third pusher waits.
abbrev schedule : List (Action ℕ)
schedule =
    pops newcomer
    ∷ pushes newcomer 7
    ∷ pushes newcomer 8
    ∷ pushes newcomer 9
    ∷ pops woken
    ∷ pushes woken 9
    ∷ pushes newcomer 1
    ∷ []

abbrev reached : System ℕ
reached = record {
  block_queue = record { queue = 8 ∷ 9 ∷ []; used = 2; capacity = 2 };
  pushed = 7 ∷ 8 ∷ 9 ∷ [];
  popped = 7 ∷ [];
  sleeping_pushers = 1;
  woken_pushers = 0;
  sleeping_poppers = 0;
  woken_poppers = 0;
}

schedule_runs : run (start 2) schedule ≡ some reached
unfolding run step after_push after_pop push_back pop_front
schedule_runs = refl

run-start-Inv_example : Inv 2 reached
run-start-Inv_example = run-start-Inv 2 reached schedule schedule_runs

asleep_only_blocked_example :
    (0 < reached.sleeping_poppers → length reached.block_queue.queue ≡ 0)
    × (0 < reached.sleeping_pushers → length reached.block_queue.queue ≡ 2)
    × (0 < 2 → 0 < reached.sleeping_poppers → 0 < reached.sleeping_pushers → ⊥)
asleep_only_blocked_example = asleep_only_blocked 2 reached schedule schedule_runs refl refl

abbrev log : LogFile
log = open_log 10 2 100

append_file-Inv_example :
    (everything
        (append_file log 200 (codes "0123456789")).closed
        (append_file log 200 (codes "0123456789")).file
      ≡ everything log.closed log.file ++ codes "0123456789")
    × Rolling.Inv (append_file log 200 (codes "0123456789"))
    × (everything
          (asy_write_one log 200 (codes "0123456789")).closed
          (asy_write_one log 200 (codes "0123456789")).file
        ≡ everything log.closed log.file ++ codes "0123456789")
    × Rolling.Inv (asy_write_one log 200 (codes "0123456789"))
unfolding open_log
append_file-Inv_example =
    append_file-Inv log 200 (codes "0123456789")
      (record { counted = refl; below = λ h. omega arith })
