-- ===== src/Tests/Asynchronous.antt =====
-- A short history of the asynchronous log.
use carf_lib.Shared.{◌≡◌, refl, true, some, List, [], ◌∷◌}
use carf_lib.Base.BlockQueue.{push_back, pop_front, take_front}
use carf_lib.Base.LogFile.{open_log, asy_write_one, roll_if_due}
use carf_lib.Base.LogFile.Asynchronous.{
  System, Action, appends, sets_over, tests, writes, finished, run, step, test, write, InOrder,
  block_queue_size, logged-InOrder,
}

abbrev history : List Action
history = appends (1 ∷ 2 ∷ []) ∷ tests ∷ writes 5 ∷ sets_over ∷ appends [] ∷ tests ∷ []

-- The message of `setOver` is left.
abbrev last : System
last = record {
  log = record {
    roll_size = 10;
    check_every_n = 3;
    written_bytes = 2;
    count = 0;
    current_day = 0;
    file = 1 ∷ 2 ∷ [];
    closed = [];
  };
  queue = record { queue = [] ∷ []; used = 1; capacity = block_queue_size };
  over = true;
  writer = finished;
  appended = (1 ∷ 2 ∷ []) ∷ [] ∷ [];
}

logged-InOrder_example :
    InOrder last
    × (last.writer ≡ finished
        → (rest : List Action) (s : System) → run last rest ≡ some s
        → s.log ≡ last.log)
unfolding run step test write push_back pop_front take_front open_log asy_write_one roll_if_due
logged-InOrder_example = logged-InOrder 10 3 0 history last refl
