-- ===== src/Tests/Threads.antt =====
-- A thread whose start loses its signal.
use carf_lib.Shared.{◌≡◌, refl, ◌≢◌, ◌↔◌}
use carf_lib.Base.Thread.{Starting, the_parent, the_child, returned, asleep, running, step, run}
use carf_lib.Base.Thread.Wakeup.{IsOver, lost, start_returns_iff}

abbrev slept : Starting
slept = record { parent = asleep; child = running; cond_num = 1 }

slept-IsOver : IsOver slept
unfolding step
slept-IsOver the_parent = refl
slept-IsOver the_child = refl

start_returns_iff_example : (slept.parent ≡ returned) ↔ (lost ≢ lost)
unfolding run step
start_returns_iff_example = start_returns_iff slept lost refl slept-IsOver
