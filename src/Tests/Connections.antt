-- ===== src/Tests/Connections.antt =====
-- Connections and their timers on short histories.
use carf_lib.Shared.{
  ℕ, ◌+◌, ◌≤◌, ◌≡◌, refl, sym, ◌∙◌, subst, inl, inr, true, false, none, some, List, [], ◌∷◌, ◌++◌,
  arith, leb, ◌==◌, if◌then◌else◌, Bool-cases, some_eq, Bytes, replicate, length-replicate,
}
use carf_lib.Shared.StdMap.{nat_key, lookup}
use carf_lib.Net.Buffer.{Buffer, make, copy_to, append, grow, readable_bytes}
use carf_lib.Net.TcpConnection.{
  TcpConnection, Timer, wrote, connection, send, keep_rest, shutdown_write, long_max,
}
use carf_lib.Net.TcpConnection.Sending.{
  Event, sends, ready, given, pending, IsSending, Passes, Within, handle_all, handle_all-Passes,
}
use carf_lib.Net.TcpConnection.Receiving.{StoredAsZeros, store_full}
use carf_lib.Net.TimerQueue.{Fired, run_due}
use carf_lib.Net.TimerQueue.Due.{IsDue, IsIdle, AllInRange, InRange}
use carf_lib.Net.TimerQueue.Idle.{run_due_lem}

abbrev fresh : TcpConnection
fresh = connection false none

abbrev kept : TcpConnection
kept = record fresh {
  write_buffer = record {
    bytes = copy_to (replicate 1024 0) 0 (2 ∷ 3 ∷ []);
    read_index = 0;
    write_index = 2;
  };
  writing = true;
}

sent_one : send fresh (1 ∷ 2 ∷ 3 ∷ []) (wrote 1) ≡ some (kept, 1 ∷ [])
unfolding send keep_rest append grow make
sent_one = refl

abbrev events : List Event
events = sends (1 ∷ 2 ∷ 3 ∷ []) (wrote 1) ∷ ready (wrote 2) ∷ []

fresh-IsSending : IsSending fresh
unfolding make
fresh-IsSending = record {
  valid = omega (arith, length-replicate {A = ℕ} 1024 0);
  watched = λ e. refl;
}

handle_all-Passes_example :
    (d : TcpConnection) × (out : Bytes) × (handle_all fresh events ≡ some (d, out))
    × Passes (pending fresh ++ given events) d out
unfolding make
handle_all-Passes_example = handle_all-Passes fresh events fresh-IsSending (
  omega arith,
  inr (refl, omega (arith, length-replicate {A = ℕ} 1024 0)),
  λ d out e.
      subst (λ p. Within (readable_bytes p.0.write_buffer) (wrote 2) × Unit {0})
        (some_eq (sym sent_one ∙ e)) (omega arith, tt),
)

abbrev tiny : Buffer
tiny = record { bytes = 5 ∷ 0 ∷ 0 ∷ []; read_index = 0; write_index = 1 }

store_full_example : StoredAsZeros tiny (7 ∷ 8 ∷ [])
store_full_example = store_full tiny (7 ∷ 8 ∷ []) (omega arith) refl (omega arith)

abbrev timer : Timer
timer = record { interval = 3; expired = 5 }

abbrev timed : TcpConnection
timed = record (connection false (some timer)) { visited = 2 }

one_timed : AllInRange ((1, timed) ∷ [])
unfolding lookup
one_timed i c found = elim (Bool-cases (1 == i)) [
  | inl same ↦
      subst InRange (some_eq (rw same at found))
        (λ t e. subst (λ u. 2 + u.interval ≤ long_max) (some_eq e) (omega arith))
  | inr other ↦ let absent = rw other at found in absurd cc
]

run_due_lem_example :
    (f : Fired) × (run_due 6 (λ i. 6) ((5, 1) ∷ (9, 2) ∷ []) ((1, timed) ∷ []) ≡ some f)
    × ((k : ℕ) → lookup k f.timers ≡ (if leb k 6 then none else lookup k ((5, 1) ∷ (9, 2) ∷ [])))
    × ((i : ℕ) (c : TcpConnection)
        → lookup i ((1, timed) ∷ []) ≡ some c
        → IsIdle 6 c
        → IsDue 6 i ((5, 1) ∷ (9, 2) ∷ [])
        → lookup i f.conns ≡ some (shutdown_write c))
    × ((i : ℕ)
        → ¬ (IsDue 6 i ((5, 1) ∷ (9, 2) ∷ []))
        → lookup i f.conns ≡ lookup i ((1, timed) ∷ []))
run_due_lem_example =
    run_due_lem 6 (λ i. 6) ((5, 1) ∷ (9, 2) ∷ []) ((1, timed) ∷ []) ((refl, tt), (tt, tt)) one_timed
