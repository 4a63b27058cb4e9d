-- ===== src/Tests/Queue.antt =====
-- The queue: two tasks, one of them delayed, through a queue of two slots.
use mathlib.Core.List.{Perm}
use mux_mail.Prelude.{◌≤◌, ◌≡◌, refl, false, some, List, [], ◌∷◌, ◌++◌, map, arith, take, All}
use mux_mail.Prelude.Int.{pos}
use mux_mail.Lite.Queue.{
  MemoryQueue, QueuedTask, ok, queued_item, reserve, commit_delayed, dequeue_round,
  move_ready_locked, take_ready, commit_unused, enqueue_item, due, not_due, heap_push, release_slot,
  less, next_delay_locked,
}
use mux_mail.Lite.Queue.History.{Call, reserves, commits, dequeues, run}
use mux_mail.Lite.Queue.Invariant.{IsValid, run-IsValid}
use mux_mail.Lite.Queue.Order.{line, drain, drain-take}
use mux_mail.Lite.Queue.Delivery.{held, all_accepted, all_delivered, never_closes, exactly_once}
use mux_mail.Lite.Queue.Timing.{all_returns, WaitsFor, wait_exact, never_early}
use mux_mail.Lite.Queue.Reservation.{spares, reserved_commit_ok}
use mux_mail.Tests.Data.{task_of}

abbrev empty : MemoryQueue
empty = record {
  capacity = 2;
  pending = 0;
  next_seq = 0;
  ready = [];
  delayed = [];
  closed = false;
  notify = 0;
  reservations = [];
}

abbrev calls : List Call
calls =
    reserves
    ∷ reserves
    ∷ commits (some 1) (task_of 2) (pos 30) 10
    ∷ commits (some 0) (task_of 1) (pos 0) 20
    ∷ dequeues 20
    ∷ dequeues 40
    ∷ []

both_returned :
    all_delivered empty calls
    ≡ record (task_of 1) { available_at = 20 } ∷ record (task_of 2) { available_at = 40 } ∷ []
unfolding all_delivered run reserve commit_delayed commit_unused release_slot enqueue_item heap_push
    less dequeue_round move_ready_locked take_ready due not_due next_delay_locked
both_returned = refl

empty-IsValid : IsValid empty
empty-IsValid = ground arith

exactly_once_example :
    Perm
      (all_delivered empty calls ++ held (run empty calls))
      (held empty ++ all_accepted empty calls)
exactly_once_example = exactly_once empty calls (unfold never_closes in refl)

run-IsValid_example : IsValid (run empty calls)
run-IsValid_example = run-IsValid empty calls empty-IsValid

never_early_example : All (λ r. (r.1).available_at ≤ r.0) (all_returns empty calls)
never_early_example =
    never_early 0 empty calls (omega arith) (record { ready_due = tt; delayed_due = tt })

abbrev one_reserved : MemoryQueue
one_reserved = record empty { pending = 1; reservations = false ∷ [] }

-- Another client fills the queue in between.
reserved_commit_ok_example :
    (commit_delayed
      (some 0)
      (task_of 1)
      (pos 0)
      5
      (run one_reserved (reserves ∷ dequeues 3 ∷ []))).0
    ≡ ok tt
reserved_commit_ok_example =
    reserved_commit_ok empty one_reserved 0 (reserves ∷ dequeues 3 ∷ []) (task_of 1) (pos 0) 5
      (unfold reserve in refl) (unfold spares in refl)

abbrev later : QueuedTask
later = queued_item (task_of 1) 50 1

abbrev one_delayed : MemoryQueue
one_delayed = record empty { pending = 1; next_seq = 1; delayed = later ∷ [] }

wait_exact_example : WaitsFor 20 one_delayed (some 30)
wait_exact_example =
    wait_exact 20 one_delayed one_delayed (some 30) refl
      (unfold dequeue_round move_ready_locked take_ready due not_due next_delay_locked in refl)

drain-take_example : drain 3 60 one_delayed ≡ take 3 (map (λ x. x.task) (line 60 one_delayed))
drain-take_example = drain-take 3 60 one_delayed refl
