-- ===== src/Worker/Round.antt =====
-- runOne of internal/worker/worker.go: one round of its loop, over the queue of internal/lite. The
-- context is not cancelled, so the only error of Dequeue is that the queue is closed.
pub mod Laws
use mux_mail.Prelude.{ℕ, Option, none, List, [], ◌∷◌}
use mux_mail.Lite.Time.{Time}
use mux_mail.Lite.Queue.{MemoryQueue, QueueTask, Round, returned, failed, waiting, dequeue_round}
use mux_mail.Worker.Config.{Worker}
use mux_mail.Worker.Events.{Event}
use mux_mail.Worker.Process.{RetryError, Readings, process_task}

-- The loop ends, Dequeue still waits, or a task was processed; its error goes to the error handler.
pub data WorkerRound : Type 0 where
  stopped : WorkerRound
  waits : Option ℕ → WorkerRound
  worked : List Event → Option RetryError → WorkerRound

-- What the error handler gets from ProcessTask.
abbrev pub error_of : WorkerRound → Option RetryError
error_of (worked events error) = error
error_of _ = none

unfoldable pub run_round : Worker → Time → Readings → MemoryQueue → WorkerRound × MemoryQueue
unfolding process_task dequeue_round
run_round w now r q =
    let (round, q') = dequeue_round now q in
    elim round [
      | failed e ↦ (stopped, q')
      | waiting delay ↦ (waits delay, q')
      | returned task ↦ let p = process_task w r task q' in (worked p.events p.error, p.queue)
    ]

unfoldable pub run_rounds : Worker → List (Time × Readings) → MemoryQueue → MemoryQueue
unfolding run_round
run_rounds w [] q = q
run_rounds w ((now, r) ∷ rest) q = run_rounds w rest (run_round w now r q).1
