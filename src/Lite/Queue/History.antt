-- ===== src/Lite/Queue/History.antt =====
-- Histories of the queue: the calls that its clients make, in the order in which they take the lock.
use mux_mail.Prelude.{ℕ, Option, List, [], ◌∷◌}
use mux_mail.Prelude.Int.{ℤ}
use mux_mail.Lite.Time.{Time}
use mux_mail.Lite.Queue.{
  QueueTask, MemoryQueue, reserve, commit_delayed, release, dequeue_round, close,
}

pub data Call : Type 0 where
  reserves : Call
  commits : Option ℕ → QueueTask → ℤ → Time → Call
  releases : Option ℕ → Call
  dequeues : Time → Call
  closes : Call

-- The state after a call.
unfoldable pub step : MemoryQueue → Call → MemoryQueue
step q reserves = (reserve q).1
step q (commits r task delay now) = (commit_delayed r task delay now q).1
step q (releases r) = release r q
step q (dequeues now) = (dequeue_round now q).1
step q closes = close q

unfoldable pub run : MemoryQueue → List Call → MemoryQueue
unfolding step
run q [] = q
run q (c ∷ cs) = run (step q c) cs
