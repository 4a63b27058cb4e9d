-- ===== src/Lite/Queue.antt =====
-- internal/lite/memory_queue.go. An operation takes the state and returns the new one, since each
-- runs under the queue's mutex; `now` is what q.now() returned. A reservation is a pointer, `none`
-- for nil, to a cell of `reservations` that holds its `used` flag.
pub mod History
pub mod Invariant
pub mod Delivery
pub mod Added
pub mod Order
pub mod Timing
pub mod Reservation
use mux_mail.Prelude.{
  ℕ, zero, suc, ◌+◌, ◌-◌, Bool, true, false, ◌||◌, Option, none, some, List, [], ◌∷◌, ◌++◌, length,
  set, get_elem?, leb, ltb, ◌==◌, nat_eq, if◌then◌else◌,
}
use mux_mail.Prelude.Int.{ℤ, pos, negsuc, pos_part}
use mux_mail.Lite.Time.{Time}
use mux_mail.Domain.Types.{Message}

pub record QueueTask : Type 0 where
  pub message : Message
  pub attempt_no : ℤ
  pub available_at : Time

pub record QueuedTask : Type 0 where
  pub task : QueueTask
  pub ready_at : Time
  pub sequence : ℕ
  pub available : Time

-- `delayed` holds the heap's elements in the order of `less`, which is total on them since no two
-- have one sequence number: its head is the element at index 0, which heap.Pop removes.
-- `notify` counts the channels that signalLocked closed.
pub record MemoryQueue : Type 0 where
  pub capacity : ℕ
  pub pending : ℕ
  pub next_seq : ℕ
  pub ready : List QueuedTask
  pub delayed : List QueuedTask
  pub closed : Bool
  pub notify : ℕ
  pub reservations : List Bool

pub data QueueError : Type 0 where
  memory_queue_closed queue_full reservation_required reservation_already_used : QueueError
  capacity_not_positive : QueueError

pub data Result {ℓ} (A : Type ℓ) : Type ℓ where
  ok : A → Result A
  err : QueueError → Result A

-- NewMemoryQueue
unfoldable pub new_memory_queue : ℤ → Result MemoryQueue
new_memory_queue (negsuc n) = err capacity_not_positive
new_memory_queue (pos zero) = err capacity_not_positive
new_memory_queue (pos (suc n)) = ok (record {
  capacity = suc n;
  pending = 0;
  next_seq = 0;
  ready = [];
  delayed = [];
  closed = false;
  notify = 0;
  reservations = [];
})

-- delayedTaskHeap.Less
unfoldable pub less : QueuedTask → QueuedTask → Bool
less a b = if a.ready_at == b.ready_at then ltb a.sequence b.sequence else ltb a.ready_at b.ready_at

-- heap.Push
unfoldable pub heap_push : QueuedTask → List QueuedTask → List QueuedTask
unfolding less
heap_push item [] = item ∷ []
heap_push item (x ∷ xs) = if less item x then item ∷ x ∷ xs else x ∷ heap_push item xs

unfoldable pub signal_locked : MemoryQueue → MemoryQueue
signal_locked q = record q { notify = q.notify + 1 }

-- A decrement that the code guards by `q.pending > 0`.
unfoldable pub release_slot : MemoryQueue → MemoryQueue
release_slot q = if ltb 0 q.pending then record q { pending = q.pending - 1 } else q

-- Reserve: the pointer is the index of the new cell.
unfoldable pub reserve : MemoryQueue → Result ℕ × MemoryQueue
reserve q =
    if q.closed
    then (err memory_queue_closed, q)
    else if leb q.capacity q.pending
    then (err queue_full, q)
    else (
      ok (length q.reservations),
      record q { pending = q.pending + 1; reservations = q.reservations ++ false ∷ [] },
    )

-- The item that CommitDelayed queues, and where: with no delay at the end of `ready`.
abbrev pub queued_item : QueueTask → Time → ℕ → QueuedTask
queued_item task available sequence = record {
  task = record task { available_at = available };
  ready_at = available;
  sequence = sequence;
  available = available;
}

unfoldable pub enqueue_item : QueueTask → ℕ → Time → MemoryQueue → MemoryQueue
unfolding signal_locked
enqueue_item task delay now q =
    let item = queued_item task (now + delay) (q.next_seq + 1) in
    signal_locked (
      if delay == 0
      then record q { next_seq = q.next_seq + 1; ready = q.ready ++ item ∷ [] }
      else record q { next_seq = q.next_seq + 1; delayed = heap_push item q.delayed })

-- CommitDelayed after its check of `r.used`.
unfoldable pub commit_unused :
    ℕ → QueueTask → ℤ → Time → MemoryQueue → Result (Unit {0}) × MemoryQueue
commit_unused r task delay now q =
    let q' = record q { reservations = set q.reservations r true } in
    if q.closed
    then (err memory_queue_closed, release_slot q')
    else (ok tt, enqueue_item task (pos_part delay) now q')

-- CommitDelayed. A pointer always points to a cell.
unfoldable pub commit_delayed :
    Option ℕ → QueueTask → ℤ → Time → MemoryQueue → Result (Unit {0}) × MemoryQueue
commit_delayed none task delay now q = (err reservation_required, q)
commit_delayed (some r) task delay now q = elim (get_elem? q.reservations r) [
  | none ↦ (err reservation_required, q)
  | some true ↦ (err reservation_already_used, q)
  | some false ↦ commit_unused r task delay now q
]

-- Commit
unfoldable pub commit : Option ℕ → QueueTask → Time → MemoryQueue → Result (Unit {0}) × MemoryQueue
unfolding commit_delayed
commit r task now q = commit_delayed r task (pos 0) now q

-- Release
unfoldable pub release : Option ℕ → MemoryQueue → MemoryQueue
unfolding release_slot signal_locked
release none q = q
release (some r) q = elim (get_elem? q.reservations r) [
  | none ↦ q
  | some true ↦ q
  | some false ↦
      signal_locked (release_slot (record q { reservations = set q.reservations r true }))
]

-- EnqueueDelayed: Reserve, then CommitDelayed under a second lock; here nothing runs in between.
unfoldable pub enqueue_delayed :
    QueueTask → ℤ → Time → MemoryQueue → Result (Unit {0}) × MemoryQueue
unfolding reserve commit_delayed
enqueue_delayed task delay now q =
    let (reservation, q') = reserve q in
    elim reservation [ err e ↦ (err e, q') | ok r ↦ commit_delayed (some r) task delay now q' ]

-- Enqueue
unfoldable pub enqueue : QueueTask → Time → MemoryQueue → Result (Unit {0}) × MemoryQueue
unfolding enqueue_delayed
enqueue task now q = enqueue_delayed task (pos 0) now q

-- moveReadyLocked: the loop takes the head of the heap while it is not after `now`.
unfoldable pub due : Time → List QueuedTask → List QueuedTask
due now [] = []
due now (x ∷ xs) = let rest = due now xs in if ltb now x.ready_at then [] else x ∷ rest

unfoldable pub not_due : Time → List QueuedTask → List QueuedTask
not_due now [] = []
not_due now (x ∷ xs) = let rest = not_due now xs in if ltb now x.ready_at then x ∷ xs else rest

unfoldable pub move_ready_locked : Time → MemoryQueue → MemoryQueue
unfolding due not_due
move_ready_locked now q = record q {
  ready = q.ready ++ due now q.delayed;
  delayed = not_due now q.delayed;
}

-- nextDelayLocked; `none` is the -1 that starts no timer.
unfoldable pub next_delay_locked : Time → MemoryQueue → Option ℕ
next_delay_locked now q = elim q.delayed [ [] ↦ none | x ∷ xs ↦ some (x.ready_at - now) ]

-- What one round of the loop of Dequeue does under the lock: it returns a task or the error, or it
-- waits for the context, for a signal, or for the timer.
pub data Round : Type 0 where
  returned : QueueTask → Round
  failed : QueueError → Round
  waiting : Option ℕ → Round

unfoldable pub take_ready : Time → MemoryQueue → Round × MemoryQueue
unfolding next_delay_locked
take_ready now q = elim q.ready [
  | [] ↦ (waiting (next_delay_locked now q), q)
  -- the invariant keeps `pending` above 0 here
  | item ∷ rest ↦ (returned item.task, record q { ready = rest; pending = q.pending - 1 })
]

unfoldable pub dequeue_round : Time → MemoryQueue → Round × MemoryQueue
dequeue_round now q =
    if q.closed then (failed memory_queue_closed, q) else take_ready now (move_ready_locked now q)

unfoldable pub pending_count : MemoryQueue → ℕ
pending_count q = q.pending

unfoldable pub close : MemoryQueue → MemoryQueue
unfolding signal_locked
close q =
    if q.closed
    then q
    else signal_locked (record q { closed = true; pending = 0; ready = []; delayed = [] })
