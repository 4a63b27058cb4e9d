-- ===== src/Lite/Queue/Invariant.antt =====
-- The accounting of the queue: `pending` counts the tasks held and the reservations still open, and
-- never passes the capacity; the heap stays in order.
use mux_mail.Prelude.{
  ℕ, zero, suc, ◌+◌, ◌≤◌, ◌<◌, ◌≡◌, refl, Bool, true, false, not, Option, none, some, List, [], ◌∷◌,
  ◌++◌, arith, ap, ◌∙◌, length, length-append, count_if, set, get_elem?, nat_eq, if◌then◌else◌,
  Bool-cases, Option-cases, All, inl, inr, ◌⊎◌,
}
use mux_mail.Prelude.Int.{ℤ, pos, negsuc, pos_part}
use mux_mail.Lite.Time.{Time}
use mux_mail.Lite.Queue.{
  QueueTask, QueuedTask, MemoryQueue, ok, new_memory_queue, less, heap_push, enqueue_item,
  queued_item, failed, memory_queue_closed, commit_unused, reserve, commit_delayed, release, due,
  not_due, dequeue_round, close, take_ready, move_ready_locked, release_slot,
}
use mux_mail.Lite.Queue.History.{Call, reserves, commits, releases, dequeues, closes, step, run}

-- The reservations that are neither committed nor released.
abbrev pub outstanding : MemoryQueue → ℕ
outstanding q = count_if not q.reservations

-- The heap in the order of `less`, every element above the bound.
abbrev pub IsOrdered : List QueuedTask → Type 0
IsOrdered [] = Unit
IsOrdered (x ∷ []) = Unit
IsOrdered (x ∷ y ∷ ys) = (less x y ≡ true) × IsOrdered (y ∷ ys)

abbrev pub SeqBelow : ℕ → List QueuedTask → Type 0
SeqBelow n = All (λ x. x.sequence ≤ n)

pub record IsValid (q : MemoryQueue) : Type 0 where
  pub accounted :
      ((q.closed ≡ false) × (q.pending ≡ length q.ready + length q.delayed + outstanding q))
      ⊎ ((q.closed ≡ true) × (q.pending ≡ 0) × (q.ready ≡ []) × (q.delayed ≡ []))
  pub within : q.pending ≤ q.capacity
  pub ordered : IsOrdered q.delayed
  pub numbered : SeqBelow q.next_seq q.delayed

count_if-append_one : (xs : List Bool) → count_if not (xs ++ false ∷ []) ≡ count_if not xs + 1
count_if-append_one [] = omega arith
count_if-append_one (x ∷ xs) = ground (arith, count_if-append_one xs)

count_if-set :
    (xs : List Bool) (i : ℕ)
    → get_elem? xs i ≡ some false
    → count_if not (set xs i true) + 1 ≡ count_if not xs
count_if-set [] i h = cc
count_if-set (x ∷ xs) zero h = ground arith
count_if-set (x ∷ xs) (suc i) h = ground (arith, count_if-set xs i)

length-due :
    (now : Time) (xs : List QueuedTask) → length (due now xs) + length (not_due now xs) ≡ length xs
unfolding due not_due
length-due now [] = omega arith
length-due now (x ∷ xs) = ground (arith, length-due now xs)

length-heap_push : (x : QueuedTask) (xs : List QueuedTask) → length (heap_push x xs) ≡ length xs + 1
unfolding heap_push
length-heap_push x [] = omega arith
length-heap_push x (y ∷ ys) = ground (arith, length-heap_push x ys)

heap_push-SeqBelow :
    (n : ℕ) (x : QueuedTask) (xs : List QueuedTask)
    → x.sequence ≤ n
    → SeqBelow n xs
    → SeqBelow n (heap_push x xs)
unfolding heap_push
heap_push-SeqBelow n x [] h b = (h, tt)
heap_push-SeqBelow n x (y ∷ ys) h b = ground (arith, heap_push-SeqBelow n x ys h b.1)

less-flip : (x y : QueuedTask) → less x y ≡ false → y.sequence < x.sequence → less y x ≡ true
unfolding less
less-flip x y h n = ground arith

heap_push-IsOrdered :
    (n : ℕ) (x : QueuedTask) (xs : List QueuedTask)
    → n < x.sequence
    → SeqBelow n xs
    → IsOrdered xs
    → IsOrdered (heap_push x xs)
unfolding heap_push
heap_push-IsOrdered n x [] h b o = tt
heap_push-IsOrdered n x (y ∷ []) h b o = ground (arith, less-flip x y)
heap_push-IsOrdered n x (y ∷ z ∷ zs) h b o =
    ground (arith, less-flip x y, less-flip x z, heap_push-IsOrdered n x (z ∷ zs) h b.1 o.1)

not_due-IsOrdered : (now : Time) (xs : List QueuedTask) → IsOrdered xs → IsOrdered (not_due now xs)
unfolding not_due
not_due-IsOrdered now [] o = tt
not_due-IsOrdered now (x ∷ []) o = ground arith
not_due-IsOrdered now (x ∷ y ∷ ys) o = ground (arith, not_due-IsOrdered now (y ∷ ys) o.1)

not_due-SeqBelow :
    (n : ℕ) (now : Time) (xs : List QueuedTask) → SeqBelow n xs → SeqBelow n (not_due now xs)
unfolding not_due
not_due-SeqBelow n now [] o = tt
not_due-SeqBelow n now (x ∷ xs) o = ground (arith, not_due-SeqBelow n now xs o.1)

SeqBelow-suc : (n : ℕ) (xs : List QueuedTask) → SeqBelow n xs → SeqBelow (n + 1) xs
SeqBelow-suc n [] b = tt
SeqBelow-suc n (x ∷ xs) b = (omega arith, SeqBelow-suc n xs b.1)

pub reserve-IsValid : (q : MemoryQueue) → IsValid q → IsValid (reserve q).1
unfolding reserve
reserve-IsValid q v = ground (arith, count_if-append_one q.reservations)

-- The reservation's slot becomes the task's.
enqueue_item-IsValid :
    (task : QueueTask) (delay : ℕ) (now : Time) (q : MemoryQueue)
    → q.closed ≡ false
    → q.pending ≡ length q.ready + length q.delayed + outstanding q + 1
    → q.pending ≤ q.capacity
    → IsOrdered q.delayed
    → SeqBelow q.next_seq q.delayed
    → IsValid (enqueue_item task delay now q)
unfolding enqueue_item
enqueue_item-IsValid task delay now q c p w o n =
    let item = queued_item task (now + delay) (q.next_seq + 1) in
    let raised = SeqBelow-suc q.next_seq q.delayed n in
    ground (
      arith,
      length-append q.ready (item ∷ []),
      length-heap_push item q.delayed,
      raised,
      heap_push-IsOrdered q.next_seq item q.delayed (omega arith) n o,
      heap_push-SeqBelow (q.next_seq + 1) item q.delayed (omega arith) raised,
    )

commit_unused-IsValid :
    (r : ℕ) (task : QueueTask) (delay : ℤ) (now : Time) (q : MemoryQueue)
    → get_elem? q.reservations r ≡ some false
    → IsValid q
    → IsValid (commit_unused r task delay now q).1
unfolding commit_unused release_slot
commit_unused-IsValid r task delay now q h v = ground (
  arith,
  count_if-set q.reservations r h,
  enqueue_item-IsValid task (pos_part delay) now
      (record q { reservations = set q.reservations r true }),
)

pub commit_delayed-IsValid :
    (r : Option ℕ) (task : QueueTask) (delay : ℤ) (now : Time) (q : MemoryQueue)
    → IsValid q
    → IsValid (commit_delayed r task delay now q).1
unfolding commit_delayed
commit_delayed-IsValid none task delay now q v = v
commit_delayed-IsValid (some r) task delay now q v =
    elim (Option-cases (get_elem? q.reservations r)) [
      | inl e ↦ rw (e, commit_delayed) v
      | inr (true, e) ↦ rw (e, commit_delayed) v
      | inr (false, e) ↦ rw (e, commit_delayed) (commit_unused-IsValid r task delay now q e v)
    ]

release-IsValid : (r : Option ℕ) (q : MemoryQueue) → IsValid q → IsValid (release r q)
unfolding release
release-IsValid none q v = v
release-IsValid (some r) q v = ground (arith, count_if-set q.reservations r)

pub move_ready_locked-IsValid :
    (now : Time) (q : MemoryQueue) → IsValid q → IsValid (move_ready_locked now q)
unfolding move_ready_locked
move_ready_locked-IsValid now q v = ground (
  arith,
  length-due now q.delayed,
  length-append q.ready (due now q.delayed),
  not_due-IsOrdered now q.delayed v.ordered,
  not_due-SeqBelow q.next_seq now q.delayed v.numbered,
)

take_ready-IsValid :
    (now : Time) (q : MemoryQueue) → q.closed ≡ false → IsValid q → IsValid (take_ready now q).1
unfolding take_ready
take_ready-IsValid now q c v = ground arith

pub dequeue_round_open :
    (now : Time) (q : MemoryQueue)
    → q.closed ≡ false
    → dequeue_round now q ≡ take_ready now (move_ready_locked now q)
unfolding dequeue_round
dequeue_round_open now q e =
    ap
      (λ b. if b then (failed memory_queue_closed, q) else take_ready now (move_ready_locked now q))
      e

pub dequeue_round_closed :
    (now : Time) (q : MemoryQueue)
    → q.closed ≡ true
    → dequeue_round now q ≡ (failed memory_queue_closed, q)
unfolding dequeue_round
dequeue_round_closed now q e =
    ap
      (λ b. if b then (failed memory_queue_closed, q) else take_ready now (move_ready_locked now q))
      e

pub closed-move_ready_locked :
    (now : Time) (q : MemoryQueue) → (move_ready_locked now q).closed ≡ q.closed
unfolding move_ready_locked
closed-move_ready_locked now q = refl

pub dequeue_round-IsValid :
    (now : Time) (q : MemoryQueue) → IsValid q → IsValid (dequeue_round now q).1
dequeue_round-IsValid now q v = elim (Bool-cases q.closed) [
  | inl e ↦ rw (dequeue_round_closed now q e) v
  | inr e ↦ rw (dequeue_round_open now q e) (
      take_ready-IsValid now (move_ready_locked now q) (closed-move_ready_locked now q ∙ e)
        (move_ready_locked-IsValid now q v))
]

close-IsValid : (q : MemoryQueue) → IsValid q → IsValid (close q)
unfolding close
close-IsValid q v = ground arith

step-IsValid : (q : MemoryQueue) (c : Call) → IsValid q → IsValid (step q c)
unfolding step
step-IsValid q reserves v = reserve-IsValid q v
step-IsValid q (commits r task delay now) v = commit_delayed-IsValid r task delay now q v
step-IsValid q (releases r) v = release-IsValid r q v
step-IsValid q (dequeues now) v = dequeue_round-IsValid now q v
step-IsValid q closes v = close-IsValid q v

-- Every history of calls keeps the queue well formed: `pending` counts the tasks held and the
-- reservations still open, it is within the capacity, the heap is in order, its sequence numbers are
-- below the next one, and a closed queue holds nothing.
pub run-IsValid : (q : MemoryQueue) (cs : List Call) → IsValid q → IsValid (run q cs)
unfolding run
run-IsValid q [] v = v
run-IsValid q (c ∷ cs) v = run-IsValid (step q c) cs (step-IsValid q c v)

pub new_memory_queue-IsValid :
    (capacity : ℤ) (q : MemoryQueue) → new_memory_queue capacity ≡ ok q → IsValid q
unfolding new_memory_queue
new_memory_queue-IsValid (negsuc n) q h = cc
new_memory_queue-IsValid (pos zero) q h = cc
new_memory_queue-IsValid (pos (suc n)) q h = ground arith
