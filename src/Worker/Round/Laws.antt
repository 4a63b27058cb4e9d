-- ===== src/Worker/Round/Laws.antt =====
-- The worker and its queue together.
use mux_mail.Prelude.{
  ℕ, ◌<◌, ◌≡◌, refl, sym, ap, ◌∙◌, subst, inl, inr, false, none, some, List, [], ◌∷◌, arith,
  Bool-cases, length,
}
use mux_mail.Prelude.Int.{ℤ}
use mux_mail.Domain.Constants.{MessageStatus}
use mux_mail.Lite.Time.{Time}
use mux_mail.Lite.Queue.{
  MemoryQueue, QueueTask, Result, ok, err, Round, returned, failed, waiting, reserve,
  enqueue_delayed, move_ready_locked, take_ready, dequeue_round,
}
use mux_mail.Lite.Queue.Invariant.{
  IsValid, reserve-IsValid, commit_delayed-IsValid, dequeue_round-IsValid,
  move_ready_locked-IsValid, closed-move_ready_locked, dequeue_round_open, dequeue_round_closed,
}
use mux_mail.Lite.Queue.Reservation.{reserved-IsOpen, commit-ok}
use mux_mail.Provider.{SendResult}
use mux_mail.Worker.Config.{Worker}
use mux_mail.Worker.Process.{Processed, Readings}
use mux_mail.Worker.Process.Outcome.{
  Ending, delivered, given_up, retried, retry_refused, Outcome, no_channel, attempted,
  process_task-Outcome, retry_of,
}
use mux_mail.Worker.Round.{error_of, run_round, run_rounds}

enqueue_delayed-IsValid :
    (task : QueueTask) (delay : ℤ) (now : Time) (q : MemoryQueue)
    → IsValid q
    → IsValid (enqueue_delayed task delay now q).1
unfolding enqueue_delayed
enqueue_delayed-IsValid task delay now q v = by_reserve _ refl
  where
    by_reserve : (x : Result ℕ) → (reserve q).0 ≡ x → IsValid (enqueue_delayed task delay now q).1
    by_reserve (err e) h = rw (h, enqueue_delayed) (reserve-IsValid q v)
    by_reserve (ok r) h =
        rw (h, enqueue_delayed)
          (commit_delayed-IsValid (some r) task delay now _ (reserve-IsValid q v))

Ending-IsValid :
    {w : Worker} {now : Time} {task : QueueTask} {result : SendResult} {q : MemoryQueue}
    {before : List MessageStatus} {p : Processed}
    → Ending w now task result q before p
    → IsValid q
    → IsValid p.queue
Ending-IsValid (delivered a s e k) v = subst IsValid (sym k) v
Ending-IsValid (given_up a b s e k) v = subst IsValid (sym k) v
Ending-IsValid (retried a b n s e k) v =
    subst (λ x. IsValid x.1) k (enqueue_delayed-IsValid _ _ _ _ v)
Ending-IsValid (retry_refused c a b n s e k) v =
    subst (λ x. IsValid x.1) k (enqueue_delayed-IsValid _ _ _ _ v)

Outcome-IsValid :
    {w : Worker} {now : Time} {task : QueueTask} {q : MemoryQueue} {p : Processed}
    → Outcome w now task q p
    → IsValid q
    → IsValid p.queue
Outcome-IsValid (no_channel c s e k) v = subst IsValid (sym k) v
Outcome-IsValid (attempted c h ending) v = Ending-IsValid ending v

run_round-IsValid :
    (w : Worker) (now : Time) (r : Readings) (q : MemoryQueue)
    → IsValid q
    → IsValid (run_round w now r q).1
unfolding run_round
run_round-IsValid w now r q v = by_round _ refl
  where
    by_round : (x : Round) → (dequeue_round now q).0 ≡ x → IsValid (run_round w now r q).1
    by_round (failed e) h = rw (h, run_round) (dequeue_round-IsValid now q v)
    by_round (waiting d) h = rw (h, run_round) (dequeue_round-IsValid now q v)
    by_round (returned t) h =
        rw (h, run_round)
          (Outcome-IsValid (process_task-Outcome w r t (dequeue_round now q).1)
            (dequeue_round-IsValid now q v))

abbrev HasRoom : MemoryQueue → Type 0
HasRoom q = (q.closed ≡ false) × (q.pending < q.capacity)

take_ready-HasRoom :
    (now : Time) (q : MemoryQueue) (t : QueueTask)
    → q.closed ≡ false
    → IsValid q
    → (take_ready now q).0 ≡ returned t
    → HasRoom (take_ready now q).1
unfolding take_ready
take_ready-HasRoom now q t c v h = ground arith

-- A queue that has just given a task has room for one.
dequeue_round-HasRoom :
    (now : Time) (q : MemoryQueue) (t : QueueTask)
    → IsValid q
    → (dequeue_round now q).0 ≡ returned t
    → HasRoom (dequeue_round now q).1
dequeue_round-HasRoom now q t v h = elim (Bool-cases q.closed) [
  | inl c ↦ absurd (cc (h, ap (λ x. x.0) (dequeue_round_closed now q c)))
  | inr c ↦
      let e = dequeue_round_open now q c in
      subst (λ x. HasRoom x.1) (sym e)
        (take_ready-HasRoom now (move_ready_locked now q) t (closed-move_ready_locked now q ∙ c)
          (move_ready_locked-IsValid now q v) (sym (ap (λ x. x.0) e) ∙ h))
]

reserve-HasRoom : (q : MemoryQueue) → HasRoom q → (reserve q).0 ≡ ok (length q.reservations)
unfolding reserve
reserve-HasRoom q room = ground arith

enqueue_delayed-HasRoom :
    (task : QueueTask) (delay : ℤ) (now : Time) (q : MemoryQueue)
    → HasRoom q
    → (enqueue_delayed task delay now q).0 ≡ ok tt
unfolding enqueue_delayed
enqueue_delayed-HasRoom task delay now q room =
    let granted = reserve-HasRoom q room in
    let r = length q.reservations in
    rw (granted, enqueue_delayed)
      (commit-ok r task delay now (reserve q).1
        (reserved-IsOpen q (reserve q).1 r (ap (λ o. (o, (reserve q).1)) granted)))

Ending-error :
    {w : Worker} {now : Time} {task : QueueTask} {result : SendResult} {q : MemoryQueue}
    {before : List MessageStatus} {p : Processed}
    → Ending w now task result q before p
    → HasRoom q
    → p.error ≡ none
Ending-error (delivered a s e k) room = e
Ending-error (given_up a b s e k) room = e
Ending-error (retried a b n s e k) room = e
Ending-error {w = w} {now = now} {task = task} {result = result} {q = q}
      (retry_refused c a b n s e k) room =
    let hint = result.retry_after_seconds in
    let granted : (retry_of w now task hint q).0 ≡ ok tt = enqueue_delayed-HasRoom _ _ _ _ room in
    absurd (cc (ap (λ x. x.0) k, granted))

Outcome-error :
    {w : Worker} {now : Time} {task : QueueTask} {q : MemoryQueue} {p : Processed}
    → Outcome w now task q p
    → HasRoom q
    → p.error ≡ none
Outcome-error (no_channel c s e k) room = e
Outcome-error (attempted c h ending) room = Ending-error ending room

-- If nothing comes between the Dequeue of a task and the end of its processing, its retry is never
-- refused: the slot that the task gave back is still free, also if the queue was full.
pub retry_never_refused :
    (w : Worker) (now : Time) (r : Readings) (q : MemoryQueue)
    → IsValid q
    → error_of (run_round w now r q).0 ≡ none
unfolding run_round
retry_never_refused w now r q v = by_round _ refl
  where
    by_round : (x : Round) → (dequeue_round now q).0 ≡ x → error_of (run_round w now r q).0 ≡ none
    by_round (failed e) d = rw (d, run_round) refl
    by_round (waiting delay) d = rw (d, run_round) refl
    by_round (returned t) d =
        rw (d, run_round)
          (Outcome-error (process_task-Outcome w r t (dequeue_round now q).1)
            (dequeue_round-HasRoom now q t v d))

-- However many rounds a worker runs, at any times, the queue stays well formed.
pub run_rounds-IsValid :
    (w : Worker) (rounds : List (Time × Readings)) (q : MemoryQueue)
    → IsValid q
    → IsValid (run_rounds w rounds q)
unfolding run_rounds
run_rounds-IsValid w [] q v = v
run_rounds-IsValid w ((now, r) ∷ rest) q v =
    run_rounds-IsValid w rest (run_round w now r q).1 (run_round-IsValid w now r q v)
